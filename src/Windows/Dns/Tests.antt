-- ===== src/Windows/Dns/Tests.antt =====
-- One address of each kind, of which that of IPv4 is found twice.
use libyaooi.Prelude.{◌≡◌, refl, true, false, Option, some, List, [], ◌∷◌, arith}
use libyaooi.Sockaddr.{Sockaddr, inet, inet6}
use libyaooi.Dns as UnixDns
use libyaooi.Dns.{AddrinfoFlags, Hints, Lookup, found}
use libyaooi.Windows.Cmdline.{Text}
use libyaooi.Windows.Spawn.{Attempt, given}
use libyaooi.Windows.Dns.{service_of, dns_getaddrinfo}
use libyaooi.Windows.Dns.Agrees.{moved, dns_getaddrinfo-moved}

abbrev answers : List Sockaddr
answers =
    inet 0 (10 ∷ 0 ∷ 0 ∷ 7 ∷ [])
    ∷ inet6 0 (0 ∷ 0 ∷ 0 ∷ 0 ∷ 0 ∷ 0 ∷ 0 ∷ 256 ∷ [])
    ∷ inet 0 (10 ∷ 0 ∷ 0 ∷ 7 ∷ [])
    ∷ []

abbrev finds : Text → Text → Hints → Lookup
finds wname service h = found answers

abbrev converts : Option Text → Attempt Text
converts name = given (97 ∷ 0 ∷ [])

abbrev named : Option Text
named = some (97 ∷ 0 ∷ [])

abbrev no_flags : AddrinfoFlags
no_flags = record { ipv4 = false; ipv6 = false; ipv4_mapped = false; bind = false; nodns = false }

dns_getaddrinfo-moved_example :
    dns_getaddrinfo converts finds true (λ t. []) named no_flags
    ≡ moved (UnixDns.dns_getaddrinfo (finds (97 ∷ 0 ∷ []) (service_of named)) true no_flags)
dns_getaddrinfo-moved_example =
    dns_getaddrinfo-moved converts finds [] named no_flags (97 ∷ 0 ∷ []) refl (
      tt,
      (
        (
          omega arith,
          (
            omega arith,
            (
              omega arith,
              (omega arith, (omega arith, (omega arith, (omega arith, (omega arith, tt))))),
            ),
          ),
        ),
        (tt, tt),
      ),
    )
