-- ===== src/Dns/Tests.antt =====
-- Two answers for one address, and one for another.
use libyaooi.Prelude.{false, List, [], ◌∷◌}
use libyaooi.Sockaddr.{Sockaddr, inet}
use libyaooi.Dns.{AddrinfoFlags, Hints, Lookup, found}

abbrev local : List Sockaddr
local =
    inet 0 (127 ∷ 0 ∷ 0 ∷ 1 ∷ [])
    ∷ inet 0 (10 ∷ 0 ∷ 0 ∷ 7 ∷ [])
    ∷ inet 0 (127 ∷ 0 ∷ 0 ∷ 1 ∷ [])
    ∷ []

abbrev finds : Hints → Lookup
finds h = found local

abbrev no_flags : AddrinfoFlags
no_flags = record { ipv4 = false; ipv6 = false; ipv4_mapped = false; bind = false; nodns = false }
