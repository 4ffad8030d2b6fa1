-- ===== src/Windows/Dns.antt =====
-- `yo_dns_getaddrinfo` of src/win/impl.c, with `yoi_win_conv_addr` and `yoi_win_conv_sockaddr`, on a little-endian machine.
-- `yoi_win_conv_utf8`, GetAddrInfoW and whether there is memory for the result are arguments.
pub mod Agrees
mod Tests
use libyaooi.Prelude.{
  ℕ, ◌+◌, ◌-◌, Bool, true, false, Option, none, some, List, [], ◌∷◌, ◌++◌, ◌&&◌, if◌then◌else◌,
}
use libyaooi.Errno.{Code}
use libyaooi.Errno.Os.{AiErr}
use libyaooi.Addr.{Addr, v4, v6, memcmp, addrcmp}
use libyaooi.Sockaddr.{Sockaddr, inet, inet6, htons, swap_words}
use libyaooi.Dns.{
  AddrinfoFlags, af_inet, af_inet6, af_unspec, ai_passive, ai_numerichost, yo_ai_ipv4_mapped, Hints,
  flag_if, Lookup, found, failed,
}
use libyaooi.Windows.Cmdline.{Text}
use libyaooi.Windows.Errno.{conv_errno}
use libyaooi.Windows.Spawn.{Attempt, given, denied}

unfoldable pub conv_addr : Addr → ℕ → Sockaddr
conv_addr (v4 parts) port = inet (htons port) parts
conv_addr (v6 words) port = inet6 (htons port) (swap_words words)

-- The words of an IPv6 address stay as they are.
unfoldable pub conv_sockaddr : Sockaddr → Addr × ℕ
conv_sockaddr (inet port parts) = (v4 parts, htons port)
conv_sockaddr (inet6 port words) = (v6 words, htons port)

abbrev pub hints_of : AddrinfoFlags → Hints
hints_of f = record {
  ai_family = if f.ipv6 then af_inet6 else if f.ipv4 then af_inet else af_unspec;
  ai_flags =
      flag_if f.ipv4_mapped yo_ai_ipv4_mapped
      ++ flag_if f.bind ai_passive
      ++ flag_if f.nodns ai_numerichost;
}

-- The variable `addr` and the elements of `res`: an address, and the bytes behind one of IPv4.
pub record Slot : Type 0 where
  pub addr : Addr
  pub behind : List ℕ

abbrev pub slot_of : Addr → List ℕ → Slot
slot_of (v4 parts) behind = record { addr = v4 parts; behind = behind }
slot_of (v6 words) behind = record { addr = v6 words; behind = [] }

-- `memcmp`, over the whole of both.
abbrev pub same : Slot → Slot → Bool
same s t = addrcmp s.addr t.addr && memcmp s.behind t.behind

-- The loop over `j`.
unfoldable pub seen : Slot → List Slot → Bool
seen slot [] = false
seen slot (s ∷ rest) = let later = seen slot rest in if same slot s then true else later

-- The loop over the list. `behind` is what the conversion leaves behind an address, by the list that is left.
unfoldable pub store : (behind : List Sockaddr → List ℕ) → List Slot → List Sockaddr → List Slot
store behind res [] = res
store behind res (s ∷ list) =
    let slot = slot_of (conv_sockaddr s).0 (behind list) in
    store behind (if seen slot res then res else res ++ (slot ∷ [])) list

abbrev pub addrs : List Slot → List Addr
addrs [] = []
addrs (s ∷ slots) = s.addr ∷ addrs slots

-- What the caller gets, and how many lists of the system are left.
pub data Resolved : Type 0 where
  addresses : List Addr → (lists : ℕ) → Resolved
  refused : Option Code → (lists : ℕ) → Resolved

-- A list of no address is none, of which nothing is freed.
abbrev pub lists_of : List Sockaddr → ℕ
lists_of [] = 0
lists_of (s ∷ list) = 1

abbrev pub collect : (has_memory : Bool) → (List Sockaddr → List ℕ) → List Sockaddr → Resolved
collect false behind list = refused (some Code.enomem) (lists_of list)
collect true behind list = addresses (addrs (store behind [] list)) (lists_of list - lists_of list)

unfoldable pub on_lookup : (has_memory : Bool) → (List Sockaddr → List ℕ) → Lookup → Resolved
on_lookup has_memory behind (found list) = collect has_memory behind list
on_lookup has_memory behind (failed AiErr.eai_socktype) = refused (some Code.einval) 0
on_lookup has_memory behind (failed AiErr.eai_badflags) = refused (some Code.einval) 0
on_lookup has_memory behind (failed AiErr.eai_family) = refused (some Code.enotsup) 0
on_lookup has_memory behind (failed AiErr.eai_memory) = refused (some Code.enomem) 0
on_lookup has_memory behind (failed AiErr.eai_again) = refused (some Code.eagain) 0
on_lookup has_memory behind (failed AiErr.eai_fail) = refused (some Code.eio) 0
on_lookup has_memory behind (failed e) = collect has_memory behind []

-- The service, "80" without a name.
abbrev pub service_of : Option Text → Text
service_of none = 56 ∷ 48 ∷ []
service_of (some name) = []

abbrev pub on_name :
    (Text → Text → Hints → Lookup)
    → (has_memory : Bool) → (List Sockaddr → List ℕ)
    → Option Text
    → AddrinfoFlags
    → Attempt Text
    → Resolved
on_name getaddrinfo has_memory behind name flags (denied e) = refused (conv_errno e) 0
on_name getaddrinfo has_memory behind name flags (given wname) =
    on_lookup has_memory behind (getaddrinfo wname (service_of name) (hints_of flags))

unfoldable pub dns_getaddrinfo :
    (conv : Option Text → Attempt Text)
    → (getaddrinfo : Text → Text → Hints → Lookup) → (has_memory : Bool) → (List Sockaddr → List ℕ)
    → Option Text
    → AddrinfoFlags
    → Resolved
dns_getaddrinfo conv getaddrinfo has_memory behind name flags =
    on_name getaddrinfo has_memory behind name flags (conv name)
