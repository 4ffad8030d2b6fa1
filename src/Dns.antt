-- ===== src/Dns.antt =====
-- `yo_dns_getaddrinfo` of src/unix/impl.c. The system's getaddrinfo is an argument; so is whether there is
-- memory for the result.
pub mod Resolved
mod Tests
use libyaooi.Prelude.{
  ℕ, suc, Bool, true, false, Option, none, some, List, [], ◌∷◌, ◌++◌, if◌then◌else◌,
}
use libyaooi.Errno.{Code}
use libyaooi.Errno.Os.{Errno, AiErr}
use libyaooi.Errno.Unix.{conv_aierr}
use libyaooi.Addr.{Addr, addrcmp}
use libyaooi.Sockaddr.{Sockaddr, conv_sockaddr}

-- `yo_addrinfo_flags_t`, bit by bit.
pub record AddrinfoFlags : Type 0 where
  pub ipv4 : Bool
  pub ipv6 : Bool
  pub ipv4_mapped : Bool
  pub bind : Bool
  pub nodns : Bool

pub data Family : Type 0 where
  af_inet : Family
  af_inet6 : Family
  af_unspec : Family

-- A number that is or-ed to `ai_flags`: one of the system's names, or the value of YO_AI_IPV4_MAPPED.
pub data AiFlag : Type 0 where
  ai_passive : AiFlag
  ai_numerichost : AiFlag
  yo_ai_ipv4_mapped : AiFlag

pub record Hints : Type 0 where
  pub ai_family : Family
  pub ai_flags : List AiFlag

abbrev pub flag_if : Bool → AiFlag → List AiFlag
flag_if true a = a ∷ []
flag_if false a = []

unfoldable pub hints_of : AddrinfoFlags → Hints
hints_of f = record {
  ai_family = if f.ipv6 then af_inet6 else if f.ipv4 then af_inet else af_unspec;
  ai_flags =
      flag_if f.ipv4_mapped yo_ai_ipv4_mapped
      ++ flag_if f.bind ai_passive
      ++ flag_if f.nodns ai_numerichost;
}

-- What the system's function answers: a list of addresses, or an error, which leaves the list empty.
pub data Lookup : Type 0 where
  found : List Sockaddr → Lookup
  failed : AiErr → Lookup

-- What the caller gets: the addresses, a code, or a number of errno that is not converted.
pub data Answered : Type 0 where
  addresses : List Addr → Answered
  refused : Code → Answered
  unconverted : Errno → Answered

-- The loop over `j`.
unfoldable pub seen : Addr → List Addr → Bool
seen addr [] = false
seen addr (a ∷ rest) = let later = seen addr rest in if addrcmp addr a then true else later

-- The loop over the list, with the addresses stored so far.
unfoldable pub store : List Addr → List Sockaddr → List Addr
store res [] = res
store res (s ∷ list) =
    let addr = (conv_sockaddr s).0 in store (if seen addr res then res else res ++ (addr ∷ [])) list

unfoldable pub collect : (has_memory : Bool) → List Sockaddr → Answered
collect has_memory list = if has_memory then addresses (store [] list) else unconverted Errno.enomem

unfoldable pub on_lookup : (has_memory : Bool) → Lookup → Answered
on_lookup has_memory (found list) = collect has_memory list
on_lookup has_memory (failed AiErr.eai_nodata) = collect has_memory []
on_lookup has_memory (failed AiErr.eai_noname) = collect has_memory []
on_lookup has_memory (failed e) = refused (conv_aierr e)

unfoldable pub dns_getaddrinfo : (Hints → Lookup) → (has_memory : Bool) → AddrinfoFlags → Answered
dns_getaddrinfo getaddrinfo has_memory flags = on_lookup has_memory (getaddrinfo (hints_of flags))
