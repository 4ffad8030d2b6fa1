-- ===== src/Windows/Dns/Agrees.antt =====
-- The addresses that both ports make of one answer of the system.
use libyaooi.Prelude.{
  ℕ, ◌<◌, ◌≡◌, refl, ap, sym, ◌∙◌, true, Bool-cases, inl, inr, Option, none, some, List, [], ◌∷◌,
  ◌++◌, ◌==◌, ==→eq, ==_self, arith, All,
}
use libyaooi.Errno.Os.{AiErr}
use libyaooi.Errno.Unix.{conv_aierr}
use libyaooi.Addr.{Addr, v4, v6, memcmp, addrcmp}
use libyaooi.Sockaddr as Unix
use libyaooi.Sockaddr.{Sockaddr, inet, inet6, htons, swap_words}
use libyaooi.Sockaddr.Trip.{IsWords, HasWords, swap_words_twice, htons_twice}
use libyaooi.Dns as UnixDns
use libyaooi.Dns.{AddrinfoFlags, Hints, Lookup, found, failed}
use libyaooi.Windows.Cmdline.{Text}
use libyaooi.Windows.Spawn.{Attempt, given}
use libyaooi.Windows.Dns.{
  conv_addr, conv_sockaddr, hints_of, Slot, slot_of, same, seen, store, addrs, Resolved, addresses,
  refused, collect, service_of, on_lookup, dns_getaddrinfo,
}

-- The words of a socket address have two bytes.
abbrev pub FromWords : Sockaddr → Type 0
FromWords (inet port parts) = Unit
FromWords (inet6 port words) = IsWords words

-- An address with the bytes of each word in the other order.
abbrev pub swapped : Addr → Addr
swapped (v4 parts) = v4 parts
swapped (v6 words) = v6 (swap_words words)

abbrev pub all_swapped : List Addr → List Addr
all_swapped [] = []
all_swapped (a ∷ list) = swapped a ∷ all_swapped list

htons_same : (w v : ℕ) → w < 65536 → v < 65536 → htons w ≡ htons v → w ≡ v
unfolding htons
htons_same w v hw hv e = omega (arith, hw, hv, e)

htons_tested : (w v : ℕ) → w < 65536 → v < 65536 → (htons w == htons v) ≡ (w == v)
htons_tested w v hw hv = elim (Bool-cases (htons w == htons v)) [
  | inl e ↦ e ∙ (let k = htons_same w v hw hv (==→eq _ _ e) in ground arith)
  | inr e ↦ elim (Bool-cases (w == v)) [
    | inl d ↦ absurd (let k = ap htons (==→eq w v d) in ground arith)
    | inr d ↦ e ∙ sym d
  ]
]

memcmp-swap_words :
    (ws vs : List ℕ)
    → IsWords ws
    → IsWords vs
    → memcmp (swap_words ws) (swap_words vs) ≡ memcmp ws vs
unfolding memcmp
memcmp-swap_words [] [] h k = refl
memcmp-swap_words [] (v ∷ vs) h k = refl
memcmp-swap_words (w ∷ ws) [] h k = refl
memcmp-swap_words (w ∷ ws) (v ∷ vs) (hw, h) (kv, k) =
    rw (htons_tested w v hw kv, memcmp-swap_words ws vs h k) refl

memcmp_self : (ws : List ℕ) → memcmp ws ws ≡ true
unfolding memcmp
memcmp_self [] = refl
memcmp_self (w ∷ ws) = rw (==_self w, memcmp_self ws) refl

IsWords-swap_words : (ws : List ℕ) → IsWords (swap_words ws)
unfolding htons
IsWords-swap_words [] = tt
IsWords-swap_words (w ∷ ws) = (omega arith, IsWords-swap_words ws)

-- What the Windows port stores for the addresses of the other.
abbrev slots : List ℕ → List Addr → List Slot
slots b [] = []
slots b (a ∷ list) = slot_of (swapped a) b ∷ slots b list

addrs-slots : (b : List ℕ) (list : List Addr) → addrs (slots b list) ≡ all_swapped list
addrs-slots b [] = refl
addrs-slots b (v4 parts ∷ list) = ap (λ t. v4 parts ∷ t) (addrs-slots b list)
addrs-slots b (v6 words ∷ list) = ap (λ t. v6 (swap_words words) ∷ t) (addrs-slots b list)

slots-append :
    (b : List ℕ) (list : List Addr) (a : Addr)
    → slots b list ++ (slot_of (swapped a) b ∷ []) ≡ slots b (list ++ (a ∷ []))
slots-append b [] a = refl
slots-append b (c ∷ list) a = ap (λ t. slot_of (swapped c) b ∷ t) (slots-append b list a)

same-swapped :
    (b : List ℕ) (a c : Addr)
    → HasWords a
    → HasWords c
    → same (slot_of (swapped a) b) (slot_of (swapped c) b) ≡ addrcmp a c
unfolding addrcmp memcmp
same-swapped b (v4 a) (v4 c) h k = elim (Bool-cases (memcmp a c)) [
  | inl e ↦ rw (e, memcmp_self b) refl
  | inr e ↦ rw e refl
]
same-swapped b (v4 a) (v6 c) h k = refl
same-swapped b (v6 a) (v4 c) h k = refl
same-swapped b (v6 a) (v6 c) h k =
    rw (memcmp-swap_words a c h k)
      (elim (Bool-cases (memcmp a c)) [ inl e ↦ rw e refl | inr e ↦ rw e refl ])

seen-slots :
    (b : List ℕ) (a : Addr) (list : List Addr)
    → HasWords a
    → All HasWords list
    → seen (slot_of (swapped a) b) (slots b list) ≡ UnixDns.seen a list
unfolding seen UnixDns.seen
seen-slots b a [] h hs = refl
seen-slots b a (c ∷ list) h (hc, hs) = rw (same-swapped b a c h hc, seen-slots b a list h hs) refl

slot_of-swapped :
    (b : List ℕ) (s : Sockaddr)
    → FromWords s
    → slot_of (conv_sockaddr s).0 b ≡ slot_of (swapped (Unix.conv_sockaddr s).0) b
unfolding conv_sockaddr Unix.conv_sockaddr
slot_of-swapped b (inet port parts) h = refl
slot_of-swapped b (inet6 port words) h = rw (swap_words_twice words h) refl

HasWords-conv_sockaddr : (s : Sockaddr) → HasWords (Unix.conv_sockaddr s).0
unfolding Unix.conv_sockaddr
HasWords-conv_sockaddr (inet port parts) = tt
HasWords-conv_sockaddr (inet6 port words) = IsWords-swap_words words

HasWords-append :
    (list : List Addr) (a : Addr) → All HasWords list → HasWords a → All HasWords (list ++ (a ∷ []))
HasWords-append [] a hs h = (h, tt)
HasWords-append (c ∷ list) a (hc, hs) h = (hc, HasWords-append list a hs h)

store-slots :
    (b : List ℕ) (res : List Addr) (list : List Sockaddr)
    → All HasWords res
    → All FromWords list
    → store (λ t. b) (slots b res) list ≡ slots b (UnixDns.store res list)
unfolding store UnixDns.store
store-slots b res [] hs fs = refl
store-slots b res (s ∷ list) hs (f, fs) =
    let a = (Unix.conv_sockaddr s).0 in
    let k = HasWords-conv_sockaddr s in
    rw (slot_of-swapped b s f, seen-slots b a res k hs)
      (elim (Bool-cases (UnixDns.seen a res)) [
        | inl e ↦ rw e (store-slots b res list hs fs)
        | inr e ↦
            rw (e, slots-append b res a)
              (store-slots b (res ++ (a ∷ [])) list (HasWords-append res a hs k) fs)
      ])

-- The answers of the system for which both ports do alike.
abbrev pub Alike : Lookup → Type 0
Alike (found list) = All FromWords list
Alike (failed AiErr.eai_badflags) = Unit
Alike (failed AiErr.eai_noname) = Unit
Alike (failed AiErr.eai_nodata) = Unit
Alike (failed AiErr.eai_again) = Unit
Alike (failed AiErr.eai_fail) = Unit
Alike (failed AiErr.eai_family) = Unit
Alike (failed AiErr.eai_memory) = Unit
Alike (failed e) = ⊥

-- What the Windows port gives where the other gives this and has memory; no list is left.
abbrev pub moved : UnixDns.Answered → Resolved
moved (UnixDns.addresses list) = addresses (all_swapped list) 0
moved (UnixDns.refused c) = refused (some c) 0
moved (UnixDns.unconverted e) = refused none 0

collect-moved :
    (b : List ℕ) (list : List Sockaddr)
    → All FromWords list
    → collect true (λ t. b) list ≡ moved (UnixDns.collect true list)
unfolding UnixDns.collect
collect-moved b list fs =
    rw (store-slots b [] list tt fs, addrs-slots b (UnixDns.store [] list))
      (ap (λ n. addresses (all_swapped (UnixDns.store [] list)) n) (omega arith))

on_lookup-moved :
    (b : List ℕ) (l : Lookup)
    → Alike l
    → on_lookup true (λ t. b) l ≡ moved (UnixDns.on_lookup true l)
unfolding on_lookup UnixDns.on_lookup conv_aierr
on_lookup-moved b (found list) h = collect-moved b list h
on_lookup-moved b (failed AiErr.eai_badflags) h = refl
on_lookup-moved b (failed AiErr.eai_noname) h = collect-moved b [] tt
on_lookup-moved b (failed AiErr.eai_nodata) h = collect-moved b [] tt
on_lookup-moved b (failed AiErr.eai_again) h = refl
on_lookup-moved b (failed AiErr.eai_fail) h = refl
on_lookup-moved b (failed AiErr.eai_family) h = refl
on_lookup-moved b (failed AiErr.eai_memory) h = refl
on_lookup-moved b (failed e) h = absurd h

-- Where there is memory, the name is converted, and the bytes behind an IPv4 address in its variable are always the same: for
-- any list of addresses that the system answers, and for the errors that both ports know alike, `yo_dns_getaddrinfo` of the
-- Windows port gives what that of the unix port gives for the same answer, but with the bytes of each word of an IPv6 address
-- in the other order; and it leaves no list of the system.
pub dns_getaddrinfo-moved :
    (conv : Option Text → Attempt Text) (getaddrinfo : Text → Text → Hints → Lookup) (b : List ℕ)
    (name : Option Text) (flags : AddrinfoFlags) (wname : Text)
    → conv name ≡ given wname
    → Alike (getaddrinfo wname (service_of name) (hints_of flags))
    → dns_getaddrinfo conv getaddrinfo true (λ t. b) name flags
      ≡ moved (UnixDns.dns_getaddrinfo (getaddrinfo wname (service_of name)) true flags)
unfolding dns_getaddrinfo UnixDns.dns_getaddrinfo UnixDns.hints_of
dns_getaddrinfo-moved conv getaddrinfo b name flags wname c h =
    rw c (on_lookup-moved b (getaddrinfo wname (service_of name) (hints_of flags)) h)

-- Where the bytes behind them differ, one IPv4 address is given twice.
twice :
    (a : List ℕ)
    → addrs (
        store (λ rest. elim rest [ [] ↦ 1 ∷ [] | s ∷ list ↦ 0 ∷ [] ]) [] (inet 0 a ∷ inet 0 a ∷ []))
      ≡ v4 a ∷ v4 a ∷ []
unfolding store seen addrcmp memcmp conv_sockaddr
twice a = elim (Bool-cases (memcmp a a)) [ inl e ↦ rw e refl | inr e ↦ rw e refl ]

-- A port, and an IPv4 address, come back from the socket address that they are converted to; an IPv6 address comes back with the
-- bytes of each word in the other order.
conv_sockaddr-conv_addr :
    (a : Addr) (port : ℕ) → port < 65536 → conv_sockaddr (conv_addr a port) ≡ (swapped a, port)
unfolding conv_sockaddr conv_addr
conv_sockaddr-conv_addr (v4 parts) port lt = rw (htons_twice port lt) refl
conv_sockaddr-conv_addr (v6 words) port lt = rw (htons_twice port lt) refl
