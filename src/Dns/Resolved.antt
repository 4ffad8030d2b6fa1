-- ===== src/Dns/Resolved.antt =====
-- The addresses that `yo_dns_getaddrinfo` gives are those of the system, each of them once.
use libyaooi.Prelude.{
  ℕ, ◌+◌, ◌≤◌, ◌≡◌, refl, ap, ◌∙◌, true, false, Bool-cases, inl, inr, List, [], ◌∷◌, ◌++◌,
  if◌then◌else◌, arith, ltb, length, length-append, All,
}
use libyaooi.Addr.{Addr, addrcmp}
use libyaooi.Addr.Laws.{IsAddr, addrcmp-eq}
use libyaooi.Sockaddr.{Sockaddr, conv_sockaddr}
use libyaooi.Dns.{
  AddrinfoFlags, Hints, Lookup, found, addresses, seen, store, collect, on_lookup, dns_getaddrinfo,
  hints_of,
}

abbrev hit : Addr → Addr → ℕ
hit a b = if addrcmp a b then 1 else 0

-- How often an address is in a list.
abbrev pub times : Addr → List Addr → ℕ
times a [] = 0
times a (b ∷ bs) = hit a b + times a bs

abbrev pub addresses_of : List Sockaddr → List Addr
addresses_of [] = []
addresses_of (s ∷ list) = (conv_sockaddr s).0 ∷ addresses_of list

times-snoc : (a b : Addr) (bs : List Addr) → times a (bs ++ (b ∷ [])) ≡ times a bs + hit a b
times-snoc a b [] = omega arith
times-snoc a b (c ∷ bs) = omega (arith, times-snoc a b bs)

seen-times : (a : Addr) (bs : List Addr) → seen a bs ≡ ltb 0 (times a bs)
unfolding seen
seen-times a [] = refl
seen-times a (b ∷ bs) = elim (Bool-cases (addrcmp a b)) [
  | inl e ↦ rw e (ground arith)
  | inr e ↦ rw e (seen-times a bs ∙ ground arith)
]

hit-eq :
    (a b : Addr) (bs : List Addr)
    → IsAddr a
    → IsAddr b
    → addrcmp a b ≡ true
    → times a bs ≡ times b bs
hit-eq a b bs ha hb e = ap (λ c. times c bs) ((addrcmp-eq a b ha hb).0 e)

-- Once where it is in one of two lists.
abbrev pub once : ℕ → ℕ
once n = if ltb 0 n then 1 else 0

seen→times : (b : Addr) (res : List Addr) → seen b res ≡ true → 1 ≤ times b res
seen→times b res e = let k = seen-times b res in ground arith

unseen→times : (b : Addr) (res : List Addr) → seen b res ≡ false → times b res ≡ 0
unseen→times b res e = let k = seen-times b res in ground arith

absorbed :
    (res : List Addr) (list : List Sockaddr) (a b : Addr)
    → IsAddr a
    → IsAddr b
    → 1 ≤ times b res
    → once (times a res + times a (addresses_of list))
      ≡ once (times a res + (hit a b + times a (addresses_of list)))
absorbed res list a b ha hb n = elim (Bool-cases (addrcmp a b)) [
  | inl e ↦ let k = hit-eq a b res ha hb e in rw e (ground arith)
  | inr e ↦ rw e (ground arith)
]

at_most_once :
    (res : List Addr) (b : Addr)
    → IsAddr b
    → times b res ≡ 0
    → ((a : Addr) → IsAddr a → times a res ≤ 1)
    → (a : Addr) → IsAddr a
    → times a (res ++ (b ∷ [])) ≤ 1
at_most_once res b hb n h a ha = elim (Bool-cases (addrcmp a b)) [
  | inl e ↦ let k = hit-eq a b res ha hb e in let m = times-snoc a b res in ground arith
  | inr e ↦ let k = h a ha in let m = times-snoc a b res in ground arith
]

times-store :
    (res : List Addr) (list : List Sockaddr)
    → All IsAddr (addresses_of list)
    → ((a : Addr) → IsAddr a → times a res ≤ 1)
    → (a : Addr) → IsAddr a
    → times a (store res list) ≡ once (times a res + times a (addresses_of list))
unfolding store
times-store res [] hs h a ha = let k = h a ha in ground arith
times-store res (s ∷ list) (hb, hs) h a ha =
    let b = (conv_sockaddr s).0 in
    elim (Bool-cases (seen b res)) [
      | inl e ↦
          rw e (times-store res list hs h a ha ∙ absorbed res list a b ha hb (seen→times b res e))
      | inr e ↦ rw e (
          times-store (res ++ (b ∷ [])) list hs (at_most_once res b hb (unseen→times b res e) h) a
            ha
          ∙ (let m = times-snoc a b res in rw m (ground arith)))
    ]

length-store :
    (res : List Addr) (list : List Sockaddr) → length (store res list) ≤ length res + length list
unfolding store
length-store res [] = omega arith
length-store res (s ∷ list) =
    let b = (conv_sockaddr s).0 in
    elim (Bool-cases (seen b res)) [
      | inl e ↦ rw e (omega (arith, length-store res list))
      | inr e ↦
          rw e (omega (arith, length-store (res ++ (b ∷ [])) list, length-append res (b ∷ [])))
    ]

-- Where the system finds addresses and there is memory, `yo_dns_getaddrinfo` gives no more addresses than it has
-- room for, and each address that the system found is among them exactly once, and no other.
pub dns_getaddrinfo-times :
    (getaddrinfo : Hints → Lookup) (flags : AddrinfoFlags) (list : List Sockaddr)
    → getaddrinfo (hints_of flags) ≡ found list
    → All IsAddr (addresses_of list)
    → (a : Addr) → IsAddr a
    → (given : List Addr) × (dns_getaddrinfo getaddrinfo true flags ≡ addresses given)
      × (length given ≤ length list)
      × (times a given ≡ once (times a (addresses_of list)))
unfolding dns_getaddrinfo on_lookup collect
dns_getaddrinfo-times getaddrinfo flags list e hs a ha = (
  store [] list,
  rw e refl,
  omega (arith, length-store [] list),
  times-store [] list hs (λ c hc. omega arith) a ha ∙ ground arith,
)
