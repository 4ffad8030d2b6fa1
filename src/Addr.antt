-- ===== src/Addr.antt =====
-- The addresses of inc/yaooi/addr.h and the parsers and the comparison of src/addr.c.
pub mod Chars
pub mod V4
pub mod V6
pub mod Laws
mod Tests
use libyaooi.Prelude.{ℕ, Bool, true, false, ◌&&◌, List, [], ◌∷◌, ◌==◌, if◌then◌else◌}
use libyaooi.Addr.Chars.{Bytes, Outcome, rejected, accepted, fault}
use libyaooi.Addr.V4.{parse_ipv4}
use libyaooi.Addr.V6.{parse_ipv6}

-- `yo_addr_t`: the tag and the union. The arrays have four bytes and eight uint16_t words.
pub data Addr : Type 0 where
  v4 : List ℕ → Addr
  v6 : List ℕ → Addr

-- `yo_addrparse`. `pres` says whether the result pointer is not NULL; what `accepted` holds is
-- stored through it.
unfoldable pub addrparse : Bool → Bytes → Outcome Addr
addrparse pres str = elim (parse_ipv4 str) [
  | accepted parts ↦ accepted (v4 parts)
  | fault ↦ fault
  | rejected ↦ elim (parse_ipv6 pres str) [
    | accepted words ↦ accepted (v6 words)
    | fault ↦ fault
    | rejected ↦ rejected
  ]
]

-- `!memcmp(a, b, n)`
unfoldable pub memcmp : List ℕ → List ℕ → Bool
memcmp [] ys = true
memcmp (x ∷ xs) [] = true
memcmp (x ∷ xs) (y ∷ ys) = (x == y) && memcmp xs ys

unfoldable pub addrcmp : Addr → Addr → Bool
unfolding memcmp
addrcmp (v4 a) (v4 b) = memcmp a b
addrcmp (v6 a) (v6 b) = memcmp a b
addrcmp _ _ = false
