-- ===== src/Addr/V6.antt =====
-- `yo_parse_ipv6` of src/addr.c.
pub mod Hex
pub mod Accepted
pub mod Faults
use Prim.Native.Nat.{bit_or}
use libyaooi.Prelude.{
  ℕ, zero, suc, ◌+◌, ◌-◌, ◌*◌, ◌%◌, ◌^◌, Bool, true, false, not, ◌&&◌, Option, none, some, List, [],
  ◌∷◌, ltb, leb, ◌==◌, if◌then◌else◌, get_or, set, replicate,
}
use libyaooi.Prelude.Int.{ℤ, pos, negsuc, eqb_ℤ, ltb_ℤ}
use libyaooi.Addr.Chars.{
  Bytes, peek, next, isdigit, islower, isupper, isxdigit, Outcome, rejected, accepted, fault,
}

-- `res.v6[i] <<= 4` and the three `|=` behind it, in uint16_t.
unfoldable pub push_xdigit : ℕ → ℕ → ℕ
unfolding isdigit islower isupper
push_xdigit word c =
    let w : ℕ = word * 16 % 2 ^ 16 in
    let w1 : ℕ = if isdigit c then bit_or w (c - b'0') else w in
    let w2 : ℕ = if islower c then bit_or w1 (c - b'a' + 10) % 2 ^ 16 else w1 in
    if isupper c then bit_or w2 (c - b'A' + 10) % 2 ^ 16 else w2

-- `for (int j = 0; j < 4; j++)`, with `n` rounds left.
pub xdigits : ℕ → ℕ → Bytes → ℕ × Bytes
xdigits zero word it = (word, it)
xdigits (suc n) word [] = (word, [])
xdigits (suc n) word (c ∷ it) =
    if isxdigit c then xdigits n (push_xdigit word c) it else (word, c ∷ it)

-- The variables of the loop over the groups.
pub record Scan : Type 0 where
  pub v6 : List ℕ
  pub zeroes_i : ℤ
  pub i : ℕ
  pub it : Bytes

-- Whether a round goes on with the next, breaks, or returns false.
pub data Round : Type 0 where
  continue : Scan → Round
  break : Scan → Round
  return_false : Round

-- `if (*it == '\0') break;` and the loop's `i++` otherwise.
round_end : Scan → Round
round_end g = if peek g.it == 0 then break g else continue (record g { i = g.i + 1 })

-- One round of `for (i = 0; i < 8; i++)`.
round : Scan → Round
unfolding round_end
round g =
    if not (isxdigit (peek g.it))
    then return_false
    else let (word, it) = xdigits 4 (get_or g.v6 g.i 0) g.it in
      let g1 : Scan = record g { v6 = set g.v6 g.i word; it = it } in
      if peek it == b':'
      then continue (record g1 { i = g.i + 1; it = next it })
      else if (peek it == b':') && (peek (next it) == b':')
      then (if not (eqb_ℤ g.zeroes_i (negsuc 0))
          then return_false
          else round_end (record g1 { zeroes_i = pos g.i; it = next (next it) }))
      else round_end g1

-- The loop with `k` rounds left; none is `return false`.
rounds : ℕ → Scan → Option Scan
rounds zero g = some g
rounds (suc k) g = elim (round g) [
  | continue g' ↦ rounds k g'
  | break g' ↦ some g'
  | return_false ↦ none
]

-- `n` words of `from`, from index `src` on, are written to `words` from index `dst` on.
copy_words : ℕ → ℕ → ℕ → List ℕ → List ℕ → List ℕ
copy_words zero dst src from words = words
copy_words (suc n) dst src from words =
    copy_words n (dst + 1) (src + 1) from (set words dst (get_or from src 0))

-- The `memmove` to `res.v6 + (16 - trailing_n)`: none if it leaves the eight words.
shift_groups : Scan → Option (List ℕ)
unfolding copy_words
shift_groups g = elim g.zeroes_i [
  | pos (suc z) ↦
      let trailing_n : ℕ = g.i - suc z in
      if leb (16 - trailing_n + trailing_n) 8
      then some (copy_words trailing_n (16 - trailing_n) (suc z) g.v6 g.v6)
      else none
  | _ ↦ some g.v6
]

-- What stands behind the loop.
finish : Option Scan → Outcome (List ℕ)
finish none = rejected
finish (some g) =
    if peek g.it == 0
    then elim (shift_groups g) [ none ↦ fault | some words ↦ accepted words ]
    else rejected

abbrev pub start : ℤ → Bytes → Scan
start zeroes_i it = record { v6 = replicate 8 0; zeroes_i = zeroes_i; i = 0; it = it }

unfoldable pub parse_ipv6 : Bool → Bytes → Outcome (List ℕ)
unfolding rounds round xdigits push_xdigit isxdigit finish shift_groups
parse_ipv6 pres str =
    if (peek str == b':') && (peek (next str) == b':')
    then (let it : Bytes = next (next str) in
        if peek it == 0
        then (if pres then accepted (replicate 8 0) else fault)
        else finish (rounds 8 (start (pos 0) it)))
    else finish (rounds 8 (start (negsuc 0) str))
