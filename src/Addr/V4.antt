-- ===== src/Addr/V4.antt =====
-- `yo_parse_ipv4` of src/addr.c.
pub mod Grammar
pub mod Exact
use libyaooi.Prelude.{
  ℕ, zero, suc, ◌+◌, ◌-◌, ◌*◌, ◌%◌, ◌^◌, Bool, true, false, not, ◌&&◌, Option, none, some, List, [],
  ◌∷◌, ltb, ◌==◌, if◌then◌else◌,
}
use libyaooi.Addr.Chars.{Bytes, peek, next, isdigit, Outcome, rejected, accepted}

-- `part * 10 + *it - '0'` in uint64_t.
abbrev pub push_digit : ℕ → ℕ → ℕ
push_digit part c = (part * 10 + c + 2 ^ 64 - b'0') % 2 ^ 64

-- `while (isdigit(*it))`: the value and what is left, or none for `return false`.
number : ℕ → Bytes → Option (ℕ × Bytes)
number part [] = some (part, [])
number part (c ∷ it) =
    let rest = number (push_digit part c) it in
    if isdigit c then (if ltb 100 part then none else rest) else some (part, c ∷ it)

-- `if (*it == '\0' && i != 3) return false;`
ends : ℕ → Bytes → Option Bytes
ends i it = if (peek it == 0) && not (i == 3) then none else some it

-- The tests on the byte behind part `i`.
separator : ℕ → Bytes → Option Bytes
unfolding ends
separator i it = if peek it == b'.' then (if i == 3 then none else ends i (next it)) else ends i it

-- One round of `for (int i = 0; i < 4; i++)`.
octet : ℕ → Bytes → Option (ℕ × Bytes)
unfolding number separator
octet i it = if not (isdigit (peek it)) then none else elim (number 0 it) [
  | none ↦ none
  | some (part, it) ↦
      if ltb 255 part
      then none
      else elim (separator i it) [ none ↦ none | some it ↦ some (part, it) ]
]

-- The loop, with `k` rounds left.
octets : ℕ → ℕ → Bytes → Option (List ℕ × Bytes)
octets zero i it = some ([], it)
octets (suc k) i it = elim (octet i it) [
  | none ↦ none
  | some (part, it) ↦ elim (octets k (i + 1) it) [
    | none ↦ none
    | some (parts, it) ↦ some (part ∷ parts, it)
  ]
]

unfoldable pub parse_ipv4 : Bytes → Outcome (List ℕ)
unfolding octets octet
parse_ipv4 str = elim (octets 4 0 str) [
  | none ↦ rejected
  | some (parts, it) ↦ if peek it == 0 then accepted parts else rejected
]
