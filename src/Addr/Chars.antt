-- ===== src/Addr/Chars.antt =====
-- C strings and the tests of <ctype.h> in the C locale, as src/addr.c reads them.
use libyaooi.Prelude.{ℕ, ◌≢◌, Bool, ◌&&◌, ◌||◌, List, [], ◌∷◌, leb}

-- A C string is its bytes; the NUL stands at the end of the list.
abbrev pub Bytes : Type 0
Bytes = List ℕ

-- `*it`
abbrev pub peek : Bytes → ℕ
peek [] = 0
peek (c ∷ s) = c

-- `it++`, which the source makes only where `*it` is not NUL.
abbrev pub next : Bytes → Bytes
next [] = []
next (c ∷ s) = s

unfoldable pub isdigit : ℕ → Bool
isdigit c = leb b'0' c && leb c b'9'

unfoldable pub islower : ℕ → Bool
islower c = leb b'a' c && leb c b'z'

unfoldable pub isupper : ℕ → Bool
isupper c = leb b'A' c && leb c b'Z'

unfoldable pub isxdigit : ℕ → Bool
unfolding isdigit
isxdigit c = isdigit c || (leb b'a' c && leb c b'f' || leb b'A' c && leb c b'F')

-- What a parser returns: false, true with the address that is stored, or undefined behaviour.
pub data Outcome {ℓ} (A : Type ℓ) : Type ℓ where
  rejected : Outcome A
  accepted : A → Outcome A
  fault : Outcome A

abbrev pub NoNul : Bytes → Type 0
NoNul [] = Unit {0}
NoNul (c ∷ s) = (c ≢ 0) × NoNul s
