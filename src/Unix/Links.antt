-- ===== src/Unix/Links.antt =====
-- The target of a link, `yo_file_readlink` of src/unix/impl.c, and the block that it is written to. What lstat, malloc and
-- readlink answer are arguments: a size, a block of the length that is asked for, and the target, of which readlink writes
-- as much as it is told that there is room for.
pub mod Bounds
use libyaooi.Prelude.{ℕ, zero, suc, ◌+◌, Option, none, some, List, [], ◌∷◌, length, take}
use libyaooi.Errno.{Code}
use libyaooi.Errno.Os.{Errno}
use libyaooi.Errno.Unix.{conv_errno}
use libyaooi.Socket.{Answer, done, fails}

-- A call returns a code and what it stores through `pres`, or it writes behind the block.
pub data Linked : Type 0 where
  returned : Option Code → Option (List ℕ) → Linked
  overrun : Linked

-- Bytes written at the start of a block, and one at an index, which is none behind the block.
unfoldable pub over : List ℕ → List ℕ → List ℕ
over [] block = block
over (c ∷ cs) [] = []
over (c ∷ cs) (x ∷ block) = c ∷ over cs block

unfoldable pub put : ℕ → ℕ → List ℕ → Option (List ℕ)
put i v [] = none
put zero v (x ∷ block) = some (v ∷ block)
put (suc i) v (x ∷ block) = elim (put i v block) [ none ↦ none | some rest ↦ some (x ∷ rest) ]

-- `res[n] = 0`
abbrev pub terminated : Option (List ℕ) → Linked
terminated none = overrun
terminated (some block) = returned (some Code.ok) (some block)

abbrev pub on_target : Answer (List ℕ) → ℕ → List ℕ → Linked
on_target (fails e) size block = returned (conv_errno e) none
on_target (done target) size block =
    let bytes = take (size + 1) target in terminated (put (length bytes) 0 (over bytes block))

abbrev pub on_block : Option (List ℕ) → ℕ → Answer (List ℕ) → Linked
on_block none size target = returned (some Code.enomem) none
on_block (some block) size target = on_target target size block

unfoldable pub file_readlink : Answer ℕ → (malloc : ℕ → Option (List ℕ)) → Answer (List ℕ) → Linked
file_readlink (fails e) malloc target = returned (conv_errno e) none
file_readlink (done size) malloc target = on_block (malloc (size + 1)) size target
