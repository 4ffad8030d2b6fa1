-- ===== src/Unix/Tty/Restored.antt =====
-- The end of a raw mode is the mode before it.
use libyaooi.Prelude.{
  ℕ, ◌+◌, ◌≡◌, refl, sym, ap, ◌∙◌, Bool, true, false, Bool-cases, inl, inr, Option, none, some,
  List, [], ◌∷◌, ◌==◌, arith, ==→eq,
}
use libyaooi.Errno.{Code}
use libyaooi.Socket.{Answer, done, fails}
use libyaooi.Unix.Tty.{raw_of, Ttys, RawMode, set_mode, tty_raw, tty_rawend}

-- A call of `yo_tty_raw`, with what it is answered.
pub record Call : Type 0 where
  pub isfd : Bool
  pub memory : Bool
  pub get : Answer Unit
  pub set : Answer Unit
  pub fd : ℕ

abbrev pub call : Call → Ttys → Option Code × Option RawMode × Ttys
call c s = tty_raw c.isfd c.memory c.get c.set c.fd s

-- What a program does with the raw mode that it has got, if any, when it is done.
abbrev pub leave : Option RawMode → Ttys → Ttys
leave none s = s
leave (some m) s = (tty_rawend (done tt) m s).1

-- Raw modes within raw modes.
unfoldable pub nested : List Call → Ttys → Ttys
nested [] s = s
nested (c ∷ calls) s = let inner = nested calls (call c s).2 in leave (call c s).1 inner

-- Each terminal is in the mode that it was in, and as many blocks are allocated.
abbrev pub Restored : Ttys → Ttys → Type 0
Restored s q = ((g : ℕ) → q.mode g ≡ s.mode g) × (q.blocks ≡ s.blocks)

-- A call of `yo_tty_raw` that succeeds, and its raw mode.
abbrev pub raw_at : ℕ → Ttys → Ttys
raw_at fd s = record (set_mode fd (raw_of (s.mode fd)) s) { blocks = s.blocks + 1 }

abbrev pub saved : ℕ → Ttys → RawMode
saved fd s = record { fd = fd; previous = s.mode fd }

-- A raw mode that ends is undone, over what else is as it was.
ends :
    (fd : ℕ) (s q : Ttys)
    → Restored (raw_at fd s) q
    → Restored s (tty_rawend (done tt) (saved fd s) q).1
unfolding tty_rawend
ends fd s q (h, b) = (
  λ g. elim (Bool-cases (g == fd)) [
    | inl e ↦ rw e (ap (λ k. s.mode k) (sym (==→eq g fd e)))
    | inr e ↦ rw e (h g ∙ rw e refl)
  ],
  omega (arith, b),
)

-- What a call makes of the terminals, and of what is done until its end.
ended :
    (isfd memory : Bool) (get set : Answer Unit) (fd : ℕ) (s q : Ttys)
    → Restored (tty_raw isfd memory get set fd s).2 q
    → Restored s (leave (tty_raw isfd memory get set fd s).1 q)
unfolding tty_raw
ended false m g t fd s q h = h
ended true false g t fd s q h = h
ended true true (fails e) t fd s q (h, b) = (h, omega (arith, b))
ended true true (done _) (fails e) fd s q (h, b) = (h, omega (arith, b))
ended true true (done _) (done _) fd s q h = ends fd s q h

-- Calls of `yo_tty_raw`, each of which may fail at any of its steps, and after them `yo_tty_rawend` of each raw mode that they
-- made, the last first, each of which succeeds: together they leave every terminal in the mode that it was in, and as many
-- blocks allocated, also where a terminal is made raw twice.
pub nested-Restored : (calls : List Call) (s : Ttys) → Restored s (nested calls s)
unfolding nested
nested-Restored [] s = (λ g. refl, refl)
nested-Restored (c ∷ calls) s =
    ended c.isfd c.memory c.get c.set c.fd s _ (nested-Restored calls (call c s).2)
