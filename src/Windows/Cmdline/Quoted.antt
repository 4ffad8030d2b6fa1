-- ===== src/Windows/Cmdline/Quoted.antt =====
-- A Windows program reads the arguments back that the command line was made of.
use mathlib.Core.List.{append-nil, append_assoc}
use native.Mathlib.Numerals.{add-one}
use libyaooi.Prelude.{
  ℕ, suc, zero, ◌+◌, ◌*◌, ◌/◌, ◌%◌, ◌≡◌, ◌≢◌, refl, sym, ap, ◌∙◌, true, false, Option, none, some,
  List, [], ◌∷◌, ◌++◌, ◌==◌, arith, Bool-cases, inl, inr, ==→eq, All,
}
use libyaooi.Windows.Cmdline.{
  Text, backslash, quote, space, backslashes, doubled, emitted, next_back_n, escaped, quoted,
  escaped_line, argv_to_cmdline,
}
use libyaooi.Windows.Cmdline.Reader.{
  NotQuote, EndsPlain, IsProgram, split_quote, program_arguments, between, within, at_unit,
  arguments,
}

abbrev pub IsText : Text → Type 0
IsText t = All (λ c. c ≢ 0) t

-- A step over a unit inside a quoted part.
arguments-inside :
    (held c : ℕ) (arg rest : Text)
    → c ≢ 0
    → arguments (within true held arg) (c ∷ rest)
      ≡ arguments (at_unit (within true held arg) c) rest
unfolding arguments
arguments-inside held c arg rest ne =
    let nz : (c == 0) ≡ false = ground arith in
    rw nz (elim (Bool-cases (c == space)) [ inl e ↦ rw e refl | inr e ↦ rw e refl ])

backslashes_shift :
    (n : ℕ) (cs : Text) → backslashes (suc n) ++ cs ≡ backslashes n ++ (backslash ∷ cs)
unfolding backslashes
backslashes_shift zero cs = refl
backslashes_shift (suc n) cs = ap (λ r. backslash ∷ r) (backslashes_shift n cs)

backslashes-snoc :
    (n : ℕ) (cs : Text) → backslashes (n + 1) ++ cs ≡ backslashes n ++ (backslash ∷ cs)
backslashes-snoc n cs = rw (add-one n) (backslashes_shift n cs)

arguments-backslashes :
    (n held : ℕ) (arg rest : Text)
    → arguments (within true held arg) (backslashes n ++ rest)
      ≡ arguments (within true (held + n) arg) rest
unfolding backslashes
arguments-backslashes zero held arg rest =
    ap (λ h. arguments (within true h arg) rest) (omega arith)
arguments-backslashes (suc n) held arg rest =
    arguments-inside held backslash arg (backslashes n ++ rest) (ground arith)
    ∙ (arguments-backslashes n (held + 1) arg rest
        ∙ ap (λ h. arguments (within true h arg) rest) (omega arith))

two : (n : ℕ) → suc n * 2 ≡ suc (suc (n * 2))
two n = omega arith

doubled-backslashes : (n : ℕ) → doubled n ≡ backslashes (n * 2)
unfolding doubled backslashes
doubled-backslashes zero = refl
doubled-backslashes (suc n) =
    rw (two n, backslashes) (ap (λ r. backslash ∷ backslash ∷ r) (doubled-backslashes n))

-- The quotation mark behind an even and behind an odd number of backslashes.
arguments_close :
    (n : ℕ) (arg rest : Text)
    → arguments (within true (n * 2) arg) (quote ∷ rest)
      ≡ arguments (within false 0 (arg ++ backslashes n)) rest
arguments_close n arg rest =
    let even : (n * 2 % 2 == 0) ≡ true = ground arith in
    let half : n * 2 / 2 ≡ n = omega arith in
    arguments-inside (n * 2) quote arg rest (ground arith) ∙ rw (even, half) refl

arguments_mark :
    (n : ℕ) (arg rest : Text)
    → arguments (within true (n * 2 + 1) arg) (quote ∷ rest)
      ≡ arguments (within true 0 (arg ++ (backslashes n ++ (quote ∷ [])))) rest
arguments_mark n arg rest =
    let odd : ((n * 2 + 1) % 2 == 0) ≡ false = ground arith in
    let half : (n * 2 + 1) / 2 ≡ n = omega arith in
    arguments-inside (n * 2 + 1) quote arg rest (ground arith) ∙ rw (odd, half) refl

arguments_from :
    (n : ℕ) (arg rest : Text)
    → arguments (within true 0 arg) (backslashes n ++ rest) ≡ arguments (within true n arg) rest
arguments_from n arg rest =
    arguments-backslashes n 0 arg rest ∙ ap (λ h. arguments (within true h arg) rest) (omega arith)

-- What the loop writes, by the next unit.
escaped_end : (n : ℕ) → escaped n [] ≡ backslashes (n * 2)
unfolding escaped
escaped_end n = doubled-backslashes n

escaped_hold : (n : ℕ) (cs : Text) → escaped n (backslash ∷ cs) ≡ escaped (n + 1) cs
unfolding escaped emitted next_back_n
escaped_hold n cs = refl

escaped_mark :
    (n : ℕ) (cs : Text) → escaped n (quote ∷ cs) ≡ backslashes (n * 2 + 1) ++ (quote ∷ escaped 0 cs)
unfolding escaped emitted next_back_n
escaped_mark n cs =
    append_assoc (doubled n) (backslash ∷ quote ∷ []) (escaped 0 cs)
    ∙ rw (doubled-backslashes n) (sym (backslashes-snoc (n * 2) (quote ∷ escaped 0 cs)))

escaped_other :
    (n c : ℕ) (cs : Text)
    → (c == backslash) ≡ false
    → (c == quote) ≡ false
    → escaped n (c ∷ cs) ≡ backslashes n ++ (c ∷ escaped 0 cs)
unfolding escaped emitted next_back_n
escaped_other n c cs ne1 ne2 = rw (ne1, ne2) (append_assoc (backslashes n) (c ∷ []) (escaped 0 cs))

-- The units read so far, with one more and the rest of the argument.
rejoin :
    (arg bs cs rest : Text) (c : ℕ)
    → arguments (within false 0 ((arg ++ (bs ++ (c ∷ []))) ++ (backslashes 0 ++ cs))) rest
      ≡ arguments (within false 0 (arg ++ (bs ++ (c ∷ cs)))) rest
unfolding backslashes
rejoin arg bs cs rest c = simp append_assoc

read_other :
    (n c : ℕ) (arg rest : Text)
    → c ≢ 0
    → (c == backslash) ≡ false
    → (c == quote) ≡ false
    → arguments (within true n arg) (c ∷ rest)
      ≡ arguments (within true 0 (arg ++ (backslashes n ++ (c ∷ [])))) rest
read_other n c arg rest ne ne1 ne2 = arguments-inside n c arg rest ne ∙ rw (ne1, ne2) refl

-- The loop over an argument, with `n` backslashes that it holds back.
arguments-escaped :
    (n : ℕ) (warg arg rest : Text)
    → IsText warg
    → arguments (within true 0 arg) (escaped n warg ++ (quote ∷ rest))
      ≡ arguments (within false 0 (arg ++ (backslashes n ++ warg))) rest
arguments-escaped n [] arg rest t =
    rw (append-nil, escaped_end n)
      (arguments_from (n * 2) arg (quote ∷ rest) ∙ arguments_close n arg rest)
arguments-escaped n (c ∷ cs) arg rest (ne, t) = elim (Bool-cases (c == backslash)) [
  | inl b ↦
      rw (==→eq c backslash b, escaped_hold n cs)
        (arguments-escaped (n + 1) cs arg rest t ∙ rw (backslashes-snoc n cs) refl)
  | inr ne1 ↦ elim (Bool-cases (c == quote)) [
    | inl q ↦
        rw (==→eq c quote q, escaped_mark n cs, append_assoc)
          (arguments_from (n * 2 + 1) arg (quote ∷ (escaped 0 cs ++ (quote ∷ rest)))
            ∙ arguments_mark n arg (escaped 0 cs ++ (quote ∷ rest))
            ∙ arguments-escaped 0 cs (arg ++ (backslashes n ++ (quote ∷ []))) rest t
            ∙ rejoin arg (backslashes n) cs rest quote)
    | inr ne2 ↦
        rw (escaped_other n c cs ne1 ne2, append_assoc)
          (arguments_from n arg (c ∷ (escaped 0 cs ++ (quote ∷ rest)))
            ∙ read_other n c arg (escaped 0 cs ++ (quote ∷ rest)) ne ne1 ne2
            ∙ arguments-escaped 0 cs (arg ++ (backslashes n ++ (c ∷ []))) rest t
            ∙ rejoin arg (backslashes n) cs rest c)
  ]
]

-- The command line of the converted arguments.
line : List Text → Text
line [] = []
line (warg ∷ []) = quoted warg ++ (0 ∷ [])
line (warg ∷ w2 ∷ wargs) = quoted warg ++ (space ∷ line (w2 ∷ wargs))

-- What `conv` makes of every argument.
abbrev pub Converted : (Text → Option Text) → List Text → List Text → Type 0
Converted conv [] [] = Unit
Converted conv (arg ∷ args) (warg ∷ wargs) = (conv arg ≡ some warg) × Converted conv args wargs
Converted conv _ _ = ⊥

escaped_line-line :
    (conv : Text → Option Text) (args wargs : List Text)
    → Converted conv args wargs
    → escaped_line conv args ≡ some (line wargs)
unfolding escaped_line line
escaped_line-line conv [] [] c = refl
escaped_line-line conv (arg ∷ []) (warg ∷ []) (e, c) = rw (e, escaped_line) refl
escaped_line-line conv (arg ∷ a2 ∷ args) (warg ∷ w2 ∷ wargs) (e, c) =
    rw (e, escaped_line)
      (ap (λ o. elim o [ none ↦ none | some rest ↦ some (quoted warg ++ (space ∷ rest)) ])
        (escaped_line-line conv (a2 ∷ args) (w2 ∷ wargs) c))
escaped_line-line conv [] (w ∷ ws) c = absurd c
escaped_line-line conv (a ∷ rest) [] c = absurd c
escaped_line-line conv (a ∷ []) (w ∷ w2 ∷ ws) (e, c) = absurd c
escaped_line-line conv (a ∷ a2 ∷ rest) (w ∷ []) (e, c) = absurd c

arguments-quoted :
    (warg rest : Text)
    → IsText warg
    → arguments between (quoted warg ++ rest) ≡ arguments (within false 0 warg) rest
unfolding arguments backslashes
arguments-quoted warg rest t = rw append_assoc (arguments-escaped 0 warg [] rest t)

arguments-line : (wargs : List Text) → All IsText wargs → arguments between (line wargs) ≡ wargs
unfolding line arguments backslashes
arguments-line [] t = refl
arguments-line (warg ∷ []) (t, _) = arguments-quoted warg (0 ∷ []) t ∙ rw append-nil refl
arguments-line (warg ∷ w2 ∷ wargs) (t, ts) =
    arguments-quoted warg (space ∷ line (w2 ∷ wargs)) t
    ∙ rw append-nil (ap (λ r. warg ∷ r) (arguments-line (w2 ∷ wargs) ts))

escaped_nothing : escaped 0 [] ≡ []
unfolding escaped doubled
escaped_nothing = refl

-- A name that stands between quotation marks as it is.
name_escaped :
    (n c : ℕ) (cs : Text)
    → All NotQuote (c ∷ cs)
    → EndsPlain (c ∷ cs)
    → escaped n (c ∷ cs) ≡ backslashes n ++ (c ∷ cs)
unfolding backslashes
name_escaped n c [] (q, _) e =
    let ne1 : (c == backslash) ≡ false = ground arith in
    let ne2 : (c == quote) ≡ false = ground arith in
    escaped_other n c [] ne1 ne2 ∙ ap (λ t. backslashes n ++ (c ∷ t)) escaped_nothing
name_escaped n c (d ∷ cs) (q, qs) e = elim (Bool-cases (c == backslash)) [
  | inl b ↦
      rw (==→eq c backslash b)
        (escaped_hold n (d ∷ cs) ∙ name_escaped (n + 1) d cs qs e ∙ backslashes-snoc n (d ∷ cs))
  | inr ne1 ↦
      let ne2 : (c == quote) ≡ false = ground arith in
      escaped_other n c (d ∷ cs) ne1 ne2
      ∙ ap (λ t. backslashes n ++ (c ∷ t)) (name_escaped 0 d cs qs e)
]

escaped_name : (t : Text) → IsProgram t → escaped 0 t ≡ t
unfolding backslashes
escaped_name [] (q, e) = escaped_nothing
escaped_name (c ∷ cs) (q, e) = name_escaped 0 c cs q e

split_quote-append :
    (t rest : Text) → All NotQuote t → split_quote (t ++ (quote ∷ rest)) ≡ (t, rest)
unfolding split_quote
split_quote-append [] rest q = refl
split_quote-append (c ∷ cs) rest (n, q) =
    let e : (c == quote) ≡ false = ground arith in
    rw e (ap (λ r. (c ∷ r.0, r.1)) (split_quote-append cs rest q))

program_arguments-quoted :
    (t rest : Text)
    → IsProgram t
    → program_arguments (quoted t ++ rest) ≡ t ∷ arguments between rest
unfolding program_arguments
program_arguments-quoted t rest p =
    ap (λ r. r.0 ∷ arguments between r.1)
      (ap (λ u. split_quote u) (append_assoc (escaped 0 t) (quote ∷ []) rest)
        ∙ ap (λ u. split_quote (u ++ (quote ∷ rest))) (escaped_name t p)
        ∙ split_quote-append t rest p.0)

program_arguments-line :
    (name : Text) (wargs : List Text)
    → IsProgram name
    → All IsText wargs
    → program_arguments (line (name ∷ wargs)) ≡ name ∷ wargs
unfolding line arguments
program_arguments-line name [] p t = program_arguments-quoted name (0 ∷ []) p
program_arguments-line name (w ∷ wargs) p t =
    program_arguments-quoted name (space ∷ line (w ∷ wargs)) p
    ∙ ap (λ r. name ∷ r) (arguments-line (w ∷ wargs) t)

-- With any flags but 0, which is YO_SPAWN_NOESCAPE, the command line of a program and its arguments that can be converted is read as
-- just these: the name by the rule for the first argument, where it has no quotation mark and does not end in a backslash, and
-- the others by the rules for the rest, empty ones and those with spaces, quotation marks and backslashes included.
pub program_arguments-argv_to_cmdline :
    (conv : Text → Option Text) (flags : ℕ) (args : List Text) (name : Text) (wargs : List Text)
    → flags ≢ 0
    → Converted conv args (name ∷ wargs)
    → IsProgram name
    → All IsText wargs
    → (written : Text) × (argv_to_cmdline conv flags args ≡ some written)
      × (program_arguments written ≡ name ∷ wargs)
unfolding argv_to_cmdline
program_arguments-argv_to_cmdline conv flags args name wargs escaping c p t =
    let e : (flags == 0) ≡ false = ground arith in
    (
      line (name ∷ wargs),
      rw e (escaped_line-line conv args (name ∷ wargs) c),
      program_arguments-line name wargs p t,
    )
