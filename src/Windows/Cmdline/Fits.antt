-- ===== src/Windows/Cmdline/Fits.antt =====
-- Both loops stay within the buffers that they were given.
use libyaooi.Prelude.{
  ℕ, suc, zero, ◌+◌, ◌*◌, ◌≤◌, ◌≡◌, refl, ap, Option, none, some, List, [], ◌∷◌, ◌++◌, ◌==◌, arith,
  Bool-cases, Option-cases, inl, inr, length, length-append,
}
use libyaooi.Windows.Cmdline.{
  Text, backslash, quote, space, backslashes, doubled, emitted, next_back_n, escaped, quoted,
  escaped_line, cmdline_room, raw_text, argv_to_cmdline_raw, raw_room,
}

length-backslashes : (n : ℕ) → length (backslashes n) ≡ n
unfolding backslashes
length-backslashes zero = refl
length-backslashes (suc n) = ap suc (length-backslashes n)

length-doubled : (n : ℕ) → length (doubled n) ≡ n + n
unfolding doubled
length-doubled zero = refl
length-doubled (suc n) = omega (arith, length-doubled n)

length-emitted : (n c : ℕ) → length (emitted n c) + (next_back_n n c + next_back_n n c) ≤ n + n + 2
unfolding emitted next_back_n
length-emitted n c = elim (Bool-cases (c == backslash)) [
  | inl e ↦ rw e (omega arith)
  | inr e ↦ rw e (elim (Bool-cases (c == quote)) [
    | inl f ↦
        rw (f, length-append (doubled n) (backslash ∷ quote ∷ []), length-doubled n) (omega arith)
    | inr f ↦ rw (f, length-append (backslashes n) (c ∷ []), length-backslashes n) (omega arith)
  ])
]

length-escaped : (n : ℕ) (w : Text) → length (escaped n w) ≤ n + n + length w * 2
unfolding escaped
length-escaped n [] = rw (length-doubled n) (omega arith)
length-escaped n (c ∷ cs) =
    rw (length-append (emitted n c) (escaped (next_back_n n c) cs))
      (omega (arith, length-emitted n c, length-escaped (next_back_n n c) cs))

length-quoted : (w r : Text) → length (quoted w ++ r) ≤ 2 + length w * 2 + length r
length-quoted w r =
    rw (length-append (escaped 0 w ++ (quote ∷ [])) r, length-append (escaped 0 w) (quote ∷ []))
      (omega (arith, length-escaped 0 w))

-- A text that fits in a number of units, where there is one.
abbrev pub Fits : Option Text → ℕ → Type 0
Fits o room = (t : Text) → o ≡ some t → length t ≤ room

some-Fits : (t : Text) (room : ℕ) → length t ≤ room → Fits (some t) room
some-Fits t room le u e = rw (← some_inj t u e) le
  where
    some_inj : (a b : Text) → some a ≡ some b → a ≡ b
    some_inj a b e = cc

none-Fits : (room : ℕ) → Fits none room
none-Fits room u e = absurd (none_ne u e)
  where
    none_ne : (b : Text) → none ≡ some b → ⊥
    none_ne b e = cc

module _ (conv : Text → Option Text) (shorter : (t : Text) → Fits (conv t) (length t)) where
  cmdline-Fits : (args : List Text) → Fits (escaped_line conv args) (cmdline_room args)
  unfolding escaped_line cmdline_room
  cmdline-Fits [] = some-Fits [] 0 (omega arith)
  cmdline-Fits (arg ∷ args) = elim (Option-cases (conv arg)) [
    | inl e ↦ rw (e, escaped_line) (none-Fits _)
    | inr (warg, e) ↦
        rw (e, escaped_line)
          (behind arg args warg (escaped_line conv args) (shorter arg warg e) (cmdline-Fits args))
  ]
    where
      behind :
          (arg : Text) (args : List Text) (warg : Text) (o : Option Text)
          → length warg ≤ length arg
          → Fits o (cmdline_room args)
          → Fits
              (elim o [
                | none ↦ none
                | some rest ↦ elim args [
                  | [] ↦ some (quoted warg ++ (0 ∷ []))
                  | _ ∷ _ ↦ some (quoted warg ++ (space ∷ rest))
                ]
              ])
              (1 + length arg * 2 + 1 + 1 + cmdline_room args)
      behind arg args warg none le f = none-Fits _
      behind arg [] warg (some rest) le f =
          some-Fits _ _ (omega (arith, length-quoted warg (0 ∷ [])))
      behind arg (a2 ∷ args) warg (some rest) le f =
          some-Fits _ _ (omega (arith, length-quoted warg (space ∷ rest), f rest refl))

  raw_text-Fits :
      (arg : Text) (args : List Text)
      → Fits (raw_text conv (arg ∷ args)) (length arg + raw_room args)
  unfolding raw_text raw_room
  raw_text-Fits arg [] = elim (Option-cases (conv arg)) [
    | inl e ↦ rw (e, raw_text) (none-Fits _)
    | inr (warg, e) ↦ rw (e, raw_text) (some-Fits warg _ (omega (arith, shorter arg warg e)))
  ]
  raw_text-Fits arg (a2 ∷ args) = elim (Option-cases (conv arg)) [
    | inl e ↦ rw (e, raw_text) (none-Fits _)
    | inr (warg, e) ↦
        rw (e, raw_text)
          (with_rest warg (raw_text conv (a2 ∷ args)) (shorter arg warg e) (raw_text-Fits a2 args))
  ]
    where
      with_rest :
          (warg : Text) (o : Option Text)
          → length warg ≤ length arg
          → Fits o (length a2 + raw_room args)
          → Fits
              (elim o [ none ↦ none | some rest ↦ some (warg ++ (space ∷ rest)) ])
              (length arg + (length a2 + 1 + raw_room args))
      with_rest warg none le f = none-Fits _
      with_rest warg (some rest) le f =
          some-Fits _ _ (rw (length-append warg (space ∷ rest)) (omega (arith, f rest refl)))

  -- If no text grows when it is converted, what is written for any arguments fits in the buffer, and so does the raw
  -- form with its NUL, if there is an argument.
  pub argv_to_cmdline-Fits :
      (arg : Text) (args : List Text)
      → Fits (escaped_line conv args) (cmdline_room args)
        × Fits (argv_to_cmdline_raw conv (arg ∷ args)) (raw_room (arg ∷ args))
  unfolding argv_to_cmdline_raw raw_room
  argv_to_cmdline-Fits arg args =
      (cmdline-Fits args, ended (raw_text conv (arg ∷ args)) (raw_text-Fits arg args))
    where
      ended :
          (o : Option Text)
          → Fits o (length arg + raw_room args)
          → Fits
              (elim o [ none ↦ none | some line ↦ some (line ++ (0 ∷ [])) ])
              (length arg + 1 + raw_room args)
      ended none f = none-Fits _
      ended (some line) f =
          some-Fits _ _ (rw (length-append line (0 ∷ [])) (omega (arith, f line refl)))
