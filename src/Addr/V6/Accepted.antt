-- ===== src/Addr/V6/Accepted.antt =====
-- What `parse_ipv6` makes of groups joined by colons.
use mathlib.Core.List.{append-nil, append_assoc}
use libyaooi.Prelude.{
  ℕ, zero, suc, ◌+◌, ◌-◌, ◌≤◌, ◌≡◌, refl, ap, ◌∙◌, Bool, true, false, ◌⊎◌, inl, inr, List, [], ◌∷◌,
  ◌++◌, some, arith, length, length-append, get_or-append, set-append, replicate, ◌==◌,
}
use libyaooi.Prelude.Int.{ℤ, pos, negsuc}
use libyaooi.Addr.Chars.{Bytes, peek, isxdigit, rejected, accepted}
use libyaooi.Addr.V6.{
  Scan, continue, break, round, round_end, rounds, shift_groups, finish, parse_ipv6, xdigits,
}
use libyaooi.Addr.V6.Hex.{Group, Group-peek, xdigits-Group, nul_no_digit, colon_no_digit}

-- Groups joined by single colons, with the words that they spell.
pub data Joined : Bytes → List ℕ → Type 0 where
  last : {s : Bytes} {w : ℕ} → Group s w → Joined s (w ∷ [])
  more :
      {s t : Bytes} {w : ℕ} {ws : List ℕ}
      → Group s w
      → Joined t ws
      → Joined (s ++ b':' ∷ t) (w ∷ ws)

-- No second "::" has been seen: the value before the loop is kept.
IsStart : ℤ → Type 0
IsStart z = (z ≡ negsuc 0) ⊎ (z ≡ pos 0)

-- The loop's variables with the words `done` read and `k` rounds left.
abbrev scan : ℤ → List ℕ → ℕ → Bytes → Scan
scan z done k it = record { v6 = done ++ replicate k 0; zeroes_i = z; i = length done; it = it }

round-last :
    (z : ℤ) (done : List ℕ) (k : ℕ) (s : Bytes) {w : ℕ}
    → Group s w
    → round (scan z done (suc k) s)
      ≡ break (record { v6 = done ++ w ∷ replicate k 0; zeroes_i = z; i = length done; it = [] })
unfolding round round_end
round-last z done k s {w} g =
    let e : xdigits 4 0 s ≡ (w, []) = rw append-nil at (xdigits-Group s [] g nul_no_digit) in
    let p : isxdigit (peek s) ≡ true = rw append-nil at (Group-peek s [] g) in
    rw (p, get_or-append done (replicate k 0) 0 0, e, set-append done (replicate k 0) 0 w)

round-more :
    (z : ℤ) (done : List ℕ) (k : ℕ) (s t : Bytes) {w : ℕ}
    → Group s w
    → round (scan z done (suc k) (s ++ b':' ∷ t))
      ≡ continue
          (record { v6 = done ++ w ∷ replicate k 0; zeroes_i = z; i = length done + 1; it = t })
unfolding round
round-more z done k s t {w} g = rw (
  Group-peek s (b':' ∷ t) g,
  get_or-append done (replicate k 0) 0 0,
  xdigits-Group s (b':' ∷ t) g colon_no_digit,
  set-append done (replicate k 0) 0 w,
)

scan-snoc :
    (z : ℤ) (done : List ℕ) (w k : ℕ) (t : Bytes)
    → record { v6 = done ++ w ∷ replicate k 0; zeroes_i = z; i = length done + 1; it = t }
      ≡ scan z (done ++ w ∷ []) k t
scan-snoc z done w k t = rw (append_assoc, length-append)

finish-accepted :
    (z : ℤ) (words : List ℕ) (i : ℕ)
    → IsStart z
    → finish (some (record { v6 = words; zeroes_i = z; i = i; it = [] })) ≡ accepted words
unfolding finish shift_groups IsStart
finish-accepted z words i (inl e) = rw e
finish-accepted z words i (inr e) = rw e

Joined-peek : {s : Bytes} {ws : List ℕ} (r : Bytes) → Joined s ws → isxdigit (peek (s ++ r)) ≡ true
Joined-peek r (last {s} g) = Group-peek s r g
Joined-peek r (more {s} {t} g j) = rw append_assoc (Group-peek s (b':' ∷ (t ++ r)) g)

digit_no_colon : (c : ℕ) → isxdigit c ≡ true → (c == b':') ≡ false
unfolding isxdigit
digit_no_colon c h = ground arith

digit_no_nul : (c : ℕ) → isxdigit c ≡ true → (c == 0) ≡ false
unfolding isxdigit
digit_no_nul c h = ground arith

rounds-Joined :
    (z : ℤ) (done : List ℕ) (k : ℕ) {s : Bytes} {ws : List ℕ}
    → IsStart z
    → Joined s ws
    → length ws ≤ k
    → finish (rounds k (scan z done k s)) ≡ accepted (done ++ (ws ++ replicate (k - length ws) 0))
unfolding rounds
rounds-Joined z done zero start (last g) l = absurd (omega arith)
rounds-Joined z done zero start (more g j) l = absurd (omega arith)
rounds-Joined z done (suc k) start (last {s} {w} g) l =
    let e : suc k - 1 ≡ k = omega arith in
    rw (rounds, round-last z done k s g, e)
      (finish-accepted z (done ++ w ∷ replicate k 0) (length done) start)
rounds-Joined z done (suc k) start (more {s} {t} {w} {ws} g j) l =
    let e : suc k - suc (length ws) ≡ k - length ws = omega arith in
    rw (rounds, round-more z done k s t g, scan-snoc z done w k t, e)
      (rounds-Joined z (done ++ w ∷ []) k start j (omega arith)
        ∙ ap accepted (append_assoc done (w ∷ []) _))

rounds-colon :
    (z : ℤ) (done : List ℕ) (k : ℕ) (t : Bytes)
    → finish (rounds k (scan z done k (b':' ∷ t))) ≡ rejected
unfolding finish rounds round isxdigit
rounds-colon z done zero t = refl
rounds-colon z done (suc k) t = refl

-- A second colon behind a group stops the parser.
rounds-colons :
    (z : ℤ) (done : List ℕ) (k : ℕ) {s : Bytes} {ws : List ℕ} (t : Bytes)
    → Joined s ws
    → length ws ≤ k
    → finish (rounds k (scan z done k (s ++ b':' ∷ b':' ∷ t))) ≡ rejected
unfolding rounds
rounds-colons z done zero t (last g) l = absurd (omega arith)
rounds-colons z done zero t (more g j) l = absurd (omega arith)
rounds-colons z done (suc k) t (last {s} {w} g) l =
    rw (rounds, round-more z done k s (b':' ∷ t) g, scan-snoc z done w k (b':' ∷ t))
      (rounds-colon z (done ++ w ∷ []) k t)
rounds-colons z done (suc k) t (more {s} {t = t'} {w} g j) l =
    let rest : Bytes = t' ++ b':' ∷ b':' ∷ t in
    rw
      (
        append_assoc s (b':' ∷ t') (b':' ∷ b':' ∷ t),
        rounds,
        round-more z done k s rest g,
        scan-snoc z done w k rest,
      )
      (rounds-colons z (done ++ w ∷ []) k t j (omega arith))

-- A string that begins with a digit goes to the loop as it is; one behind "::" without the colons.
parse-plain :
    (pres : Bool) (s : Bytes)
    → isxdigit (peek s) ≡ true
    → parse_ipv6 pres s ≡ finish (rounds 8 (scan (negsuc 0) [] 8 s))
unfolding parse_ipv6 finish
parse-plain pres s h = rw (parse_ipv6, digit_no_colon (peek s) h)

parse-colons :
    (pres : Bool) (s : Bytes)
    → isxdigit (peek s) ≡ true
    → parse_ipv6 pres (b':' ∷ b':' ∷ s) ≡ finish (rounds 8 (scan (pos 0) [] 8 s))
unfolding parse_ipv6 finish
parse-colons pres s h = rw (parse_ipv6, digit_no_nul (peek s) h)

-- One to eight groups joined by colons are accepted, alone and behind "::" alike. Both times the
-- words that they spell come first and zeros fill the eight words behind them.
pub parse_ipv6-Joined :
    (pres : Bool) {s : Bytes} {ws : List ℕ}
    → Joined s ws
    → length ws ≤ 8
    → (parse_ipv6 pres s ≡ accepted (ws ++ replicate (8 - length ws) 0))
      × (parse_ipv6 pres (b':' ∷ b':' ∷ s) ≡ accepted (ws ++ replicate (8 - length ws) 0))
unfolding IsStart
parse_ipv6-Joined pres {s} j l =
    let h : isxdigit (peek s) ≡ true = rw append-nil at (Joined-peek [] j) in
    (
      parse-plain pres s h ∙ rounds-Joined (negsuc 0) [] 8 (inl refl) j l,
      parse-colons pres s h ∙ rounds-Joined (pos 0) [] 8 (inr refl) j l,
    )

-- No string with "::" behind one to eight groups is accepted, whatever stands in front of them
-- ("::" or nothing) and behind.
pub parse_ipv6-inner_colons :
    (pres : Bool) {s : Bytes} {ws : List ℕ} (t : Bytes)
    → Joined s ws
    → length ws ≤ 8
    → (parse_ipv6 pres (s ++ b':' ∷ b':' ∷ t) ≡ rejected)
      × (parse_ipv6 pres (b':' ∷ b':' ∷ (s ++ b':' ∷ b':' ∷ t)) ≡ rejected)
parse_ipv6-inner_colons pres {s} t j l =
    let h : isxdigit (peek (s ++ b':' ∷ b':' ∷ t)) ≡ true = Joined-peek _ j in
    (
      parse-plain pres _ h ∙ rounds-colons (negsuc 0) [] 8 t j l,
      parse-colons pres _ h ∙ rounds-colons (pos 0) [] 8 t j l,
    )
