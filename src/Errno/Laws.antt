-- ===== src/Errno/Laws.antt =====
-- What the tables of result codes guarantee.
use libyaooi.Prelude.{
  ◌≡◌, ◌≢◌, ◌↔◌, ◌⊎◌, inl, inr, refl, sym, ap, ◌∙◌, Bool, true, false, Option, none, some, List, [],
  ◌∷◌, if◌then◌else◌, arith,
}
use libyaooi.Prelude.Int.{ℤ, pos, eqb_ℤ, ◌<ℤ◌}
use libyaooi.Errno.Os.{Errno, AiErr}
use libyaooi.Errno.{Code, code_value, message, all_codes, strerr}
use libyaooi.Errno.Unix
use libyaooi.Errno.Ansi

-- The code with a value.
find_code : ℤ → List Code → Option Code
unfolding code_value
find_code v [] = none
find_code v (c ∷ cs) = if eqb_ℤ v (code_value c) then some c else find_code v cs

find-code_value : (c : Code) → find_code (code_value c) all_codes ≡ some c
unfolding find_code
find-code_value Code.ok = refl
find-code_value _ = refl

-- `yo_strerr` of the value of a code is the code's own message, for every code: no two cases of the
-- switch have one label.
pub strerr-code_value : (c : Code) → strerr (code_value c) ≡ message c
unfolding strerr
strerr-code_value Code.ok = refl
strerr-code_value _ = refl

code_value-injective : (c d : Code) → code_value c ≡ code_value d → c ≡ d
code_value-injective c d e =
    let same : find_code (code_value c) all_codes ≡ find_code (code_value d) all_codes =
      ap (λ v. find_code v all_codes) e in
    cc (find-code_value c, find-code_value d, same)

code_value-negative : (c : Code) → c ≢ Code.ok → code_value c <ℤ pos 0
unfolding code_value
code_value-negative Code.ok h = absurd (h refl)
code_value-negative _ h = omega arith

-- Different codes have different values, and every code but YO_OK has a negative one.
pub code_value_lem :
    (c d : Code) → (code_value c ≡ code_value d → c ≡ d) × (c ≢ Code.ok → code_value c <ℤ pos 0)
code_value_lem c d = (code_value-injective c d, code_value-negative c)

is_ok : Option Code → Bool
is_ok (some Code.ok) = true
is_ok _ = false

is_success : Errno → Bool
is_success Errno.success = true
is_success _ = false

is_ok-conv_errno : (e : Errno) → is_ok (Unix.conv_errno e) ≡ is_success e
unfolding is_ok is_success Unix.conv_errno
is_ok-conv_errno Errno.success = refl
is_ok-conv_errno _ = refl

of_success : (e : Errno) → is_success e ≡ true → e ≡ Errno.success
unfolding is_success
of_success Errno.success h = refl
of_success _ h = absurd (cc)

-- `yoi_unix_conv_errno` makes YO_OK of the error number 0 and of no other.
pub conv_errno-ok : (e : Errno) → (Unix.conv_errno e ≡ some Code.ok) ↔ (e ≡ Errno.success)
unfolding Unix.conv_errno is_ok
conv_errno-ok e = (λ h. of_success e (sym (is_ok-conv_errno e) ∙ ap is_ok h), λ h. rw h refl)

-- `yoi_unix_conv_aierr` never makes YO_OK of an error.
pub conv_aierr-ne-ok : (e : AiErr) → Unix.conv_aierr e ≢ Code.ok
unfolding Unix.conv_aierr
conv_aierr-ne-ok AiErr.success h = cc
conv_aierr-ne-ok _ h = cc

-- The numbers that the two conversions treat differently.
abbrev pub Differs : Errno → Type 0
Differs e = (e ≡ Errno.enxio) ⊎ (e ≡ Errno.echild) ⊎ (e ≡ Errno.enotblk) ⊎ (e ≡ Errno.edom)

-- What `yoi_ansi_conv_errno` makes of an error number is what `yoi_unix_conv_errno` makes of it, or it
-- is the fallback, or the number is ENXIO, ECHILD, ENOTBLK or EDOM.
pub conv_errno_agree :
    (e : Errno) (fallback : Code)
    → (some (Ansi.conv_errno e fallback) ≡ Unix.conv_errno e)
      ⊎ (Ansi.conv_errno e fallback ≡ fallback)
      ⊎ Differs e
unfolding Unix.conv_errno Ansi.conv_errno
conv_errno_agree Errno.enxio f = inr (inr (inl refl))
conv_errno_agree Errno.echild f = inr (inr (inr (inl refl)))
conv_errno_agree Errno.enotblk f = inr (inr (inr (inr (inl refl))))
conv_errno_agree Errno.edom f = inr (inr (inr (inr (inr refl))))
conv_errno_agree _ f = ground arith
