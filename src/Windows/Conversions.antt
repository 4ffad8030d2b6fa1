-- ===== src/Windows/Conversions.antt =====
-- `yoi_win_conv_utf8` and `yoi_win_conv_utf16` of src/win/impl.c, over MultiByteToWideChar, WideCharToMultiByte and malloc, which are
-- arguments. A text is its units, without the NUL behind it.
use libyaooi.Prelude.{ℕ, ◌+◌, ◌*◌, ◌≡◌, Bool, ap, if◌then◌else◌, length}
use libyaooi.Windows.Cmdline.{Text}
use libyaooi.Windows.Errors.{WinError}

-- What a call answers: a value, or a failure with the error that it sets.
pub data Attempt (A : Type 0) : Type 0 where
  given : A → Attempt A
  denied : WinError → Attempt A

-- The functions of the system, which take flags, and whether there is memory for a number of bytes.
pub record Conversions : Type 0 where
  pub multi_byte_to_wide_char : (flags : ℕ) → Text → Attempt Text
  pub wide_char_to_multi_byte : (flags : ℕ) → Text → Attempt Text
  pub memory : ℕ → Bool

abbrev pub mb_err_invalid_chars : ℕ
mb_err_invalid_chars = 8

abbrev pub allocated : Bool → Text → Attempt Text
allocated memory t = if memory then given t else denied WinError.error_outofmemory

-- Behind the first call, which counts the units with the NUL; a unit of a wide text has two bytes.
abbrev pub on_wide : Conversions → (extra_n : ℕ) → Attempt Text → Attempt Text
on_wide c extra_n (denied e) = denied e
on_wide c extra_n (given t) = allocated (c.memory (2 * (length t + 1 + extra_n))) t

abbrev pub on_bytes : Conversions → Attempt Text → Attempt Text
on_bytes c (denied e) = denied e
on_bytes c (given t) = allocated (c.memory (length t + 1)) t

-- `yoi_win_conv_utf8`
abbrev pub conv_utf8 : Conversions → (extra_n : ℕ) → Text → Attempt Text
conv_utf8 c extra_n t = on_wide c extra_n (c.multi_byte_to_wide_char mb_err_invalid_chars t)

-- `yoi_win_conv_utf16`
abbrev pub conv_utf16 : Conversions → Text → Attempt Text
conv_utf16 c t = on_bytes c (c.wide_char_to_multi_byte mb_err_invalid_chars t)

-- The number of ERROR_INVALID_FLAGS, which the source does not name.
abbrev pub error_invalid_flags : WinError
error_invalid_flags = WinError.other 1004

-- The manual of WideCharToMultiByte: for CP_UTF8 the flags are 0 or WC_ERR_INVALID_CHARS, which is 128, and with others it fails.
abbrev pub TakesNoFlag : Conversions → Type 0
TakesNoFlag c = (t : Text) → c.wide_char_to_multi_byte 8 t ≡ denied error_invalid_flags

pub conv_utf16-TakesNoFlag :
    (c : Conversions) → TakesNoFlag c → (t : Text) → conv_utf16 c t ≡ denied error_invalid_flags
conv_utf16-TakesNoFlag c h t = ap (λ r. on_bytes c r) (h t)
