-- ===== src/Files/Opened.antt =====
-- How a file is opened.
use libyaooi.Prelude.{ℕ, ◌≡◌, refl, Bool, true, false, not, ◌||◌, ◌&&◌, if◌then◌else◌}
use libyaooi.Files.{flag, Access, access_of, conv_open_flags}
use libyaooi.Files.Flags

abbrev pub can_write : Access → Bool
can_write Access.rdonly = false
can_write _ = true

-- What `yoi_unix_conv_open_flags` makes has O_NOFOLLOW exactly where it has O_PATH, since YO_OPEN_NOFOLLOW and
-- YO_OPEN_STAT are one flag. The file can be written exactly where YO_OPEN_WRITE or YO_OPEN_APPEND is set and that flag is
-- not, and O_APPEND is made only then.
pub conv_open_flags_lem :
    (flags : ℕ)
    → ((conv_open_flags flags).o_path ≡ (conv_open_flags flags).o_nofollow)
      × (can_write (conv_open_flags flags).access ≡ (
          not (flag Flags.nofollow flags) && (flag Flags.append flags || flag Flags.write flags)))
      × ((conv_open_flags flags).o_append
          ≡ (not (flag Flags.nofollow flags) && flag Flags.append flags))
unfolding conv_open_flags
conv_open_flags_lem flags = (
  refl,
  access (flag Flags.nofollow flags) (flag Flags.append flags) (flag Flags.write flags)
      (flag Flags.read flags),
  append (flag Flags.nofollow flags) (flag Flags.append flags),
)
  where
    access :
        (s a w r : Bool)
        → can_write (if s then Access.rdonly else access_of r (if a then true else w))
          ≡ (not s && (a || w))
    access true a w r = refl
    access false true w true = refl
    access false true w false = refl
    access false false true true = refl
    access false false true false = refl
    access false false false r = refl

    append : (s a : Bool) → (if s then false else a) ≡ (not s && a)
    append true a = refl
    append false a = refl
