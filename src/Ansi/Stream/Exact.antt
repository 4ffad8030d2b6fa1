-- ===== src/Ansi/Stream/Exact.antt =====
-- What the transfers of a stream move.
use libyaooi.Prelude.{
  ℕ, ◌+◌, ◌-◌, ◌≤◌, ◌<◌, ◌≡◌, refl, ap, ◌∙◌, true, false, Bool-cases, ◌⊎◌, inl, inr, List, ltb,
  if◌then◌else◌, length, take, drop, length-take, length-drop, take_all, arith,
}
use libyaooi.Errno.{Code}
use libyaooi.Ansi.Stream.{Stream, Conditions, fseek, fread, ends_with, read, file_read, one_item}

-- The stream can be used, and the device does not fail.
abbrev pub sound : Conditions
sound = record { is_fd = true; seeks = true; seeks_back = true; breaks = false }

-- The bytes from a position on, at most `n` of them.
abbrev pub slice : ℕ → ℕ → List ℕ → List ℕ
slice n offset bytes = take n (drop offset bytes)

length-slice :
    (n offset : ℕ) (bytes : List ℕ) → n ≤ length bytes - offset → length (slice n offset bytes) ≡ n
length-slice n offset bytes h =
    length-take n (drop offset bytes) (omega (arith, h, length-drop offset bytes))

slice_short :
    (n offset : ℕ) (bytes : List ℕ)
    → length bytes - offset < n
    → slice n offset bytes ≡ drop offset bytes
slice_short n offset bytes h =
    take_all n (drop offset bytes) (omega (arith, h, length-drop offset bytes))

whole :
    (n offset : ℕ) (f : Stream)
    → length (slice n offset f.bytes) ≡ n
    → file_read sound n offset f ≡ ends_with Code.ok n (slice n offset f.bytes) (fseek f.at f)
unfolding file_read
whole n offset f h =
    let full : ltb (length (slice n offset f.bytes)) n ≡ false = ground arith in
    rw full (ap (λ k. ends_with Code.ok k (slice n offset f.bytes) (fseek f.at f)) h)

short :
    (n offset : ℕ) (f : Stream)
    → length (slice n offset f.bytes) < n
    → file_read sound n offset f
      ≡ ends_with Code.eof n (slice n offset f.bytes) (fread n (fseek offset f))
unfolding file_read
short n offset f h =
    let lacks : ltb (length (slice n offset f.bytes)) n ≡ true = ground arith in rw lacks refl

-- Where the device does not fail, `yo_file_read` gives the bytes that were asked for and leaves the position of the
-- stream, if the file has them; else it returns YO_EOF, with the bytes behind the offset in the buffer and
-- the position moved behind them.
pub file_read_lem :
    (n offset : ℕ) (f : Stream)
    → ((n ≤ length f.bytes - offset)
        × (file_read sound n offset f
            ≡ ends_with Code.ok n (slice n offset f.bytes) (fseek f.at f)))
      ⊎ ((length f.bytes - offset < n)
          × ((file_read sound n offset f).code ≡ Code.eof)
          × ((file_read sound n offset f).buff ≡ drop offset f.bytes)
          × ((file_read sound n offset f).stream.at ≡ offset + (length f.bytes - offset)))
file_read_lem n offset f = elim (Bool-cases (ltb (length f.bytes - offset) n)) [
  | inr e ↦
      let enough : n ≤ length f.bytes - offset = ground arith in
      inl (enough, whole n offset f (length-slice n offset f.bytes enough))
  | inl e ↦
      let lacks : length f.bytes - offset < n = ground arith in
      let rest = slice_short n offset f.bytes lacks in
      let many = ap (λ t. length t) rest ∙ length-drop offset f.bytes in
      let r = short n offset f (omega (arith, many, lacks)) in
      inr (
        lacks,
        ap (λ t. t.code) r,
        ap (λ t. t.buff) r ∙ rest,
        ap (λ t. t.stream.at) r ∙ ap (λ k. offset + k) many,
      )
]

-- Where `yo_file_write` writes: behind the bytes of a stream that appends, and at the offset of another.
abbrev pub place : (offset : ℕ) → Stream → ℕ
place offset f = if f.append then length f.bytes else offset

-- `yo_read` moves the bytes that were asked for, where the file has them and the device does not fail, but reports
-- that it moved one.
pub read_lem :
    (n : ℕ) (f : Stream)
    → 1 ≤ n
    → n ≤ length f.bytes - f.at
    → read sound n f ≡ ends_with Code.ok 1 (slice n f.at f.bytes) (fseek (f.at + n) f)
unfolding read
read_lem n f p h =
    let l = length-slice n f.at f.bytes h in
    let full : ltb (length (slice n f.at f.bytes)) n ≡ false = ground arith in
    let whole_item : one_item n (length (slice n f.at f.bytes)) ≡ 1 = ground arith in
    rw full
      (rw whole_item (ap (λ k. ends_with Code.ok 1 (slice n f.at f.bytes) (fseek (f.at + k) f)) l))
