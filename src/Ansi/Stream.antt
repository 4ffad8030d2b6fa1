-- ===== src/Ansi/Stream.antt =====
-- The transfers of src/ansi/impl.c, over the streams of the C standard. A stream is the bytes of its file, its
-- position, its end-of-file indicator, and whether it was opened to append. Whether the device fails in a transfer, which sets the error
-- indicator, and whether the stream can be positioned are arguments.
pub mod Exact
mod Tests
use libyaooi.Prelude.{
  ℕ, zero, suc, ◌+◌, Bool, true, false, List, [], ◌∷◌, ◌++◌, ◌==◌, ltb, if◌then◌else◌, length, take,
  drop,
}
use libyaooi.Errno.{Code}

pub record Stream : Type 0 where
  pub bytes : List ℕ
  pub at : ℕ
  pub eof : Bool
  pub append : Bool

-- What a transfer finds: whether the handle is a stream, whether the two calls of fseek succeed, and whether
-- the error indicator is set behind the transfer: the device fails, or the indicator was set before a transfer
-- that does not clear it.
pub record Conditions : Type 0 where
  pub is_fd : Bool
  pub seeks : Bool
  pub seeks_back : Bool
  pub breaks : Bool

-- The code, the number that is stored through `pn`, the bytes that are stored in the buffer, and the stream.
pub record Transfer : Type 0 where
  pub code : Code
  pub n : ℕ
  pub buff : List ℕ
  pub stream : Stream

-- `fseek(f, offset, SEEK_SET)` and `clearerr`.
abbrev pub fseek : ℕ → Stream → Stream
fseek offset f = record f { at = offset; eof = false }

abbrev pub clearerr : Stream → Stream
clearerr f = record f { eof = false }

-- What `fread` and `fwrite` move, and where they leave the stream.
abbrev pub moved_in : ℕ → Stream → List ℕ
moved_in n f = take n (drop f.at f.bytes)

abbrev pub fread : ℕ → Stream → Stream
fread n f = record f {
  at = f.at + length (moved_in n f);
  eof = if ltb (length (moved_in n f)) n then true else f.eof;
}

-- The bytes of a file with others written over them from a position; what is between its end and the
-- position is 0.
unfoldable pub overwrite : ℕ → List ℕ → List ℕ → List ℕ
overwrite zero data_in bytes = data_in ++ drop (length data_in) bytes
overwrite (suc at) data_in [] = 0 ∷ overwrite at data_in []
overwrite (suc at) data_in (b ∷ bytes) = b ∷ overwrite at data_in bytes

-- Where a stream that appends writes, and where another does.
abbrev pub write_place : Stream → ℕ
write_place f = if f.append then length f.bytes else f.at

-- A write of no bytes does nothing.
abbrev pub fwrite : List ℕ → Stream → Stream
fwrite [] f = f
fwrite (b ∷ data_in) f = record f {
  bytes = overwrite (write_place f) (b ∷ data_in) f.bytes;
  at = write_place f + length (b ∷ data_in);
}

-- `fread` and `fwrite` count whole items.
abbrev pub one_item : (n done : ℕ) → ℕ
one_item n done = if n == 0 then 0 else if done == n then 1 else 0

abbrev pub ends_with : Code → ℕ → List ℕ → Stream → Transfer
ends_with c n got f = record { code = c; n = n; buff = got; stream = f }

-- `yo_read`, which asks for one item of `*pn` bytes.
unfoldable pub read : Conditions → ℕ → Stream → Transfer
read c n f =
    let f1 = fread n (clearerr f) in
    let got = moved_in n f in
    if c.is_fd
    then (if c.breaks
        then ends_with Code.eio n got f1
        else if f1.eof
        then ends_with Code.eof n got f1
        else ends_with Code.ok (one_item n (length got)) got f1)
    else ends_with Code.ebadfd n [] f

-- `yo_file_read`
unfoldable pub file_read : Conditions → (n offset : ℕ) → Stream → Transfer
file_read c n offset f =
    let f1 = fread n (fseek offset f) in
    let got = moved_in n (fseek offset f) in
    if c.is_fd
    then (if c.seeks
        then (if c.breaks
            then ends_with Code.eio n got f1
            else if f1.eof
            then ends_with Code.eof n got f1
            else if c.seeks_back
            then ends_with Code.ok (length got) got (fseek f.at f1)
            else ends_with Code.ebadop n got f1)
        else ends_with Code.ebadop n [] f)
    else ends_with Code.ebadfd n [] f

-- `yo_file_write`; where the device fails, it is as if nothing was written.
unfoldable pub file_write : Conditions → List ℕ → (offset : ℕ) → Stream → Transfer
file_write c buff offset f =
    let f1 = fwrite buff (fseek offset f) in
    if c.is_fd
    then (if c.seeks
        then (if c.breaks
            then ends_with Code.eio (length buff) buff (fseek offset f)
            else if f1.eof
            then ends_with Code.eof (length buff) buff f1
            else if c.seeks_back
            then ends_with Code.ok (length buff) buff (fseek f.at f1)
            else ends_with Code.ebadop (length buff) buff f1)
        else ends_with Code.ebadop (length buff) buff f)
    else ends_with Code.ebadfd (length buff) buff f

-- `yo_stat` of an open stream: the size that it reports is the result of fseek, which is 0 where it succeeds.
unfoldable pub stat_size : Stream → ℕ × Stream
stat_size f = let f1 = fseek (length f.bytes) f in (0, fseek f.at f1)
