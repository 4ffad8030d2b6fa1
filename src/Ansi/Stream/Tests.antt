-- ===== src/Ansi/Stream/Tests.antt =====
-- A file of five bytes, at its second one.
use libyaooi.Prelude.{◌≡◌, refl, false, [], ◌∷◌}
use libyaooi.Ansi.Stream.{Stream, file_read, stat_size}
use libyaooi.Ansi.Stream.Exact.{sound}

abbrev five : Stream
five = record { bytes = 10 ∷ 20 ∷ 30 ∷ 40 ∷ 50 ∷ []; at = 1; eof = false; append = false }

-- Two bytes of three are there.
file_read-short : (file_read sound 3 3 five).buff ≡ 40 ∷ 50 ∷ []
unfolding file_read
file_read-short = refl

stat_size-zero : stat_size five ≡ (0, five)
unfolding stat_size
stat_size-zero = refl
