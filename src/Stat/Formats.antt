-- ===== src/Stat/Formats.antt =====
-- The type and the mode of the unix port against the mode of the system.
use libyaooi.Prelude.{
  ℕ, ◌+◌, ◌*◌, ◌/◌, ◌^◌, ◌<◌, ◌≡◌, ◌≢◌, refl, inl, inr, Bool-cases, ==→eq, Option, none, some, ◌==◌,
  if◌then◌else◌, arith,
}
use libyaooi.Errno.{Code}
use libyaooi.Socket.{done}
use libyaooi.Stat.{FileType, reg, dir, link, sock, fifo, char, blk, Stat, u32}
use libyaooi.Stat.Unix.{OsStat, format_of, type_of, without_format, conv_stat, stat}

-- The bits of a type in a mode: its S_IF... constant.
abbrev pub s_if : FileType → ℕ
s_if reg = 32768
s_if dir = 16384
s_if link = 40960
s_if sock = 49152
s_if fifo = 4096
s_if char = 8192
s_if blk = 24576

-- A format whose type is `t`, or one without a type.
Typed : ℕ → Option FileType → Type 0
Typed format none = (t : FileType) → format * 4096 ≢ s_if t
Typed format (some t) = format * 4096 ≡ s_if t

peel :
    (Q : Option FileType → Type 0) (a k : ℕ) (x y : Option FileType)
    → (a ≡ k → Q x)
    → (a ≢ k → Q y)
    → Q (if a == k then x else y)
peel Q a k x y same other = elim (Bool-cases (a == k)) [
  | inl e ↦ rw e (same (==→eq a k e))
  | inr e ↦ rw e (other (ground arith))
]

type_of-Typed : (format : ℕ) → Typed format (type_of format)
unfolding type_of Typed
type_of-Typed n =
    let q = Typed n in
    peel q n 8 _ _ (λ e. omega (arith, e))
      (λ d1.
        peel q n 4 _ _ (λ e. omega (arith, e))
          (λ d2.
            peel q n 10 _ _ (λ e. omega (arith, e))
              (λ d3.
                peel q n 12 _ _ (λ e. omega (arith, e))
                  (λ d4.
                    peel q n 1 _ _ (λ e. omega (arith, e))
                      (λ d5.
                        peel q n 2 _ _ (λ e. omega (arith, e))
                          (λ d6.
                            peel q n 6 _ _ (λ e. omega (arith, e))
                              (λ d7. no_type n d1 d2 d3 d4 d5 d6 d7)))))))
  where
    no_type :
        (n : ℕ)
        → n ≢ 8
        → n ≢ 4
        → n ≢ 10
        → n ≢ 12
        → n ≢ 1
        → n ≢ 2
        → n ≢ 6
        → (t : FileType) → n * 4096 ≢ s_if t
    no_type n d1 d2 d3 d4 d5 d6 d7 reg = omega arith
    no_type n d1 d2 d3 d4 d5 d6 d7 dir = omega arith
    no_type n d1 d2 d3 d4 d5 d6 d7 link = omega arith
    no_type n d1 d2 d3 d4 d5 d6 d7 sock = omega arith
    no_type n d1 d2 d3 d4 d5 d6 d7 fifo = omega arith
    no_type n d1 d2 d3 d4 d5 d6 d7 char = omega arith
    no_type n d1 d2 d3 d4 d5 d6 d7 blk = omega arith

-- The type with the bits of the mode that are kept is the mode of the system; or the mode has no type.
abbrev pub Formatted : (st_mode : ℕ) → Option FileType → (mode : ℕ) → Type 0
Formatted st_mode none mode = (t : FileType) → st_mode / 4096 * 4096 ≢ s_if t
Formatted st_mode (some t) mode = s_if t + mode ≡ st_mode

formatted :
    (st_mode : ℕ) (o : Option FileType)
    → st_mode < 2 ^ 16
    → Typed (format_of st_mode) o
    → Formatted st_mode o (u32 (without_format st_mode))
unfolding Typed
formatted st_mode (some t) h e = omega (arith, h, e)
formatted st_mode none h e = λ t same. e t (omega (arith, h, same))

-- From a mode of 16 bits, `yo_stat` of the unix port makes a type and a mode below 2^12 that give it back together; or no type,
-- where it is that of none.
pub conv_stat-Formatted :
    (res : OsStat) (buff : Stat)
    → res.st_mode < 2 ^ 16
    → ((stat (done res) buff).0 ≡ some Code.ok)
      × ((stat (done res) buff).1.mode < 2 ^ 12)
      × Formatted res.st_mode (stat (done res) buff).1.type (stat (done res) buff).1.mode
unfolding stat conv_stat
conv_stat-Formatted res buff h =
    (refl, omega (arith, h), formatted res.st_mode _ h (type_of-Typed (format_of res.st_mode)))
