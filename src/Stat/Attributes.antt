-- ===== src/Stat/Attributes.antt =====
-- What the Windows port makes of the attributes of a file.
use libyaooi.Prelude.{
  ℕ, ◌/◌, ◌%◌, ◌^◌, ◌<◌, ◌≡◌, refl, ap, ◌⊎◌, inl, inr, Bool, true, false, Bool-cases, Option, ◌||◌,
  arith,
}
use libyaooi.Files.{flag}
use libyaooi.Stat.{FileType, Stat}
use libyaooi.Stat.Windows.{Info, directory, device, normal, reparse_point, type_and_mode, filled}

-- One of the attributes that are looked at for the type.
abbrev pub typed : ℕ → Bool
typed attributes =
    flag normal attributes
    || flag directory attributes
    || flag device attributes
    || flag reparse_point attributes

-- The type where one attribute is looked at behind the others.
Chosen : Bool → (old new : Option FileType) → Option FileType × ℕ → Option FileType × ℕ → Type 0
Chosen t old new r q = ((t ≡ true) × (r ≡ q)) ⊎ ((t ≡ false) × (r.0 ≡ old) × (q.0 ≡ new))

type_and_mode-Chosen :
    (a : ℕ) (old new : Option FileType)
    → Chosen (typed a) old new (type_and_mode a old) (type_and_mode a new)
unfolding type_and_mode Chosen
type_and_mode-Chosen a old new = elim (Bool-cases (flag normal a)) [
  | inl n ↦ rw n (inl (refl, refl))
  | inr n ↦ elim (Bool-cases (flag directory a)) [
    | inl d ↦ rw n (rw d (inl (refl, refl)))
    | inr d ↦ elim (Bool-cases (flag device a)) [
      | inl v ↦ rw n (rw d (rw v (inl (refl, refl))))
      | inr v ↦ elim (Bool-cases (flag reparse_point a)) [
        | inl p ↦ rw n (rw d (rw v (rw p (inl (refl, refl)))))
        | inr p ↦ rw n (rw d (rw v (rw p (inr (refl, refl, refl)))))
      ]
    ]
  ]
]

-- `yo_stat` of the Windows port gives the size of the file from its two halves; what it gives does not depend on the buffer where
-- the file has one of the four attributes for the type, and where it has none, the type is what was in the buffer.
pub filled-typed :
    (info : Info) (buff other : Stat)
    → info.size_low < 2 ^ 32
    → ((filled info buff).size / 2 ^ 32 ≡ info.size_high)
      × ((filled info buff).size % 2 ^ 32 ≡ info.size_low)
      × (((typed info.attributes ≡ true) × (filled info buff ≡ filled info other))
          ⊎ ((typed info.attributes ≡ false) × ((filled info buff).type ≡ buff.type)))
unfolding filled Chosen
filled-typed info buff other h = (
  omega (arith, h),
  omega (arith, h),
  elim (type_and_mode-Chosen info.attributes buff.type other.type) [
    | inl (t, e) ↦ inl (t, ap (λ r. record (filled info buff) { type = r.0; mode = r.1 }) e)
    | inr (t, old, new) ↦ inr (t, old)
  ],
)
