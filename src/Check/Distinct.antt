-- ===== src/Check/Distinct.antt =====
-- src/check.rs: what `enqueue` finds of the names.
use rust_u4pak.Common.{
  ◌+◌, ◌≡◌, ◌≢◌, ◌∙◌, refl, sym, ap, arith, Bool, true, false, Bool-cases, inl, inr, List, [], ◌∷◌,
  Bytes, bytes_eq, bytes_eq→eq, bytes_eq_refl, All,
}
use rust_u4pak.Io.{done}
use rust_u4pak.Results.{>>=-eq-done}
use rust_u4pak.Record.{Record}
use rust_u4pak.Check.Whole.{has, enqueue}

-- Names that differ from each other and from those that were there before.
abbrev pub AreNew : List Bytes → List Record → Type 0
AreNew names [] = Unit
AreNew names (r ∷ records) = (has r.filename names ≡ false) × AreNew (r.filename ∷ names) records

pub enqueue-AreNew :
    (abort : Bool) (names : List Bytes) (records : List Record)
    → AreNew names records
    → enqueue abort names records ≡ done 0
unfolding enqueue
enqueue-AreNew abort names [] h = refl
enqueue-AreNew abort names (r ∷ records) (new, h) =
    rw new (enqueue-AreNew abort (r.filename ∷ names) records h)

pub AreNew-enqueue :
    (abort : Bool) (names : List Bytes) (records : List Record)
    → enqueue abort names records ≡ done 0
    → AreNew names records
unfolding enqueue
AreNew-enqueue abort names [] h = tt
AreNew-enqueue abort names (r ∷ records) h = elim (Bool-cases (has r.filename names)) [
  | inr new ↦ (new, AreNew-enqueue abort (r.filename ∷ names) records (rw new at h))
  | inl taken ↦ elim (Bool-cases abort) [
    | inl stops ↦ absurd (let h' = rw taken at h in let clash = rw stops at h' in cc)
    | inr goes_on ↦
        let h' = rw taken at h in
        let (count, rest, more) =
          >>=-eq-done (enqueue abort (r.filename ∷ names) records) _ (rw goes_on at h') in
        let same : count + 1 ≡ 0 = cc in absurd (omega (arith, same))
  ]
]

-- No two records have the same name.
abbrev pub AreDistinct : List Record → Type 0
AreDistinct [] = Unit
AreDistinct (r ∷ records) = All (λ s. r.filename ≢ s.filename) records × AreDistinct records

-- A name that is not among these and another one.
has-cons :
    (name : Bytes) (names : List Bytes) (s : Record)
    → name ≢ s.filename
    → has s.filename names ≡ false
    → has s.filename (name ∷ names) ≡ false
has-cons name names s differs new = elim (Bool-cases (bytes_eq s.filename name)) [
  | inr other ↦ rw (other, new) refl
  | inl same ↦ absurd (differs (sym (bytes_eq→eq s.filename name same)))
]

has-uncons :
    (name : Bytes) (names : List Bytes) (s : Record)
    → has s.filename (name ∷ names) ≡ false
    → (name ≢ s.filename) × (has s.filename names ≡ false)
has-uncons name names s h = elim (Bool-cases (bytes_eq s.filename name)) [
  | inl same ↦ absurd (let clash = rw same at h in cc)
  | inr other ↦ (
    λ equal.
        let clash : false ≡ true =
          sym other ∙ ap (bytes_eq s.filename) equal ∙ bytes_eq_refl s.filename in
        cc,
    rw other at h,
  )
]

All-cons :
    (name : Bytes) (names : List Bytes) (records : List Record)
    → All (λ s. name ≢ s.filename) records
    → All (λ s. has s.filename names ≡ false) records
    → All (λ s. has s.filename (name ∷ names) ≡ false) records
All-cons name names [] h k = tt
All-cons name names (s ∷ records) (differs, h) (new, k) =
    (has-cons name names s differs new, All-cons name names records h k)

All-uncons :
    (name : Bytes) (names : List Bytes) (records : List Record)
    → All (λ s. has s.filename (name ∷ names) ≡ false) records
    → All (λ s. name ≢ s.filename) records × All (λ s. has s.filename names ≡ false) records
All-uncons name names [] h = (tt, tt)
All-uncons name names (s ∷ records) (new, h) =
    let (differs, lacks) = has-uncons name names s new in
    let (differ, lack) = All-uncons name names records h in ((differs, differ), (lacks, lack))

pub AreDistinct-AreNew :
    (names : List Bytes) (records : List Record)
    → All (λ s. has s.filename names ≡ false) records
    → AreDistinct records
    → AreNew names records
AreDistinct-AreNew names [] h k = tt
AreDistinct-AreNew names (r ∷ records) (new, h) (differ, k) = (
  new,
  AreDistinct-AreNew (r.filename ∷ names) records (All-cons r.filename names records differ h) k,
)

pub AreNew-AreDistinct :
    (names : List Bytes) (records : List Record)
    → AreNew names records
    → All (λ s. has s.filename names ≡ false) records × AreDistinct records
AreNew-AreDistinct names [] h = (tt, tt)
AreNew-AreDistinct names (r ∷ records) (new, h) =
    let (lack, distinct) = AreNew-AreDistinct (r.filename ∷ names) records h in
    let (differ, rest) = All-uncons r.filename names records lack in
    ((new, rest), (differ, distinct))

pub lack_nothing : (records : List Record) → All (λ s. has s.filename [] ≡ false) records
lack_nothing [] = tt
lack_nothing (s ∷ records) = (refl, lack_nothing records)
