-- ===== src/PakPath/Laws.antt =====
-- `parse_pak_path` takes apart what `make_pak_path` joins, and does not see slashes at the ends.
use rust_u4pak.Common.{
  ℕ, Bool, true, false, ◌&&◌, ◌≡◌, ◌∙◌, refl, ap, arith, Bool-cases, inl, inr, List, [], ◌∷◌, ◌++◌,
  ◌==◌, if◌then◌else◌, All,
}
use rust_u4pak.Text.{Text}
use rust_u4pak.PakPath.{
  is_empty, trim_start, trim_end, trim_matches, cons_first, split, non_empty, parse_pak_path,
  with_slashes, make_pak_path,
}

-- A component of a path: not empty, and with no slash.
abbrev pub NoSlash : Text → Type 0
NoSlash = All (λ c. (c == b'/') ≡ false)

abbrev pub IsComponent : Text → Type 0
IsComponent p = (is_empty p ≡ false) × NoSlash p

-- Slashes in front and behind do not change the components.
non_empty-split-trim_start :
    (t : Text) → non_empty (split b'/' (trim_start b'/' t)) ≡ non_empty (split b'/' t)
unfolding trim_start split non_empty
non_empty-split-trim_start [] = refl
non_empty-split-trim_start (x ∷ t) = ground (arith, non_empty-split-trim_start t)

split-ne-nil : (c : ℕ) (t : Text) → is_empty (split c t) ≡ false
unfolding split
split-ne-nil c [] = refl
split-ne-nil c (x ∷ t) = ground arith

abbrev first_part : List Text → Text
first_part [] = []
first_part (p ∷ ps) = p

abbrev other_parts : List Text → List Text
other_parts [] = []
other_parts (p ∷ ps) = ps

cons_first-NoSlash :
    (x : ℕ) (ps : List Text) → (x == b'/') ≡ false → All NoSlash ps → All NoSlash (cons_first x ps)
cons_first-NoSlash x [] e h = ((e, tt), tt)
cons_first-NoSlash x (p ∷ ps) e (h, hs) = ((e, h), hs)

-- Two splits agree on their first part, and on their others but for empty ones.
abbrev Agree : List Text → List Text → Type 0
Agree ps qs =
    (first_part ps ≡ first_part qs) × (non_empty (other_parts ps) ≡ non_empty (other_parts qs))

Agree-non_empty :
    (ps qs : List Text)
    → is_empty ps ≡ false
    → is_empty qs ≡ false
    → Agree ps qs
    → non_empty ps ≡ non_empty qs
unfolding non_empty
Agree-non_empty (p ∷ ps) (q ∷ qs) h k (e, f) = rw (e, f)
Agree-non_empty [] qs h k a = cc
Agree-non_empty (p ∷ ps) [] h k a = cc

abbrev split_cons : ℕ → List Text → List Text
split_cons x ps = if x == b'/' then [] ∷ ps else cons_first x ps

split_cons-Agree :
    (x : ℕ) (ps qs : List Text)
    → is_empty ps ≡ false
    → is_empty qs ≡ false
    → Agree ps qs
    → Agree (split_cons x ps) (split_cons x qs)
split_cons-Agree x (p ∷ ps) (q ∷ qs) h k a = elim (Bool-cases (x == b'/')) [
  | inl e ↦ rw e (refl, Agree-non_empty (p ∷ ps) (q ∷ qs) h k a)
  | inr e ↦ rw e (ap (◌∷◌ x) a.0, a.1)
]
split_cons-Agree x [] qs h k a = cc
split_cons-Agree x (p ∷ ps) [] h k a = cc

split-if :
    (x : ℕ) (u t : Text) (b : Bool)
    → ((x == b'/') && is_empty u) ≡ b
    → Agree (split b'/' u) (split b'/' t)
    → Agree (split b'/' (if b then [] else x ∷ u)) (split b'/' (x ∷ t))
unfolding split non_empty
split-if x u t false e a =
    split_cons-Agree x (split b'/' u) (split b'/' t) (split-ne-nil b'/' u) (split-ne-nil b'/' t) a
split-if x (y ∷ u) t true e a = ground arith
split-if x [] t true e a =
    let slash : (x == b'/') ≡ true = ground arith in
    rw slash (refl, Agree-non_empty ([] ∷ []) (split b'/' t) refl (split-ne-nil b'/' t) a)

split-trim_end : (t : Text) → Agree (split b'/' (trim_end b'/' t)) (split b'/' t)
unfolding trim_end
split-trim_end [] = (refl, refl)
split-trim_end (x ∷ t) = split-if x (trim_end b'/' t) t _ refl (split-trim_end t)

-- Trimming does not change the components.
pub parse_pak_path-non_empty : (t : Text) → parse_pak_path t ≡ non_empty (split b'/' t)
unfolding parse_pak_path
parse_pak_path-non_empty t =
    Agree-non_empty _ _ (split-ne-nil b'/' (trim_matches b'/' t))
      (split-ne-nil b'/' (trim_start b'/' t)) (split-trim_end (trim_start b'/' t))
    ∙ non_empty-split-trim_start t

-- Every component that is parsed is one.
split-NoSlash : (t : Text) → All NoSlash (split b'/' t)
unfolding split
split-NoSlash [] = (tt, tt)
split-NoSlash (x ∷ t) = elim (Bool-cases (x == b'/')) [
  | inl e ↦ rw e (tt, split-NoSlash t)
  | inr e ↦ rw e (cons_first-NoSlash x (split b'/' t) e (split-NoSlash t))
]

non_empty-IsComponent : (ps : List Text) → All NoSlash ps → All IsComponent (non_empty ps)
unfolding non_empty
non_empty-IsComponent [] h = tt
non_empty-IsComponent ([] ∷ ps) (h, hs) = non_empty-IsComponent ps hs
non_empty-IsComponent ((c ∷ p) ∷ ps) (h, hs) = ((refl, h), non_empty-IsComponent ps hs)

pub parse_pak_path-IsComponent : (t : Text) → All IsComponent (parse_pak_path t)
parse_pak_path-IsComponent t =
    rw parse_pak_path-non_empty (non_empty-IsComponent (split b'/' t) (split-NoSlash t))

-- A component in front of a slash, or of the end.
split-component :
    (p t : Text) (ps : List Text)
    → NoSlash p
    → split b'/' t ≡ [] ∷ ps
    → split b'/' (p ++ t) ≡ p ∷ ps
unfolding split
split-component [] t ps h e = e
split-component (c ∷ p) t ps (h, hs) e = rw (h, split-component p t ps hs e)

split-with_slashes : (ps : List Text) → All IsComponent ps → split b'/' (with_slashes ps) ≡ [] ∷ ps
unfolding with_slashes split
split-with_slashes [] h = refl
split-with_slashes (p ∷ ps) (h, hs) =
    ap (λ parts. split_cons b'/' parts)
      (split-component p (with_slashes ps) ps h.1 (split-with_slashes ps hs))

non_empty_id : (ps : List Text) → All IsComponent ps → non_empty ps ≡ ps
unfolding non_empty
non_empty_id [] h = refl
non_empty_id (p ∷ ps) (h, hs) = rw (h.0, non_empty_id ps hs)

-- Components that are joined are found again, none at all included.
pub parse_pak_path-make_pak_path :
    (ps : List Text) → All IsComponent ps → parse_pak_path (make_pak_path ps) ≡ ps
unfolding make_pak_path
parse_pak_path-make_pak_path [] h = unfold parse_pak_path in refl
parse_pak_path-make_pak_path (p ∷ ps) (h, hs) =
    rw
      (
        parse_pak_path-non_empty,
        split-component p (with_slashes ps) ps h.1 (split-with_slashes ps hs),
      )
      (non_empty_id (p ∷ ps) (h, hs))
