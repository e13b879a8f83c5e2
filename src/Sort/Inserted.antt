-- ===== src/Sort/Inserted.antt =====
-- src/bin/u4pak/sort.rs: the stable sort of slices that `sort` uses, for any order.
use Prim.Native.Nat.{Ordering}
use mathlib.Core.List.{Mem, Perm, Pairwise, Pairwise-singleton, forall_mem-cons}
use mathlib.Core.List.Perm
use rust_u4pak.Common.{
  Bool, true, false, Bool-cases, List, [], ◌∷◌, ◌≡◌, inl, inr, refl, if◌then◌else◌,
}
use rust_u4pak.Sort.{Comparison, is_greater, insert_by, sort_by}
use rust_u4pak.Sort.Order.{IsOrder, same_right, reverse}

abbrev is_equal : Ordering → Bool
is_equal Ordering.eq = true
is_equal _ = false

-- The elements that the comparison does not tell from `a`, in their order.
unfoldable pub equals : {A : Type 0} → Comparison A → A → List A → List A
equals cmp a [] = []
equals cmp a (x ∷ xs) = let rest = equals cmp a xs in if is_equal (cmp a x) then x ∷ rest else rest

abbrev pub NotAfter : {A : Type 0} → Comparison A → A → A → Type 0
NotAfter cmp a b = is_greater (cmp a b) ≡ false

not_after_trans :
    (ab bc ac : Ordering)
    → (ab ≡ Ordering.eq → ac ≡ bc)
    → (bc ≡ Ordering.eq → ac ≡ ab)
    → (ab ≡ Ordering.lt → bc ≡ Ordering.lt → ac ≡ Ordering.lt)
    → is_greater ab ≡ false
    → is_greater bc ≡ false
    → is_greater ac ≡ false
not_after_trans Ordering.lt Ordering.lt ac le ri st h k = rw (st refl refl) refl
not_after_trans Ordering.lt Ordering.eq ac le ri st h k = rw (ri refl) refl
not_after_trans Ordering.eq bc ac le ri st h k = rw (le refl) k
not_after_trans Ordering.lt Ordering.gt ac le ri st h k = cc
not_after_trans Ordering.gt bc ac le ri st h k = cc

-- Of two elements that change places, at most one is equal to `a`.
swap_equals :
    {A : Type 0} (x y : A) (rest : List A) (ax ay xy : Ordering)
    → (ax ≡ Ordering.eq → ay ≡ xy)
    → is_greater xy ≡ true
    → (let with_x = if is_equal ax then x ∷ rest else rest in
        if is_equal ay then y ∷ with_x else with_x)
      ≡ (let with_y = if is_equal ay then y ∷ rest else rest in
          if is_equal ax then x ∷ with_y else with_y)
swap_equals x y rest Ordering.lt ay xy same h = refl
swap_equals x y rest Ordering.gt ay xy same h = refl
swap_equals x y rest Ordering.eq ay Ordering.gt same h = rw (same refl) refl
swap_equals x y rest Ordering.eq ay Ordering.lt same h = cc
swap_equals x y rest Ordering.eq ay Ordering.eq same h = cc

module _ {A : Type 0} {cmp : Comparison A} (o : IsOrder cmp) where
  insert_by-perm : (x : A) (l : List A) → Perm (insert_by cmp x l) (x ∷ l)
  unfolding insert_by
  insert_by-perm x [] = Perm.rfl
  insert_by-perm x (y ∷ ys) = elim (Bool-cases (is_greater (cmp x y))) [
    | inl h ↦ rw h (Perm.trans (Perm.cons y (insert_by-perm x ys)) (Perm.swap x y ys))
    | inr h ↦ rw h Perm.rfl
  ]

  pub sort_by-perm : (l : List A) → Perm (sort_by cmp l) l
  unfolding sort_by
  sort_by-perm [] = Perm.rfl
  sort_by-perm (x ∷ xs) =
      Perm.trans (insert_by-perm x (sort_by cmp xs)) (Perm.cons x (sort_by-perm xs))

  -- What is greater is so from both sides.
  NotAfter-flip : (x y : A) → is_greater (cmp x y) ≡ true → NotAfter cmp y x
  NotAfter-flip x y h = rw (o.reversed x y) (flipped (cmp x y) h)
    where
      flipped : (c : Ordering) → is_greater c ≡ true → is_greater (reverse c) ≡ false
      flipped Ordering.gt h = refl
      flipped Ordering.eq h = cc
      flipped Ordering.lt h = cc

  NotAfter-trans : (x y z : A) → NotAfter cmp x y → NotAfter cmp y z → NotAfter cmp x z
  NotAfter-trans x y z h k =
      not_after_trans (cmp x y) (cmp y z) (cmp x z) (o.same x y z) (same_right o x y z)
        (o.trans x y z) h k

  NotAfter-cons :
      (y x : A) {l : List A}
      → NotAfter cmp y x
      → ((z : A) → Mem z l → NotAfter cmp y z)
      → (z : A) → Mem z (x ∷ l)
      → NotAfter cmp y z
  NotAfter-cons y x h below = (forall_mem-cons λ z. hlevel).1 (h, below)

  NotAfter-perm :
      (y : A) {l r : List A}
      → Perm l r
      → ((z : A) → Mem z r → NotAfter cmp y z)
      → (z : A) → Mem z l
      → NotAfter cmp y z
  NotAfter-perm y p below z m = below z ((Perm.mem_iff p).0 m)

  NotAfter-head :
      (x y : A) (l : List A)
      → NotAfter cmp x y
      → ((z : A) → Mem z l → NotAfter cmp y z)
      → (z : A) → Mem z (y ∷ l)
      → NotAfter cmp x z
  NotAfter-head x y l h below = NotAfter-cons x y h λ z m. NotAfter-trans x y z h (below z m)

  insert_by-IsSorted :
      (x : A) {l : List A} → Pairwise (NotAfter cmp) l → Pairwise (NotAfter cmp) (insert_by cmp x l)
  unfolding insert_by
  insert_by-IsSorted x Pairwise.nil = Pairwise-singleton _ x
  insert_by-IsSorted x (Pairwise.cons {a = y} {l = ys} below s) =
      elim (Bool-cases (is_greater (cmp x y))) [
        | inl h ↦ rw h (
            Pairwise.cons
              (NotAfter-perm y (insert_by-perm x ys)
                (NotAfter-cons y x (NotAfter-flip x y h) below))
              (insert_by-IsSorted x s))
        | inr h ↦ rw h (Pairwise.cons (NotAfter-head x y ys h below) (Pairwise.cons below s))
      ]

  pub sort_by-IsSorted : (l : List A) → Pairwise (NotAfter cmp) (sort_by cmp l)
  unfolding sort_by
  sort_by-IsSorted [] = Pairwise.nil
  sort_by-IsSorted (x ∷ xs) = insert_by-IsSorted x (sort_by-IsSorted xs)

  equals-insert_by :
      (a x : A) (l : List A) → equals cmp a (insert_by cmp x l) ≡ equals cmp a (x ∷ l)
  unfolding equals insert_by
  equals-insert_by a x [] = refl
  equals-insert_by a x (y ∷ ys) = elim (Bool-cases (is_greater (cmp x y))) [
    | inl h ↦ rw h (
        rw (equals-insert_by a x ys)
          (swap_equals x y (equals cmp a ys) (cmp a x) (cmp a y) (cmp x y) (o.same a x y) h))
    | inr h ↦ rw h refl
  ]

  pub equals-sort_by : (a : A) (l : List A) → equals cmp a (sort_by cmp l) ≡ equals cmp a l
  unfolding equals sort_by
  equals-sort_by a [] = refl
  equals-sort_by a (x ∷ xs) = rw (equals-insert_by a x (sort_by cmp xs), equals-sort_by a xs) refl
