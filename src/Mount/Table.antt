-- ===== src/Mount/Table.antt =====
-- src/mount.rs: the table of inodes after a change in place and one inode more.
use rust_u4pak.Common.{
  ℕ, zero, suc, ◌≡◌, ◌≢◌, ◌⊎◌, inl, inr, refl, ap, arith, some, List, [], ◌∷◌, ◌++◌, length,
}
use rust_u4pak.Mount.Inode.{INode, get_elem?, set, node_at}

some_inj {ℓ} : {A : Type ℓ} {a b : A} → some a ≡ some b → a ≡ b
some_inj h = cc

module _ {ℓ} {A : Type ℓ} where
  length-set : (l : List A) (i : ℕ) (b : A) → length (set l i b) ≡ length l
  unfolding set
  length-set [] i b = refl
  length-set (x ∷ l) zero b = refl
  length-set (x ∷ l) (suc i) b = ap suc (length-set l i b)

  get_elem?-set :
      (l : List A) (i : ℕ) (a b : A) (rest : List A)
      → get_elem? l i ≡ some a
      → get_elem? (set l i b ++ rest) i ≡ some b
  unfolding set get_elem?
  get_elem?-set [] i a b rest h = cc
  get_elem?-set (x ∷ l) zero a b rest h = refl
  get_elem?-set (x ∷ l) (suc i) a b rest h = get_elem?-set l i a b rest h

  get_elem?-length : (l : List A) (b : A) → get_elem? (l ++ (b ∷ [])) (length l) ≡ some b
  unfolding get_elem?
  get_elem?-length [] b = refl
  get_elem?-length (x ∷ l) b = get_elem?-length l b

  get_elem?-before :
      (l : List A) (j : ℕ) (m : A) (rest : List A)
      → get_elem? l j ≡ some m
      → get_elem? (l ++ rest) j ≡ some m
  unfolding get_elem?
  get_elem?-before [] j m rest h = cc
  get_elem?-before (x ∷ l) zero m rest h = h
  get_elem?-before (x ∷ l) (suc j) m rest h = get_elem?-before l j m rest h

  get_elem?-other :
      (l : List A) (i j : ℕ) (m b : A) (rest : List A)
      → j ≢ i
      → get_elem? l j ≡ some m
      → get_elem? (set l i b ++ rest) j ≡ some m
  unfolding set get_elem?
  get_elem?-other [] i j m b rest ne h = cc
  get_elem?-other (x ∷ l) zero zero m b rest ne h = absurd (ne refl)
  get_elem?-other (x ∷ l) zero (suc j) m b rest ne h = get_elem?-before l j m rest h
  get_elem?-other (x ∷ l) (suc i) zero m b rest ne h = h
  get_elem?-other (x ∷ l) (suc i) (suc j) m b rest ne h =
      get_elem?-other l i j m b rest (λ e. ne (ap suc e)) h

  -- The element at a place of a list with one element more.
  get_elem?-snoc :
      (l : List A) (j : ℕ) (new m : A)
      → get_elem? (l ++ (new ∷ [])) j ≡ some m
      → ((j ≡ length l) × (new ≡ m)) ⊎ (get_elem? l j ≡ some m)
  unfolding get_elem?
  get_elem?-snoc [] zero new m h = inl (refl, some_inj h)
  get_elem?-snoc [] (suc j) new m h = cc
  get_elem?-snoc (x ∷ l) zero new m h = inr h
  get_elem?-snoc (x ∷ l) (suc j) new m h = elim (get_elem?-snoc l j new m h) [
    | inl (at_end, is) ↦ inl (ap suc at_end, is)
    | inr before ↦ inr before
  ]

  get_elem?-set-inv :
      (l : List A) (i j : ℕ) (b m : A)
      → get_elem? (set l i b) j ≡ some m
      → ((j ≡ i) × (b ≡ m)) ⊎ ((j ≢ i) × (get_elem? l j ≡ some m))
  unfolding set get_elem?
  get_elem?-set-inv [] i j b m h = cc
  get_elem?-set-inv (x ∷ l) zero zero b m h = inl (refl, some_inj h)
  get_elem?-set-inv (x ∷ l) zero (suc j) b m h = inr (λ e. omega arith, h)
  get_elem?-set-inv (x ∷ l) (suc i) zero b m h = inr (λ e. omega arith, h)
  get_elem?-set-inv (x ∷ l) (suc i) (suc j) b m h = elim (get_elem?-set-inv l i j b m h) [
    | inl (at_i, is) ↦ inl (ap suc at_i, is)
    | inr (ne, before) ↦ inr (λ e. ne (omega arith), before)
  ]

-- The table in which `node'` stands at `p` and `new` behind the others.
module _ (nodes : List INode) (p : ℕ) (node node' new : INode)
    (at_p : node_at nodes (suc p) ≡ some node) where
  abbrev pub changed : List INode
  changed = set nodes p node' ++ (new ∷ [])

  pub node_at-parent : node_at changed (suc p) ≡ some node'
  unfolding node_at
  node_at-parent = get_elem?-set nodes p node node' (new ∷ []) at_p

  pub node_at-new : node_at changed (suc (length nodes)) ≡ some new
  unfolding node_at
  node_at-new = rw (← length-set nodes p node') (get_elem?-length (set nodes p node') new)

  pub node_at-other :
      (j : ℕ) (m : INode) → j ≢ suc p → node_at nodes j ≡ some m → node_at changed j ≡ some m
  unfolding node_at
  node_at-other zero m ne h = cc
  node_at-other (suc j) m ne h = get_elem?-other nodes p j m node' (new ∷ []) (λ e. ne (ap suc e)) h

  pub node_at-changed :
      (j : ℕ) (m : INode)
      → node_at changed j ≡ some m
      → ((j ≡ suc p) × (node' ≡ m))
        ⊎ ((j ≡ suc (length nodes)) × (new ≡ m))
        ⊎ ((j ≢ suc p) × (node_at nodes j ≡ some m))
  unfolding node_at
  node_at-changed zero m h = cc
  node_at-changed (suc j) m h = elim (get_elem?-snoc (set nodes p node') j new m h) [
    | inl (at_end, is) ↦ inr (inl (ap suc (rw (length-set nodes p node') at at_end), is))
    | inr before ↦ elim (get_elem?-set-inv nodes p j node' m before) [
      | inl (at_p', is) ↦ inl (ap suc at_p', is)
      | inr (ne, old) ↦ inr (inr (λ e. ne (omega arith), old))
    ]
  ]
