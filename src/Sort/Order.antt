-- ===== src/Sort/Order.antt =====
-- src/bin/u4pak/sort.rs: the laws of a comparison, for those of `to_cmp` and `make_chain`.
use Prim.Native.Nat.{compare, Ordering}
use rust_u4pak.Common.{arith, Option, none, some, List, [], ◌∷◌, ◌≡◌, ◌⊎◌, inl, inr, refl, Bytes}
use rust_u4pak.Record.{Record}
use rust_u4pak.Sort.{
  SortKey, name, offset, size, compr_method, uncompr_size, compr_block_size, timestamp, encrypted,
  rev_name, rev_offset, rev_size, rev_compr_method, rev_uncompr_size, rev_compr_block_size,
  rev_timestamp, rev_encrypted, Comparison, or_else, cmp_str, cmp_bool, cmp_option, to_cmp, chain,
  make_chain,
}

-- `Ordering::reverse`.
abbrev pub reverse : Ordering → Ordering
reverse Ordering.lt = Ordering.gt
reverse Ordering.eq = Ordering.eq
reverse Ordering.gt = Ordering.lt

pub Ordering-cases : (o : Ordering) → (o ≡ Ordering.lt) ⊎ ((o ≡ Ordering.eq) ⊎ (o ≡ Ordering.gt))
Ordering-cases Ordering.lt = inl refl
Ordering-cases Ordering.eq = inr (inl refl)
Ordering-cases Ordering.gt = inr (inr refl)

-- What `sort_by` asks of its comparison: a total preorder.
pub record IsOrder {A : Type 0} (cmp : Comparison A) : Type 0 where
  pub reversed : (a b : A) → cmp b a ≡ reverse (cmp a b)
  pub same : (a b c : A) → cmp a b ≡ Ordering.eq → cmp a c ≡ cmp b c
  pub trans : (a b c : A) → cmp a b ≡ Ordering.lt → cmp b c ≡ Ordering.lt → cmp a c ≡ Ordering.lt

compare-IsOrder : IsOrder compare
compare-IsOrder = record {
  reversed = λ a b. ground arith;
  same = λ a b c h. ground arith;
  trans = λ a b c h k. ground arith;
}

or_else-reverse : (o p : Ordering) → or_else (reverse o) (reverse p) ≡ reverse (or_else o p)
or_else-reverse Ordering.lt p = refl
or_else-reverse Ordering.eq p = refl
or_else-reverse Ordering.gt p = refl

or_else-eq : (o p : Ordering) → or_else o p ≡ Ordering.eq → (o ≡ Ordering.eq) × (p ≡ Ordering.eq)
or_else-eq Ordering.eq p h = (refl, h)
or_else-eq Ordering.lt p h = cc
or_else-eq Ordering.gt p h = cc

-- Two orders, the second where the first finds no difference.
lex_trans :
    (ab bc ac p q r : Ordering)
    → (ab ≡ Ordering.eq → ac ≡ bc)
    → (bc ≡ Ordering.eq → ac ≡ ab)
    → (ab ≡ Ordering.lt → bc ≡ Ordering.lt → ac ≡ Ordering.lt)
    → (p ≡ Ordering.lt → q ≡ Ordering.lt → r ≡ Ordering.lt)
    → or_else ab p ≡ Ordering.lt
    → or_else bc q ≡ Ordering.lt
    → or_else ac r ≡ Ordering.lt
lex_trans Ordering.lt Ordering.lt ac p q r le ri st sn h k = rw (st refl refl) refl
lex_trans Ordering.lt Ordering.eq ac p q r le ri st sn h k = rw (ri refl) refl
lex_trans Ordering.lt Ordering.gt ac p q r le ri st sn h k = cc
lex_trans Ordering.eq Ordering.lt ac p q r le ri st sn h k = rw (le refl) refl
lex_trans Ordering.eq Ordering.eq ac p q r le ri st sn h k = rw (le refl) (sn h k)
lex_trans Ordering.eq Ordering.gt ac p q r le ri st sn h k = cc
lex_trans Ordering.gt bc ac p q r le ri st sn h k = cc

module _ {A : Type 0} {cmp : Comparison A} (o : IsOrder cmp) where
  pub same_right : (a b c : A) → cmp b c ≡ Ordering.eq → cmp a c ≡ cmp a b
  same_right a b c h =
      rw (o.reversed c a, o.same c b a (rw (o.reversed b c, h) refl), ← o.reversed b a) refl

  chain-IsOrder : {cmp2 : Comparison A} → IsOrder cmp2 → IsOrder (chain cmp cmp2)
  unfolding chain
  chain-IsOrder {cmp2} o2 = record {
    reversed = λ a b. rw (o.reversed a b, o2.reversed a b) (or_else-reverse (cmp a b) (cmp2 a b));
    same = λ a b c h.
        let both = or_else-eq (cmp a b) (cmp2 a b) h in
        rw (o.same a b c both.0, o2.same a b c both.1) refl;
    trans = λ a b c h k.
        lex_trans (cmp a b) (cmp b c) (cmp a c) (cmp2 a b) (cmp2 b c) (cmp2 a c) (o.same a b c)
          (same_right a b c) (o.trans a b c) (o2.trans a b c) h k;
  }

  option_reversed : (a b : Option A) → cmp_option cmp b a ≡ reverse (cmp_option cmp a b)
  unfolding cmp_option
  option_reversed none none = refl
  option_reversed none (some b) = refl
  option_reversed (some a) none = refl
  option_reversed (some a) (some b) = o.reversed a b

  option_same :
      (a b c : Option A)
      → cmp_option cmp a b ≡ Ordering.eq
      → cmp_option cmp a c ≡ cmp_option cmp b c
  unfolding cmp_option
  option_same none none c h = refl
  option_same none (some b) c h = cc
  option_same (some a) none c h = cc
  option_same (some a) (some b) none h = refl
  option_same (some a) (some b) (some c) h = o.same a b c h

  option_trans :
      (a b c : Option A)
      → cmp_option cmp a b ≡ Ordering.lt
      → cmp_option cmp b c ≡ Ordering.lt
      → cmp_option cmp a c ≡ Ordering.lt
  unfolding cmp_option
  option_trans none b (some c) h k = refl
  option_trans none none none h k = h
  option_trans none (some b) none h k = cc
  option_trans (some a) none c h k = cc
  option_trans (some a) (some b) none h k = cc
  option_trans (some a) (some b) (some c) h k = o.trans a b c h k

  cmp_option-IsOrder : IsOrder (cmp_option cmp)
  cmp_option-IsOrder = record {
    reversed = option_reversed;
    same = option_same;
    trans = option_trans;
  }

-- A comparison of what `f` gives, and one the other way round.
pull-IsOrder :
    {A B : Type 0} (f : A → B) {cmp : Comparison B} → IsOrder cmp → IsOrder (λ a b. cmp (f a) (f b))
pull-IsOrder f o = record {
  reversed = λ a b. o.reversed (f a) (f b);
  same = λ a b c. o.same (f a) (f b) (f c);
  trans = λ a b c. o.trans (f a) (f b) (f c);
}

flip-IsOrder : {A : Type 0} {cmp : Comparison A} → IsOrder cmp → IsOrder (λ a b. cmp b a)
flip-IsOrder {cmp} o = record {
  reversed = λ a b. o.reversed b a;
  same = λ a b c h. same_right o c b a h;
  trans = λ a b c h k. o.trans c b a k h;
}

cmp_bool-IsOrder : IsOrder cmp_bool
unfolding cmp_bool
cmp_bool-IsOrder = record {
  reversed = λ a b. ground arith;
  same = λ a b c h. ground arith;
  trans = λ a b c h k. ground arith;
}

bytes_reversed : (a b : Bytes) → cmp_str b a ≡ reverse (cmp_str a b)
unfolding cmp_str
bytes_reversed [] [] = refl
bytes_reversed [] (y ∷ ys) = refl
bytes_reversed (x ∷ xs) [] = refl
bytes_reversed (x ∷ xs) (y ∷ ys) =
    rw (compare-IsOrder.reversed x y, bytes_reversed xs ys)
      (or_else-reverse (compare x y) (cmp_str xs ys))

bytes_same : (a b c : Bytes) → cmp_str a b ≡ Ordering.eq → cmp_str a c ≡ cmp_str b c
unfolding cmp_str
bytes_same [] [] c h = refl
bytes_same [] (y ∷ ys) c h = cc
bytes_same (x ∷ xs) [] c h = cc
bytes_same (x ∷ xs) (y ∷ ys) [] h = refl
bytes_same (x ∷ xs) (y ∷ ys) (z ∷ zs) h =
    let both = or_else-eq (compare x y) (cmp_str xs ys) h in
    rw (compare-IsOrder.same x y z both.0, bytes_same xs ys zs both.1) refl

bytes_trans :
    (a b c : Bytes)
    → cmp_str a b ≡ Ordering.lt
    → cmp_str b c ≡ Ordering.lt
    → cmp_str a c ≡ Ordering.lt
unfolding cmp_str
bytes_trans [] b (z ∷ zs) h k = refl
bytes_trans [] [] [] h k = h
bytes_trans [] (y ∷ ys) [] h k = cc
bytes_trans (x ∷ xs) [] c h k = cc
bytes_trans (x ∷ xs) (y ∷ ys) [] h k = cc
bytes_trans (x ∷ xs) (y ∷ ys) (z ∷ zs) h k =
    lex_trans (compare x y) (compare y z) (compare x z) (cmp_str xs ys) (cmp_str ys zs)
      (cmp_str xs zs) (compare-IsOrder.same x y z) (same_right compare-IsOrder x y z)
      (compare-IsOrder.trans x y z) (bytes_trans xs ys zs) h k

cmp_str-IsOrder : IsOrder cmp_str
cmp_str-IsOrder = record { reversed = bytes_reversed; same = bytes_same; trans = bytes_trans }

pub to_cmp-IsOrder : (key : SortKey) → IsOrder (to_cmp key)
unfolding to_cmp
to_cmp-IsOrder name = pull-IsOrder (λ r. r.filename) cmp_str-IsOrder
to_cmp-IsOrder size = pull-IsOrder (λ r. r.size) compare-IsOrder
to_cmp-IsOrder offset = pull-IsOrder (λ r. r.offset) compare-IsOrder
to_cmp-IsOrder compr_method = pull-IsOrder (λ r. r.compression_method) compare-IsOrder
to_cmp-IsOrder uncompr_size = pull-IsOrder (λ r. r.uncompressed_size) compare-IsOrder
to_cmp-IsOrder compr_block_size = pull-IsOrder (λ r. r.compression_block_size) compare-IsOrder
to_cmp-IsOrder timestamp = pull-IsOrder (λ r. r.timestamp) (cmp_option-IsOrder compare-IsOrder)
to_cmp-IsOrder encrypted = pull-IsOrder (λ r. r.encrypted) cmp_bool-IsOrder
to_cmp-IsOrder rev_name = flip-IsOrder (pull-IsOrder (λ r. r.filename) cmp_str-IsOrder)
to_cmp-IsOrder rev_size = flip-IsOrder (pull-IsOrder (λ r. r.size) compare-IsOrder)
to_cmp-IsOrder rev_offset = flip-IsOrder (pull-IsOrder (λ r. r.offset) compare-IsOrder)
to_cmp-IsOrder rev_compr_method =
    flip-IsOrder (pull-IsOrder (λ r. r.compression_method) compare-IsOrder)
to_cmp-IsOrder rev_uncompr_size =
    flip-IsOrder (pull-IsOrder (λ r. r.uncompressed_size) compare-IsOrder)
to_cmp-IsOrder rev_compr_block_size =
    flip-IsOrder (pull-IsOrder (λ r. r.compression_block_size) compare-IsOrder)
to_cmp-IsOrder rev_timestamp =
    flip-IsOrder (pull-IsOrder (λ r. r.timestamp) (cmp_option-IsOrder compare-IsOrder))
to_cmp-IsOrder rev_encrypted = flip-IsOrder (pull-IsOrder (λ r. r.encrypted) cmp_bool-IsOrder)

pub make_chain-IsOrder :
    (cmp : Comparison Record) (keys : List SortKey) → IsOrder cmp → IsOrder (make_chain cmp keys)
unfolding make_chain
make_chain-IsOrder cmp [] o = o
make_chain-IsOrder cmp (key ∷ keys) o =
    make_chain-IsOrder (chain cmp (to_cmp key)) keys (chain-IsOrder o (to_cmp-IsOrder key))
