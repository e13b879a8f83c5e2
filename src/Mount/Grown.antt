-- ===== src/Mount/Grown.antt =====
-- src/mount.rs: the tree after an entry is added to a directory, with its inode.
use rust_u4pak.Common.{
  ℕ, suc, ◌≡◌, ◌≢◌, ◌∙◌, ◌⊎◌, inl, inr, refl, sym, ap, arith, Bool-cases, ◌==◌, none, some, List,
  [], ◌∷◌, ◌++◌, length, bytes_eq, bytes_eq_refl,
}
use rust_u4pak.Text.{Text}
use rust_u4pak.Mount.Inode.{INode, FileData, file, dir, Children, child, node_at}
use rust_u4pak.Mount.Table.{changed, node_at-parent, node_at-new, node_at-other, node_at-changed}
use rust_u4pak.Mount.Invariant.{kind_of, IsNode, IsTree, Grows, Grows-refl, Extends}

-- An entry behind the others.
child-old :
    (cs : Children) (name key : Text) (c d : ℕ)
    → child cs key ≡ some d
    → child (cs ++ ((name, c) ∷ [])) key ≡ some d
unfolding child
child-old [] name key c d h = cc
child-old ((n, e) ∷ cs) name key c d h = elim (Bool-cases (bytes_eq key n)) [
  | inl hit ↦ rw hit (rw hit at h)
  | inr miss ↦ rw miss (child-old cs name key c d (rw miss at h))
]

child-new :
    (cs : Children) (name : Text) (c : ℕ)
    → child cs name ≡ none
    → child (cs ++ ((name, c) ∷ [])) name ≡ some c
unfolding child
child-new [] name c h = rw (bytes_eq_refl name)
child-new ((n, e) ∷ cs) name c h = elim (Bool-cases (bytes_eq name n)) [
  | inl hit ↦ absurd (let impossible = rw hit at h in cc)
  | inr miss ↦ rw miss (child-new cs name c (rw miss at h))
]

child-cases :
    (cs : Children) (name key : Text) (c d : ℕ)
    → child (cs ++ ((name, c) ∷ [])) key ≡ some d
    → (c ≡ d) ⊎ (child cs key ≡ some d)
unfolding child
child-cases [] name key c d h = elim (Bool-cases (bytes_eq key name)) [
  | inl hit ↦ inl (let same = rw hit at h in cc)
  | inr miss ↦ absurd (let impossible = rw miss at h in cc)
]
child-cases ((n, e) ∷ cs) name key c d h = elim (Bool-cases (bytes_eq key n)) [
  | inl hit ↦ inr (rw hit (rw hit at h))
  | inr miss ↦ elim (child-cases cs name key c d (rw miss at h)) [
    | inl same ↦ inl same
    | inr old ↦ inr (rw miss old)
  ]
]

-- A directory with an entry more.
pub record IsGrown (cs : Children) (name : Text) (number : ℕ) (node node' : INode) : Type 0 where
  pub contents_is : node'.contents ≡ dir (cs ++ ((name, number) ∷ []))
  pub parent_is : node'.parent ≡ node.parent
  pub inode_is : node'.inode ≡ node.inode
  pub ino_is : node'.stat.ino ≡ node.stat.ino
  pub kind_same : node'.stat.kind ≡ node.stat.kind

-- The inode of a new entry: a file, or a directory without entries.
pub record IsLeaf (parent number : ℕ) (new : INode) : Type 0 where
  pub in_parent : new.parent ≡ parent
  pub numbered : new.inode ≡ number
  pub ino_numbered : new.stat.ino ≡ number
  pub kind_fits : new.stat.kind ≡ kind_of new.contents
  pub leaf : ((f : FileData) × (new.contents ≡ file f)) ⊎ (new.contents ≡ dir [])

pub no_child :
    (new : INode) (cs : Children) (name : Text) (c : ℕ)
    → ((f : FileData) × (new.contents ≡ file f)) ⊎ (new.contents ≡ dir [])
    → new.contents ≡ dir cs
    → child cs name ≢ some c
unfolding child
no_child new cs name c (inl (f, is)) h e = cc
no_child new [] name c (inr is) h e = cc
no_child new (k ∷ cs) name c (inr is) h e = cc

module _ (nodes : List INode) (p : ℕ) (node node' new : INode) (cs : Children) (name : Text)
    (at_p : node_at nodes (suc p) ≡ some node) (is_dir : node.contents ≡ dir cs)
    (free : child cs name ≡ none) (grown : IsGrown cs name (suc (length nodes)) node node')
    (leaf : IsLeaf (suc p) (suc (length nodes)) new) where
  abbrev nodes' : List INode
  nodes' = changed nodes p node node' new at_p

  grown-Grows : Grows node node'
  grown-Grows = record {
    same_parent = grown.parent_is;
    of_file = λ f e. absurd (let clash = sym is_dir ∙ e in cc);
    of_dir = λ es e. (
      cs ++ ((name, suc (length nodes)) ∷ []),
      grown.contents_is,
      λ key c h.
          child-old cs name key (suc (length nodes)) c
            (let same : dir es ≡ dir cs = sym e ∙ is_dir in cc),
    );
  }

  pub changed-Extends : Extends nodes nodes'
  changed-Extends i n h = elim (Bool-cases (i == suc p)) [
    | inl here ↦
        let at_i : i ≡ suc p = ground (arith, here) in
        let same : n ≡ node = cc in
        (node', rw at_i (node_at-parent nodes p node node' new at_p), rw same grown-Grows)
    | inr other ↦ (
      n,
      node_at-other nodes p node node' new at_p i n (λ e. ground (arith, e, other)) h,
      Grows-refl n,
    )
  ]

  still_dir :
      (i j : ℕ)
      → j ≡ i
      → (m : INode) × (ds : Children) × (node_at nodes i ≡ some m) × (m.contents ≡ dir ds)
      → (m : INode) × (ds : Children) × (node_at nodes' j ≡ some m) × (m.contents ≡ dir ds)
  still_dir i j same (m, ds, at_i, is) =
      let (m', at_i', grows) = changed-Extends i m at_i in
      let (es, is', keep) = grows.of_dir ds is in (m', es, rw same at_i', is')

  changed-IsNode :
      IsTree nodes → (i : ℕ) (n : INode) → node_at nodes' i ≡ some n → IsNode nodes' i n
  changed-IsNode tree i n h = elim (node_at-changed nodes p node node' new at_p i n h) [
    | inl (here, same) ↦
        let old = tree.node (suc p) node at_p in
        rw (here, ← same)
          record {
            number = grown.inode_is ∙ old.number;
            stat_number = grown.ino_is ∙ old.stat_number;
            kind_is =
                grown.kind_same
                ∙ old.kind_is
                ∙ ap kind_of is_dir
                ∙ sym (ap kind_of grown.contents_is);
            up = still_dir node.parent node'.parent grown.parent_is old.up;
          }
    | inr (inl (here, same)) ↦
        rw (here, ← same)
          record {
            number = leaf.numbered;
            stat_number = leaf.ino_numbered;
            kind_is = leaf.kind_fits;
            up = still_dir (suc p) new.parent leaf.in_parent (node, cs, at_p, is_dir);
          }
    | inr (inr (ne, before)) ↦
        let old = tree.node i n before in
        record {
          number = old.number;
          stat_number = old.stat_number;
          kind_is = old.kind_is;
          up = still_dir n.parent n.parent refl old.up;
        }
  ]

  -- The parent that an entry's inode had, it has still.
  same_parent :
      (c i : ℕ)
      → (m : INode) × (node_at nodes c ≡ some m) × (m.parent ≡ i)
      → (m : INode) × (node_at nodes' c ≡ some m) × (m.parent ≡ i)
  same_parent c i (m, at_c, is) =
      let (m', at_c', grows) = changed-Extends c m at_c in (m', at_c', grows.same_parent ∙ is)

  changed-below :
      IsTree nodes
      → (i : ℕ) (n : INode) (ds : Children) (key : Text) (c : ℕ) → node_at nodes' i ≡ some n
      → n.contents ≡ dir ds
      → child ds key ≡ some c
      → (m : INode) × (node_at nodes' c ≡ some m) × (m.parent ≡ i)
  changed-below tree i n ds key c h is entry =
      elim (node_at-changed nodes p node node' new at_p i n h) [
        | inl (here, same) ↦
            let contents : dir ds ≡ dir (cs ++ ((name, suc (length nodes)) ∷ [])) =
              sym is ∙ ap (λ n. n.contents) (sym same) ∙ grown.contents_is in
            let entry' : child (cs ++ ((name, suc (length nodes)) ∷ [])) key ≡ some c = cc in
            elim (child-cases cs name key (suc (length nodes)) c entry') [
              | inl last ↦ (
                new,
                rw (← last) (node_at-new nodes p node node' new at_p),
                leaf.in_parent ∙ sym here,
              )
              | inr old ↦
                  same_parent c i (rw here (tree.below (suc p) node cs key c at_p is_dir old))
            ]
        | inr (inl (here, same)) ↦
            absurd (no_child new ds key c leaf.leaf (ap (λ n. n.contents) same ∙ is) entry)
        | inr (inr (ne, before)) ↦ same_parent c i (tree.below i n ds key c before is entry)
      ]

  changed-root :
      IsTree nodes
      → (n : INode) × (ds : Children) × (node_at nodes' 1 ≡ some n)
        × (n.contents ≡ dir ds)
        × (n.parent ≡ 1)
  changed-root tree =
      let (n, ds, at_root, is, up) = tree.root in
      let (n', at_root', grows) = changed-Extends 1 n at_root in
      let (es, is', keep) = grows.of_dir ds is in (n', es, at_root', is', grows.same_parent ∙ up)

  pub changed-IsTree : IsTree nodes → IsTree nodes'
  changed-IsTree tree = record {
    node = changed-IsNode tree;
    below = changed-below tree;
    root = changed-root tree;
  }

  -- The entry leads to the inode.
  pub changed-finds :
      (m : INode) × (ds : Children) × (node_at nodes' (suc p) ≡ some m)
      × (m.contents ≡ dir ds)
      × (child ds name ≡ some (suc (length nodes)))
  changed-finds = (
    node',
    cs ++ ((name, suc (length nodes)) ∷ []),
    node_at-parent nodes p node node' new at_p,
    grown.contents_is,
    child-new cs name (suc (length nodes)) free,
  )
