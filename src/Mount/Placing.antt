-- ===== src/Mount/Placing.antt =====
-- src/mount.rs: what `insert` does to the tree, whether it succeeds or not.
use rust_u4pak.Common.{
  ℕ, zero, suc, ◌-◌, ◌≡◌, ◌⊎◌, inl, inr, refl, arith, Option-cases, none, some, [], ◌∷◌, ◌++◌,
  length,
}
use rust_u4pak.Io.{Outcome, ok, err, not_a_directory}
use rust_u4pak.Text.{Text}
use rust_u4pak.Mount.Inode.{
  INode, INodeData, FileData, file, dir, Children, U4pakFs, child, get, node_at, next_inode,
  dir_attr, grown,
}
use rust_u4pak.Mount.Insert.{with_entry, enter}
use rust_u4pak.Mount.Table.{node_at-new}
use rust_u4pak.Mount.Invariant.{IsTree, Extends, Extends-refl, Extends-trans}
use rust_u4pak.Mount.Grown.{IsGrown, IsLeaf, changed-IsTree, changed-Extends, changed-finds}
use rust_u4pak.Mount.Reaches.{IsFileAt, Exists, IsEntry}

-- A tree that has all of the tree of `fs`.
pub record IsLater (fs fs' : U4pakFs) : Type 0 where
  pub tree : IsTree fs'.inodes
  pub extends : Extends fs.inodes fs'.inodes

pub IsLater-refl : (fs : U4pakFs) → IsTree fs.inodes → IsLater fs fs
IsLater-refl fs t = record { tree = t; extends = Extends-refl fs.inodes }

pub IsLater-trans : (a b c : U4pakFs) → IsLater a b → IsLater b c → IsLater a c
IsLater-trans a b c f g = record {
  tree = g.tree;
  extends = Extends-trans a.inodes b.inodes c.inodes f.extends g.extends;
}

-- A leaf that is entered under a free name.
module _ (fs : U4pakFs) (p : ℕ) (node new : INode) (cs : Children) (name : Text)
    (at_p : get fs (suc p) ≡ some node) (is_dir : node.contents ≡ dir cs)
    (free : child cs name ≡ none) (leaf : IsLeaf (suc p) (suc (length fs.inodes)) new)
    (tree : IsTree fs.inodes) where
  abbrev node_with : INode
  node_with = record node {
    contents = dir (cs ++ ((name, next_inode fs) ∷ []));
    stat = grown fs.blksize name node.stat;
  }

  node_with-IsGrown : IsGrown cs name (suc (length fs.inodes)) node node_with
  node_with-IsGrown = record {
    contents_is = refl;
    parent_is = refl;
    inode_is = refl;
    ino_is = refl;
    kind_same = refl;
  }

  before_suc : suc p - 1 ≡ p
  before_suc = omega arith

  at_node : node_at fs.inodes (suc p) ≡ some node
  unfolding get
  at_node = at_p

  pub with_entry-IsLater : IsLater fs (with_entry fs (suc p) node cs name new)
  with_entry-IsLater = record {
    tree = rw before_suc (
        changed-IsTree fs.inodes p node node_with new cs name at_node is_dir free node_with-IsGrown
          leaf tree);
    extends = rw before_suc (
        changed-Extends fs.inodes p node node_with new cs name at_node is_dir free node_with-IsGrown
          leaf);
  }

  pub with_entry-IsEntry :
      IsEntry (with_entry fs (suc p) node cs name new).inodes (suc p) name (next_inode fs)
  with_entry-IsEntry =
      let (m, ds, at_m, is, entry) =
        changed-finds fs.inodes p node node_with new cs name at_node is_dir free node_with-IsGrown
          leaf in
      record { node = m; children = ds; at = rw before_suc at_m; is_dir = is; entry = entry }

  pub with_entry-new : get (with_entry fs (suc p) node cs name new) (next_inode fs) ≡ some new
  unfolding get
  with_entry-new = rw before_suc (node_at-new fs.inodes p node node_with new at_node)

-- What a step that leads from `p` to `c` by `name` leaves.
abbrev pub Enters : U4pakFs → ℕ → Text → Outcome U4pakFs ℕ → Type 0
Enters fs p name (ok c fs') = IsLater fs fs' × Exists fs'.inodes c × IsEntry fs'.inodes p name c
Enters fs p name (err e fs') = IsLater fs fs' × (e ≡ not_a_directory) × IsFileAt fs'.inodes p

-- The directory that `enter` makes.
abbrev pub made_dir : U4pakFs → ℕ → INode
made_dir fs p = record {
  parent = p;
  inode = next_inode fs;
  contents = dir [];
  stat = dir_attr fs (next_inode fs);
}

Enters-free :
    (fs : U4pakFs) (p : ℕ) (node : INode) (cs : Children) (name : Text)
    → get fs p ≡ some node
    → node.contents ≡ dir cs
    → child cs name ≡ none
    → IsTree fs.inodes
    → Enters fs p name (ok (next_inode fs) (with_entry fs p node cs name (made_dir fs p)))
unfolding get node_at
Enters-free fs zero node cs name at_p is_dir free tree = cc
Enters-free fs (suc p) node cs name at_p is_dir free tree =
    let leaf : IsLeaf (suc p) (suc (length fs.inodes)) (made_dir fs (suc p)) = record {
      in_parent = refl;
      numbered = refl;
      ino_numbered = refl;
      kind_fits = refl;
      leaf = inr refl;
    } in
    (
      with_entry-IsLater fs p node (made_dir fs (suc p)) cs name at_p is_dir free leaf tree,
      (
        made_dir fs (suc p),
        with_entry-new fs p node (made_dir fs (suc p)) cs name at_p is_dir free leaf tree,
      ),
      with_entry-IsEntry fs p node (made_dir fs (suc p)) cs name at_p is_dir free leaf tree,
    )

Enters-taken :
    (fs : U4pakFs) (p : ℕ) (node : INode) (cs : Children) (name : Text) (c : ℕ)
    → get fs p ≡ some node
    → node.contents ≡ dir cs
    → child cs name ≡ some c
    → IsTree fs.inodes
    → Enters fs p name (ok c fs)
unfolding get
Enters-taken fs p node cs name c at_p is_dir entry tree =
    let (m, at_c, up) = tree.below p node cs name c at_p is_dir entry in
    (
      IsLater-refl fs tree,
      (m, at_c),
      record { node = node; children = cs; at = at_p; is_dir = is_dir; entry = entry },
    )

pub INodeData-cases :
    (d : INodeData) → ((f : FileData) × (d ≡ file f)) ⊎ ((cs : Children) × (d ≡ dir cs))
INodeData-cases (file f) = inl (f, refl)
INodeData-cases (dir cs) = inr (cs, refl)

pub enter-Enters :
    (fs : U4pakFs) (p : ℕ) (name : Text)
    → IsTree fs.inodes
    → Exists fs.inodes p
    → Enters fs p name (enter p name fs)
unfolding enter get
enter-Enters fs p name tree (node, at_p) = elim (INodeData-cases node.contents) [
  | inl (f, is) ↦ rw (at_p, enter) (rw is (IsLater-refl fs tree, refl, (node, f, at_p, is)))
  | inr (cs, is) ↦ elim (Option-cases (child cs name)) [
    | inl free ↦
        rw (at_p, enter) (rw is (rw free (Enters-free fs p node cs name at_p is free tree)))
    | inr (c, taken) ↦
        rw (at_p, enter) (rw is (rw taken (Enters-taken fs p node cs name c at_p is taken tree)))
  ]
]
