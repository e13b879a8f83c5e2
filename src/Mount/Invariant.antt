-- ===== src/Mount/Invariant.antt =====
-- src/mount.rs: the tree that the inodes form, and what it keeps when an entry is added.
use rust_u4pak.Common.{ℕ, ◌≡◌, ◌∙◌, refl, ap, some, List}
use rust_u4pak.Text.{Text}
use rust_u4pak.Mount.Inode.{
  INode, INodeData, FileData, FileType, directory, regular_file, file, dir, Children, child,
  node_at,
}

abbrev pub kind_of : INodeData → FileType
kind_of (file f) = regular_file
kind_of (dir cs) = directory

-- A node with its number, whose parent is a directory.
pub record IsNode (nodes : List INode) (i : ℕ) (n : INode) : Type 0 where
  pub number : n.inode ≡ i
  pub stat_number : n.stat.ino ≡ i
  pub kind_is : n.stat.kind ≡ kind_of n.contents
  pub up : (m : INode) × (cs : Children) × (node_at nodes n.parent ≡ some m) × (m.contents ≡ dir cs)

-- The inodes are numbered, each stands in a directory, and each entry of a directory leads to an
-- inode that has the directory as its parent.
pub record IsTree (nodes : List INode) : Type 0 where
  pub node : (i : ℕ) (n : INode) → node_at nodes i ≡ some n → IsNode nodes i n
  pub below :
      (i : ℕ) (n : INode) (cs : Children) (name : Text) (c : ℕ)
      → node_at nodes i ≡ some n
      → n.contents ≡ dir cs
      → child cs name ≡ some c
      → (m : INode) × (node_at nodes c ≡ some m) × (m.parent ≡ i)
  pub root :
      (n : INode) × (cs : Children) × (node_at nodes 1 ≡ some n)
      × (n.contents ≡ dir cs)
      × (n.parent ≡ 1)

-- What later inserts keep of a node: a file as it is, of a directory its place and its entries.
pub record Grows (n n' : INode) : Type 0 where
  pub same_parent : n'.parent ≡ n.parent
  pub of_file : (f : FileData) → n.contents ≡ file f → n' ≡ n
  pub of_dir :
      (cs : Children)
      → n.contents ≡ dir cs
      → (ds : Children) × (n'.contents ≡ dir ds)
        × ((name : Text) (c : ℕ) → child cs name ≡ some c → child ds name ≡ some c)

abbrev pub Extends : List INode → List INode → Type 0
Extends nodes nodes' =
    (i : ℕ) (n : INode)
    → node_at nodes i ≡ some n
    → (n' : INode) × (node_at nodes' i ≡ some n') × Grows n n'

pub Grows-refl : (n : INode) → Grows n n
Grows-refl n = record {
  same_parent = refl;
  of_file = λ f e. refl;
  of_dir = λ cs e. (cs, e, λ name c h. h);
}

pub Extends-refl : (nodes : List INode) → Extends nodes nodes
Extends-refl nodes i n h = (n, h, Grows-refl n)

Grows-trans : (a b c : INode) → Grows a b → Grows b c → Grows a c
Grows-trans a b c g h = record {
  same_parent = h.same_parent ∙ g.same_parent;
  of_file = λ f e. let same = g.of_file f e in h.of_file f (ap (λ n. n.contents) same ∙ e) ∙ same;
  of_dir = λ cs e.
      let (ds, at_b, keep) = g.of_dir cs e in
      let (es, at_c, keep') = h.of_dir ds at_b in
      (es, at_c, λ name m k. keep' name m (keep name m k));
}

pub Extends-trans : (a b c : List INode) → Extends a b → Extends b c → Extends a c
Extends-trans a b c f g i n h =
    let (n', at_b, grows) = f i n h in
    let (n'', at_c, grows') = g i n' at_b in (n'', at_c, Grows-trans n n' n'' grows grows')
