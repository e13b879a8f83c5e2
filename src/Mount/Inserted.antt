-- ===== src/Mount/Inserted.antt =====
-- src/mount.rs: what `insert` does to the tree, and where it puts a record.
use rust_u4pak.Common.{
  ℕ, zero, suc, ◌≡◌, ◌∙◌, inl, inr, ◌⊎◌, refl, sym, Option-cases, none, some, List, [], ◌∷◌, ◌++◌,
}
use rust_u4pak.Io.{Error, done, Outcome, ok, err, ◌>>=◌, not_a_directory, file_exists, empty_path}
use rust_u4pak.Results.{Result-cases}
use rust_u4pak.Text.{Text}
use rust_u4pak.PakPath.{parse_pak_path}
use rust_u4pak.Record.{Record}
use rust_u4pak.Index.Legacy.{Variant}
use rust_u4pak.Pak.{header_size}
use rust_u4pak.Mount.Inode.{
  fuse_root_id, INode, FileData, FileData, file, dir, Children, U4pakFs, child, get, node_at,
  next_inode, file_node, file_data,
}
use rust_u4pak.Mount.Insert.{with_entry, enter, enter_all, place}
use rust_u4pak.Mount.Invariant.{IsTree}
use rust_u4pak.Mount.Reaches.{
  IsBlocked, IsBlocked-cons, Exists, IsEntry, Reaches, IsEntry-Extends, Reaches-Extends,
  Reaches-snoc,
}
use rust_u4pak.Mount.Placing.{
  IsLater, IsLater-refl, IsLater-trans, Enters, enter-Enters, INodeData-cases, with_entry-IsLater,
  with_entry-IsEntry, with_entry-new,
}
use rust_u4pak.Mount.FileNode.{IsMountable, IsFileOf, file_node-done, file_node-IsFileOf}

-- What the way along directories leaves.
abbrev pub Walks : U4pakFs → ℕ → List Text → Outcome U4pakFs ℕ → Type 0
Walks fs p names (ok c fs') = IsLater fs fs' × Exists fs'.inodes c × Reaches fs'.inodes p names c
Walks fs p names (err e fs') = IsLater fs fs' × (e ≡ not_a_directory) × IsBlocked fs'.inodes p names

Walks-cons :
    (fs fs' : U4pakFs) (p c : ℕ) (name : Text) (names : List Text) (o : Outcome U4pakFs ℕ)
    → IsLater fs fs'
    → IsEntry fs'.inodes p name c
    → Walks fs' c names o
    → Walks fs p (name ∷ names) o
Walks-cons fs fs' p c name names (err e fs'') later entry (after, is, blocked) = (
  IsLater-trans fs fs' fs'' later after,
  is,
  IsBlocked-cons fs''.inodes p c name names
      (IsEntry-Extends fs'.inodes fs''.inodes after.extends p name c entry) blocked,
)
Walks-cons fs fs' p c name names (ok d fs'') later entry (after, there, way) = (
  IsLater-trans fs fs' fs'' later after,
  there,
  (c, IsEntry-Extends fs'.inodes fs''.inodes after.extends p name c entry, way),
)

Walks-enter :
    (fs : U4pakFs) (p : ℕ) (name : Text) (names : List Text) (o : Outcome U4pakFs ℕ)
    → Enters fs p name o
    → ((fs' : U4pakFs) (c : ℕ)
        → IsTree fs'.inodes
        → Exists fs'.inodes c
        → Walks fs' c names (enter_all names c fs'))
    → Walks fs p (name ∷ names) (◌>>=◌ (λ s. o) (enter_all names) fs)
Walks-enter fs p name names (err e fs') (later, is, at_file) rest = (
  later,
  is,
  record {
    before = [];
    next = name;
    behind = names;
    number = p;
    path_is = refl;
    way = refl;
    at_file = at_file;
  },
)
Walks-enter fs p name names (ok c fs') (later, there, entry) rest =
    Walks-cons fs fs' p c name names (enter_all names c fs') later entry
      (rest fs' c later.tree there)

pub enter_all-Walks :
    (names : List Text) (fs : U4pakFs) (p : ℕ)
    → IsTree fs.inodes
    → Exists fs.inodes p
    → Walks fs p names (enter_all names p fs)
unfolding enter_all
enter_all-Walks [] fs p tree there = (IsLater-refl fs tree, there, refl)
enter_all-Walks (name ∷ names) fs p tree there =
    Walks-enter fs p name names (enter p name fs) (enter-Enters fs p name tree there)
      (enter_all-Walks names)

-- The file of a record at the end of the path from the root.
pub record IsFound (version : ℕ) (variant : Variant) (fs : U4pakFs) (r : Record) : Type 0 where
  pub number : ℕ
  pub node : INode
  pub header : ℕ
  pub way : Reaches fs.inodes fuse_root_id (parse_pak_path r.filename) number
  pub at : get fs number ≡ some node
  pub header_is : header_size version variant r ≡ done header
  pub is_file : node.contents ≡ file (file_data version header r)
  pub size_is : node.stat.size ≡ r.uncompressed_size

-- Why a record whose inode could be made is refused.
abbrev pub Refuses : List INode → List Text → Error → Type 0
Refuses nodes path e =
    ((e ≡ not_a_directory) × IsBlocked nodes fuse_root_id path)
    ⊎ ((e ≡ file_exists) × (d : ℕ) × Reaches nodes fuse_root_id path d)
    ⊎ ((e ≡ empty_path) × (path ≡ []))

-- What the last step of an insert leaves.
abbrev pub Places : ℕ → Variant → Record → U4pakFs → Outcome U4pakFs ℕ → Type 0
Places version variant r fs (ok n fs') = IsLater fs fs' × IsFound version variant fs' r
Places version variant r fs (err e fs') =
    IsLater fs fs'
    × (IsMountable version variant r → Refuses fs'.inodes (parse_pak_path r.filename) e)

module _ (version : ℕ) (variant : Variant) (r : Record) (fs : U4pakFs) (names : List Text)
    (name : Text) (path_is : parse_pak_path r.filename ≡ names ++ (name ∷ []))
    (tree : IsTree fs.inodes) where
  Places-free :
      (p : ℕ) (node : INode) (cs : Children) (new : INode)
      → Reaches fs.inodes fuse_root_id names p
      → get fs p ≡ some node
      → node.contents ≡ dir cs
      → child cs name ≡ none
      → IsFileOf version variant fs p r new
      → Places version variant r fs (ok 0 (with_entry fs p node cs name new))
  unfolding get node_at
  Places-free zero node cs new way at_p is_dir free is_new = cc
  Places-free (suc p) node cs new way at_p is_dir free is_new =
      let later = with_entry-IsLater fs p node new cs name at_p is_dir free is_new.leaf tree in
      let entry = with_entry-IsEntry fs p node new cs name at_p is_dir free is_new.leaf tree in
      let fs' = with_entry fs (suc p) node cs name new in
      (
        later,
        record {
          number = next_inode fs;
          node = new;
          header = is_new.header;
          way = rw path_is (
              Reaches-snoc fs'.inodes fuse_root_id names (suc p) name (next_inode fs)
                (Reaches-Extends fs.inodes fs'.inodes later.extends fuse_root_id names (suc p) way)
                entry);
          at = with_entry-new fs p node new cs name at_p is_dir free is_new.leaf tree;
          header_is = is_new.header_is;
          is_file = is_new.is_file;
          size_is = is_new.size_is;
        },
      )

  blocked :
      (node : INode) (f : FileData) (p : ℕ)
      → Reaches fs.inodes fuse_root_id names p
      → node_at fs.inodes p ≡ some node
      → node.contents ≡ file f
      → IsBlocked fs.inodes fuse_root_id (parse_pak_path r.filename)
  blocked node f p way at_p is = record {
    before = names;
    next = name;
    behind = [];
    number = p;
    path_is = path_is;
    way = way;
    at_file = (node, f, at_p, is);
  }

  there :
      (node : INode) (cs : Children) (c p : ℕ)
      → Reaches fs.inodes fuse_root_id names p
      → node_at fs.inodes p ≡ some node
      → node.contents ≡ dir cs
      → child cs name ≡ some c
      → Reaches fs.inodes fuse_root_id (parse_pak_path r.filename) c
  there node cs c p way at_p is taken = rw path_is (
      Reaches-snoc fs.inodes fuse_root_id names p name c way
        record { node = node; children = cs; at = at_p; is_dir = is; entry = taken })

  pub place-Places :
      (p : ℕ)
      → Exists fs.inodes p
      → Reaches fs.inodes fuse_root_id names p
      → Places version variant r fs (place variant version r name p fs)
  unfolding place get
  place-Places p (node, at_p) way = elim (INodeData-cases node.contents) [
    | inl (f, is) ↦
        rw (at_p, place)
          (rw is (IsLater-refl fs tree, λ h. inl (refl, blocked node f p way at_p is)))
    | inr (cs, is) ↦ elim (Option-cases (child cs name)) [
      | inr (c, taken) ↦
          rw (at_p, place)
            (rw is (
              rw taken (
                IsLater-refl fs tree,
                λ h. inr (inl (refl, c, there node cs c p way at_p is taken)),
              )))
      | inl free ↦ elim (Result-cases (file_node fs p variant version r)) [
        | inl (new, made) ↦
            rw (at_p, place)
              (rw is (
                rw free (
                  rw made (
                    Places-free p node cs new way at_p is free
                      (file_node-IsFileOf fs p version variant r new made)))))
        | inr (e, broken) ↦
            rw (at_p, place)
              (rw is (
                rw free (
                  rw broken (
                    IsLater-refl fs tree,
                    λ h. absurd (
                        let (new, made) = file_node-done fs p version variant r h in
                        let clash = sym broken ∙ made in cc),
                  ))))
      ]
    ]
  ]
