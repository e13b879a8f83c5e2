-- ===== src/Mount/Requests.antt =====
-- src/mount.rs: what the mounted archive answers.
use rust_u4pak.Common.{
  ℕ, ◌<◌, ◌≡◌, ◌∙◌, inl, inr, sym, ap, false, Bool-cases, Option-cases, Option, none, some, List,
  [], ◌∷◌, ◌++◌, map, All, Bytes, bytes_eq,
}
use rust_u4pak.Io.{Outcome, ok, err}
use rust_u4pak.Text.{Text, as_bytes, from_utf8}
use rust_u4pak.Text.RoundTrip.{IsText, from_utf8-as_bytes}
use rust_u4pak.PakPath.{parse_pak_path}
use rust_u4pak.Record.{Record}
use rust_u4pak.Index.Legacy.{Variant}
use rust_u4pak.Pak.{Pak}
use rust_u4pak.Mount.Inode.{
  fuse_root_id, regular_file, INode, FileAttr, Children, U4pakFs, child, node_at, get,
}
use rust_u4pak.Mount.Insert.{Metadata, empty_fs, new}
use rust_u4pak.Mount.Invariant.{IsTree, kind_of}
use rust_u4pak.Mount.Reaches.{IsEntry, Reaches}
use rust_u4pak.Mount.Placing.{INodeData-cases}
use rust_u4pak.Mount.Inserted.{IsFound}
use rust_u4pak.Mount.Mounted.{Mounts, new-Mounts, Left}
use rust_u4pak.Mount.Handlers.{
  Reply, reply, error, dot, dot_dot, entry_of, entry_named, lookup, getattr,
}

Mounts-Left :
    (version : ℕ) (variant : Variant) (rs : List Record) (fs : U4pakFs)
    (o : Outcome {0} U4pakFs Unit)
    → Mounts version variant rs fs o
    → Left (λ fs'. IsTree fs'.inodes) o
Mounts-Left version variant rs fs (ok u fs') (later, found) = later.tree
Mounts-Left version variant rs fs (err e fs') later = later.tree

-- The inodes that U4PakFS::new leaves, whether it fails or not, are numbered, each has a
-- directory as its parent, and each entry of a directory leads to an inode that has it as its
-- parent; for a positive block size.
pub new-IsTree :
    (meta : Metadata) (file_bytes : Bytes) (pak : Pak)
    → 0 < meta.st_blksize
    → Left (λ fs. IsTree fs.inodes) (new meta file_bytes pak)
new-IsTree meta file_bytes pak sized =
    Mounts-Left pak.version pak.variant pak.index.records (empty_fs meta file_bytes)
      (new meta file_bytes pak) (new-Mounts meta file_bytes pak sized)

-- A file system that `new` returns has the file of each record at the end of the record's path.
pub new-IsFound :
    (meta : Metadata) (file_bytes : Bytes) (pak : Pak) (fs : U4pakFs)
    → 0 < meta.st_blksize
    → new meta file_bytes pak ≡ ok tt fs
    → All (IsFound pak.version pak.variant fs) pak.index.records
new-IsFound meta file_bytes pak fs sized is =
    let all = new-Mounts meta file_bytes pak sized in (rw is at all).1

-- A name that is a text, and not one of the two that every directory has.
abbrev pub IsOrdinary : Text → Type 0
IsOrdinary name =
    IsText name
    × (bytes_eq dot (as_bytes name) ≡ false)
    × (bytes_eq dot_dot (as_bytes name) ≡ false)

-- `lookup` of one name after the other, each in what the one before it replied.
unfoldable pub resolve : U4pakFs → ℕ → List Bytes → Reply FileAttr
resolve fs p [] = getattr fs p
resolve fs p (name ∷ names) = elim (lookup fs p name) [
  | reply attr ↦ let rest = resolve fs attr.ino names in rest
  | error e ↦ error e
]

module _ (fs : U4pakFs) (tree : IsTree fs.inodes) where
  lookup-IsEntry :
      (p c : ℕ) (name : Text)
      → IsOrdinary name
      → IsEntry fs.inodes p name c
      → (m : INode) × (get fs c ≡ some m) × (lookup fs p (as_bytes name) ≡ reply m.stat)
  unfolding lookup get
  lookup-IsEntry p c name (text, other, other') e =
      let (m, at_c, up) = tree.below p e.node e.children name c e.at e.is_dir e.entry in
      (
        m,
        at_c,
        rw (e.at, lookup)
            (rw (other, other')
              (rw e.is_dir
                (rw (from_utf8-as_bytes name text) (rw (e.entry, entry_named) (rw at_c))))),
      )

  -- A directory is the parent of what it has.
  pub lookup-dot_dot :
      (p c : ℕ) (name : Text) → IsEntry fs.inodes p name c → lookup fs c dot_dot ≡ getattr fs p
  unfolding lookup getattr get bytes_eq
  lookup-dot_dot p c name e =
      let (m, at_c, up) = tree.below p e.node e.children name c e.at e.is_dir e.entry in
      rw (at_c, lookup) (rw (up, e.at) (rw (e.at, getattr)))

  -- What is replied are the attributes of an inode.
  abbrev IsStat : FileAttr → Type 0
  IsStat attr = (j : ℕ) × (m : INode) × (get fs j ≡ some m) × (m.stat ≡ attr)

  entry_of-IsStat : (j : ℕ) (attr : FileAttr) → entry_of (get fs j) ≡ reply attr → IsStat attr
  entry_of-IsStat j attr h = elim (Option-cases (get fs j)) [
    | inl none_is ↦ absurd (let clash = rw none_is at h in cc)
    | inr (m, some_is) ↦ (j, m, some_is, let same = rw some_is at h in cc)
  ]

  entry_named-IsStat :
      (children : Children) (o : Option Text) (attr : FileAttr)
      → entry_named fs children o ≡ reply attr
      → IsStat attr
  entry_named-IsStat children none attr h = cc
  entry_named-IsStat children (some name) attr h = elim (Option-cases (child children name)) [
    | inl none_is ↦ absurd (let clash = rw (none_is, entry_named) at h in cc)
    | inr (c, some_is) ↦ entry_of-IsStat c attr (rw (some_is, entry_named) at h)
  ]

  node-IsStat :
      (p : ℕ) (node : INode) (name : Bytes) (attr : FileAttr)
      → get fs p ≡ some node
      → lookup fs p name ≡ reply attr
      → IsStat attr
  unfolding lookup
  node-IsStat p node name attr at_p h =
      let h' = rw (at_p, lookup) at h in
      elim (Bool-cases (bytes_eq dot name)) [
        | inl itself ↦ (p, node, at_p, let same = rw itself at h' in cc)
        | inr below ↦ elim (Bool-cases (bytes_eq dot_dot name)) [
          | inl above ↦ entry_of-IsStat node.parent attr (rw (below, above) at h')
          | inr named ↦ elim (INodeData-cases node.contents) [
            | inl (f, is) ↦
                absurd
                  (let named_is = rw (below, named) at h' in let clash = rw is at named_is in cc)
            | inr (cs, is) ↦
                let named_is = rw (below, named) at h' in
                entry_named-IsStat cs (from_utf8 name) attr (rw is at named_is)
          ]
        ]
      ]

  getattr-at : (j : ℕ) (m : INode) → get fs j ≡ some m → getattr fs j ≡ reply m.stat
  unfolding getattr
  getattr-at j m h = rw (h, getattr)

  -- On a tree of inodes, whatever lookup replies is what getattr replies for the inode it names.
  pub lookup-getattr :
      (p : ℕ) (name : Bytes) (attr : FileAttr)
      → lookup fs p name ≡ reply attr
      → getattr fs attr.ino ≡ reply attr
  unfolding lookup getattr get
  lookup-getattr p name attr h = elim (Option-cases (get fs p)) [
    | inl none_is ↦ absurd (let clash = rw (none_is, lookup) at h in cc)
    | inr (node, at_p) ↦
        let (j, m, at_j, same) = node-IsStat p node name attr at_p h in
        let number : attr.ino ≡ j =
          ap (λ (a : FileAttr). a.ino) (sym same) ∙ (tree.node j m at_j).stat_number in
        ap (getattr fs) number ∙ getattr-at j m at_j ∙ ap reply same
  ]

  -- Where the components of a path lead when one is looked up after the other.
  resolve-Reaches :
      (names : List Text) (p d : ℕ) (m : INode)
      → All IsOrdinary names
      → Reaches fs.inodes p names d
      → get fs d ≡ some m
      → resolve fs p (map as_bytes names) ≡ reply m.stat
  unfolding resolve get
  resolve-Reaches [] p d m h way at_d = rw way (getattr-at d m at_d)
  resolve-Reaches (name ∷ names) p d m (ordinary, h) (c, entry, way) at_d =
      let (n, at_c, found) = lookup-IsEntry p c name ordinary entry in
      rw (found, resolve)
        (rw (tree.node c n at_c).stat_number (resolve-Reaches names c d m h way at_d))

  resolve-IsFound :
      (version : ℕ) (variant : Variant) (r : Record)
      → IsFound version variant fs r
      → All IsOrdinary (parse_pak_path r.filename)
      → (attr : FileAttr) × (resolve fs fuse_root_id (map as_bytes (parse_pak_path r.filename))
          ≡ reply attr)
        × (attr.size ≡ r.uncompressed_size)
        × (attr.kind ≡ regular_file)
  unfolding node_at get
  resolve-IsFound version variant r found ordinary = (
    found.node.stat,
    resolve-Reaches (parse_pak_path r.filename) fuse_root_id found.number found.node ordinary
        found.way found.at,
    found.size_is,
    (tree.node found.number found.node found.at).kind_is ∙ ap kind_of found.is_file,
  )

All-middle :
    {A : Type 0} (P : A → Type 0) (before after : List A) (x : A)
    → All P (before ++ (x ∷ after))
    → P x
All-middle P [] after x (here, rest) = here
All-middle P (y ∷ before) after x (here, rest) = All-middle P before after x rest

-- In a file system that U4PakFS::new returns, with a positive block size, looking up the
-- components of a record of the pak one after the other from the root leads to the attributes of
-- a regular file of its uncompressed size, if each component is a text other than . and ..
pub new-resolve :
    (meta : Metadata) (file_bytes : Bytes) (pak : Pak) (fs : U4pakFs) (before after : List Record)
    (r : Record)
    → 0 < meta.st_blksize
    → new meta file_bytes pak ≡ ok tt fs
    → pak.index.records ≡ before ++ (r ∷ after)
    → All IsOrdinary (parse_pak_path r.filename)
    → (attr : FileAttr) × (resolve fs fuse_root_id (map as_bytes (parse_pak_path r.filename))
        ≡ reply attr)
      × (attr.size ≡ r.uncompressed_size)
      × (attr.kind ≡ regular_file)
new-resolve meta file_bytes pak fs before after r sized is records_are ordinary =
    let tree = new-IsTree meta file_bytes pak sized in
    let all = new-IsFound meta file_bytes pak fs sized is in
    let found =
      All-middle (IsFound pak.version pak.variant fs) before after r (rw records_are at all) in
    resolve-IsFound fs (rw is at tree) pak.version pak.variant r found ordinary
