-- ===== src/Mount/Refused.antt =====
-- src/mount.rs: when `insert` refuses a record, and what `U4PakFS::new` leaves then.
use rust_u4pak.Common.{
  ℕ, zero, suc, ◌-◌, ◌<◌, ◌≡◌, ◌⊎◌, inl, inr, refl, sym, ap, arith, false, ◌==◌, Option-cases, some,
  List, [], ◌∷◌, ◌++◌, All, Bytes,
}
use rust_u4pak.Io.{Error, Outcome, ok, err, ◌>>=◌}
use rust_u4pak.Text.{Text}
use rust_u4pak.PakPath.{parse_pak_path}
use rust_u4pak.Record.{Record}
use rust_u4pak.Index.Legacy.{Variant}
use rust_u4pak.Pak.{Pak}
use rust_u4pak.Mount.Inode.{
  fuse_root_id, INode, dir, Children, U4pakFs, child, get, node_at, next_inode,
}
use rust_u4pak.Mount.Insert.{
  with_entry, enter, enter_all, init, last, place, insert, insert_all, Metadata, empty_fs, new,
}
use rust_u4pak.Mount.Table.{node_at-new}
use rust_u4pak.Mount.Invariant.{IsTree}
use rust_u4pak.Mount.Placing.{made_dir, INodeData-cases}
use rust_u4pak.Mount.FileNode.{IsMountable, file_node-done}
use rust_u4pak.Mount.Inserted.{Refuses, Places}
use rust_u4pak.Mount.Mounted.{last-none, init-nil, insert-Places, empty_fs-IsTree}

-- A directory that has nothing in it yet.
abbrev IsFresh : U4pakFs → ℕ → Type 0
IsFresh fs p = (node : INode) × (get fs p ≡ some node) × (node.contents ≡ dir [])

-- A way from the state `start` has changed nothing, or ends at a directory that it has made.
abbrev Stands : U4pakFs → U4pakFs → ℕ → Type 0
Stands start fs p = (fs ≡ start) ⊎ IsFresh fs p

abbrev Keeps : U4pakFs → Outcome U4pakFs ℕ → Type 0
Keeps start (ok p fs) = Stands start fs p
Keeps start (err e fs) = fs ≡ start

-- What fails leaves the state as it was.
abbrev Unchanged : U4pakFs → Outcome U4pakFs ℕ → Type 0
Unchanged start (ok n fs) = Unit
Unchanged start (err e fs) = fs ≡ start

made_dir-IsFresh :
    (fs : U4pakFs) (p : ℕ) (node : INode) (cs : Children) (name : Text)
    → get fs p ≡ some node
    → IsFresh (with_entry fs p node cs name (made_dir fs p)) (next_inode fs)
unfolding get node_at
made_dir-IsFresh fs zero node cs name at_p = cc
made_dir-IsFresh fs (suc p) node cs name at_p =
    let before_suc : suc p - 1 ≡ p = omega arith in
    (made_dir fs (suc p), rw before_suc (node_at-new fs.inodes p node _ _ at_p), refl)

module _ (start : U4pakFs) where
  enter-Keeps :
      (fs : U4pakFs) (p : ℕ) (name : Text) → Stands start fs p → Keeps start (enter p name fs)
  unfolding enter get child
  enter-Keeps fs p name (inr (node, at_p, empty)) =
      rw (at_p, enter) (rw empty (inr (made_dir-IsFresh fs p node [] name at_p)))
  enter-Keeps fs p name (inl same) = elim (Option-cases (get fs p)) [
    | inl lost ↦ rw (lost, enter) same
    | inr (node, at_p) ↦ elim (INodeData-cases node.contents) [
      | inl (f, is) ↦ rw (at_p, enter) (rw is same)
      | inr (cs, is) ↦ elim (Option-cases (child cs name)) [
        | inl free ↦
            rw (at_p, enter) (rw is (rw free (inr (made_dir-IsFresh fs p node cs name at_p))))
        | inr (c, taken) ↦ rw (at_p, enter) (rw is (rw taken (inl same)))
      ]
    ]
  ]

  Keeps-enter_all :
      (names : List Text) (s : U4pakFs) (o : Outcome U4pakFs ℕ)
      → Keeps start o
      → ((fs : U4pakFs) (p : ℕ) → Stands start fs p → Keeps start (enter_all names p fs))
      → Keeps start (◌>>=◌ (λ s. o) (enter_all names) s)
  Keeps-enter_all names s (ok p fs) stands rest = rest fs p stands
  Keeps-enter_all names s (err e fs) same rest = same

  enter_all-Keeps :
      (names : List Text) (fs : U4pakFs) (p : ℕ)
      → Stands start fs p
      → Keeps start (enter_all names p fs)
  unfolding enter_all
  enter_all-Keeps [] fs p stands = stands
  enter_all-Keeps (name ∷ names) fs p stands =
      Keeps-enter_all names fs (enter p name fs) (enter-Keeps fs p name stands)
        (enter_all-Keeps names)

  module _ (version : ℕ) (variant : Variant) (r : Record)
      (mountable : IsMountable version variant r) where
    place-Unchanged :
        (fs : U4pakFs) (p : ℕ) (name : Text)
        → Stands start fs p
        → Unchanged start (place variant version r name p fs)
    unfolding place get child
    place-Unchanged fs p name (inr (node, at_p, empty)) =
        let (made, made_is) = file_node-done fs p version variant r mountable in
        rw (at_p, place) (rw empty (rw made_is tt))
    place-Unchanged fs p name (inl same) = elim (Option-cases (get fs p)) [
      | inl lost ↦ rw (lost, place) same
      | inr (node, at_p) ↦ elim (INodeData-cases node.contents) [
        | inl (f, is) ↦ rw (at_p, place) (rw is same)
        | inr (cs, is) ↦ elim (Option-cases (child cs name)) [
          | inr (c, taken) ↦ rw (at_p, place) (rw is (rw taken same))
          | inl free ↦
              let (made, made_is) = file_node-done fs p version variant r mountable in
              rw (at_p, place) (rw is (rw free (rw made_is tt)))
        ]
      ]
    ]

    Unchanged-place :
        (name : Text) (s : U4pakFs) (o : Outcome U4pakFs ℕ)
        → Keeps start o
        → Unchanged start (◌>>=◌ (λ s. o) (place variant version r name) s)
    Unchanged-place name s (ok p fs) stands = place-Unchanged fs p name stands
    Unchanged-place name s (err e fs) same = same

    -- An insert that is refused changes nothing, the directories on the way included.
    insert-Unchanged : Unchanged start (insert variant version r start)
    unfolding insert enter_all
    insert-Unchanged =
        let path = parse_pak_path r.filename in
        elim (Option-cases (last path)) [
          | inl none_is ↦ rw none_is (rw (init-nil path (last-none path none_is)) refl)
          | inr (name, last_is) ↦ rw last_is (
              Unchanged-place name start (enter_all (init path) fuse_root_id start)
                (enter_all-Keeps (init path) start fuse_root_id (inl refl)))
        ]

module _ (version : ℕ) (variant : Variant) where
  -- One of the records is refused, and what is left is the file system of those in front of it.
  abbrev Stops : List Record → U4pakFs → Outcome {0} U4pakFs Unit → Type 0
  Stops rs start (ok u fs) = Unit
  Stops rs start (err e fs) =
      (before after : List Record) × (r : Record) × (rs ≡ before ++ (r ∷ after))
      × (insert_all variant version before start ≡ ok tt fs)
      × Refuses fs.inodes (parse_pak_path r.filename) e

  Stops-cons :
      (r : Record) (rs : List Record) (start fs : U4pakFs) (n : ℕ) (o : Outcome {0} U4pakFs Unit)
      → insert variant version r start ≡ ok n fs
      → Stops rs fs o
      → Stops (r ∷ rs) start o
  unfolding insert_all
  Stops-cons r rs start fs n (ok u last_fs) inserted h = tt
  Stops-cons r rs start fs n (err e last_fs) inserted (before, after, x, is, made, refuses) =
      (r ∷ before, after, x, ap (◌∷◌ r) is, rw (inserted, ◌>>=◌) made, refuses)

  Stops-insert :
      (r : Record) (rs : List Record) (start : U4pakFs) (o : Outcome U4pakFs ℕ)
      → insert variant version r start ≡ o
      → IsMountable version variant r
      → Places version variant r start o
      → Unchanged start o
      → ((fs : U4pakFs) → IsTree fs.inodes → Stops rs fs (insert_all variant version rs fs))
      → Stops (r ∷ rs) start (◌>>=◌ (λ s. o) (λ n. insert_all variant version rs) start)
  unfolding insert_all
  Stops-insert r rs start (ok n fs) is mountable (later, found) same rest =
      Stops-cons r rs start fs n (insert_all variant version rs fs) is (rest fs later.tree)
  Stops-insert r rs start (err e fs) is mountable (later, why) same rest =
      ([], rs, r, refl, ap (ok tt) (sym same), why mountable)

  insert_all-Stops :
      (rs : List Record) (start : U4pakFs)
      → IsTree start.inodes
      → All (IsMountable version variant) rs
      → Stops rs start (insert_all variant version rs start)
  unfolding insert_all
  insert_all-Stops [] start tree h = tt
  insert_all-Stops (r ∷ rs) start tree (mountable, h) =
      Stops-insert r rs start (insert variant version r start) refl mountable
        (insert-Places version variant r start tree)
        (insert-Unchanged start version variant r mountable)
        (λ fs later. insert_all-Stops rs fs later h)

-- The same archive with these records.
abbrev pub with_records : Pak → List Record → Pak
with_records pak records = record pak { index = record pak.index { records = records } }

-- If U4PakFS::new fails, with a positive block size and records of which a header size is known
-- and the time fits, then there is a record for which what is left is what U4PakFS::new returns
-- for the records in front of it alone, and the error is the one that fits the path of the
-- record in that tree: a file stands where the path needs a directory, the path is taken, or it
-- is empty.
pub new-Refuses :
    (meta : Metadata) (file_bytes : Bytes) (pak : Pak) (e : Error) (fs : U4pakFs)
    → 0 < meta.st_blksize
    → All (IsMountable pak.version pak.variant) pak.index.records
    → new meta file_bytes pak ≡ err e fs
    → (before after : List Record) × (r : Record) × (pak.index.records ≡ before ++ (r ∷ after))
      × (new meta file_bytes (with_records pak before) ≡ ok tt fs)
      × Refuses fs.inodes (parse_pak_path r.filename) e
unfolding new insert_all
new-Refuses meta file_bytes pak e fs sized mountable is =
    let positive : meta.st_blksize == 0 ≡ false = ground arith in
    let inserted = rw positive at is in
    let stopped =
      insert_all-Stops pak.version pak.variant pak.index.records (empty_fs meta file_bytes)
        (empty_fs-IsTree meta file_bytes) mountable in
    rw positive (rw inserted at stopped)
