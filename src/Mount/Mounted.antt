-- ===== src/Mount/Mounted.antt =====
-- src/mount.rs: what `U4PakFS::new` makes of the records of an archive.
use rust_u4pak.Common.{
  ℕ, zero, suc, ◌≡◌, ◌∙◌, inl, inr, refl, ap, Option-cases, none, some, List, [], ◌∷◌, ◌++◌, All,
  Bytes, ◌==◌, arith, false, ◌<◌,
}
use rust_u4pak.Io.{Outcome, ok, err, ◌>>=◌, empty_path}
use rust_u4pak.Text.{Text}
use rust_u4pak.PakPath.{parse_pak_path}
use rust_u4pak.Record.{Record}
use rust_u4pak.Index.Legacy.{Variant}
use rust_u4pak.Pak.{Pak}
use rust_u4pak.Mount.Inode.{fuse_root_id, INode, U4pakFs, node_at, get, get_elem?, dir, file_data}
use rust_u4pak.Mount.Insert.{
  init, last, insert, insert_all, enter_all, place, Metadata, empty_fs, new,
}
use rust_u4pak.Mount.Invariant.{IsTree, IsNode}
use rust_u4pak.Mount.Grown.{IsLeaf, no_child}
use rust_u4pak.Mount.Reaches.{IsBlocked-append, Reaches-Extends}
use rust_u4pak.Mount.Placing.{IsLater, IsLater-refl, IsLater-trans}
use rust_u4pak.Mount.Inserted.{Walks, enter_all-Walks, IsFound, Places, place-Places}

init-last : (xs : List Text) (x : Text) → last xs ≡ some x → xs ≡ init xs ++ (x ∷ [])
unfolding init last
init-last [] x h = cc
init-last (y ∷ []) x h = let same : y ≡ x = cc in rw same
init-last (y ∷ z ∷ xs) x h = ap (◌∷◌ y) (init-last (z ∷ xs) x h)

pub last-none : (xs : List Text) → last xs ≡ none → xs ≡ []
unfolding last
last-none [] h = refl
last-none (x ∷ []) h = cc
last-none (x ∷ y ∷ xs) h = absurd (let clash = last-none (y ∷ xs) h in cc)

pub init-nil : (xs : List Text) → xs ≡ [] → init xs ≡ []
unfolding init
init-nil [] h = refl
init-nil (x ∷ xs) h = cc

module _ (version : ℕ) (variant : Variant) (r : Record) where
  Places-later :
      (a b : U4pakFs) (o : Outcome U4pakFs ℕ)
      → IsLater a b
      → Places version variant r b o
      → Places version variant r a o
  Places-later a b (ok n c) later (after, found) = (IsLater-trans a b c later after, found)
  Places-later a b (err e c) later (after, other) = (IsLater-trans a b c later after, other)

  Places-walk :
      (fs : U4pakFs) (names : List Text) (name : Text) (o : Outcome U4pakFs ℕ)
      → parse_pak_path r.filename ≡ names ++ (name ∷ [])
      → Walks fs fuse_root_id names o
      → Places version variant r fs (◌>>=◌ (λ s. o) (place variant version r name) fs)
  Places-walk fs names name (err e fs') path_is (later, is, blocked) = (
    later,
    λ h. inl (is, rw path_is (IsBlocked-append fs'.inodes fuse_root_id names (name ∷ []) blocked)),
  )
  Places-walk fs names name (ok p fs') path_is (later, there, way) =
      Places-later fs fs' (place variant version r name p fs') later
        (place-Places version variant r fs' names name path_is later.tree p there way)

  Places-none :
      (fs : U4pakFs) (names : List Text) (o : Outcome U4pakFs ℕ)
      → parse_pak_path r.filename ≡ []
      → names ≡ []
      → Walks fs fuse_root_id names o
      → Places version variant r fs (◌>>=◌ (λ s. o) (λ p s. err empty_path s) fs)
  Places-none fs [] (err e fs') path_is empty (later, is, blocked) =
      (later, λ h. inl (is, rw path_is blocked))
  Places-none fs [] (ok p fs') path_is empty (later, there, way) =
      (later, λ h. inr (inr (refl, path_is)))
  Places-none fs (n ∷ names) o path_is empty h = cc

  pub insert-Places :
      (fs : U4pakFs) → IsTree fs.inodes → Places version variant r fs (insert variant version r fs)
  unfolding insert
  insert-Places fs tree =
      let path = parse_pak_path r.filename in
      let (n, cs, at_root, is_dir, up) = tree.root in
      let walk = enter_all-Walks (init path) fs fuse_root_id tree (n, at_root) in
      elim (Option-cases (last path)) [
        | inl none_is ↦
            let path_is = last-none path none_is in
            rw none_is (
              Places-none fs (init path) (enter_all (init path) fuse_root_id fs) path_is
                (init-nil path path_is) walk)
        | inr (name, last_is) ↦ rw last_is (
            Places-walk fs (init path) name (enter_all (init path) fuse_root_id fs)
              (init-last path name last_is) walk)
      ]

IsFound-later :
    (version : ℕ) (variant : Variant) (a b : U4pakFs) (r : Record)
    → IsLater a b
    → IsFound version variant a r
    → IsFound version variant b r
unfolding get
IsFound-later version variant a b r later found =
    let (n', at', grows) = later.extends found.number found.node found.at in
    record {
      number = found.number;
      node = n';
      header = found.header;
      way =
          Reaches-Extends a.inodes b.inodes later.extends fuse_root_id (parse_pak_path r.filename)
            found.number found.way;
      at = at';
      header_is = found.header_is;
      size_is =
          ap (λ n. n.stat.size) (grows.of_file (file_data version found.header r) found.is_file)
          ∙ found.size_is;
      is_file =
          ap (λ n. n.contents) (grows.of_file (file_data version found.header r) found.is_file)
          ∙ found.is_file;
    }

module _ (version : ℕ) (variant : Variant) where
  -- What the loop over the records leaves.
  abbrev pub Mounts : List Record → U4pakFs → Outcome {0} U4pakFs Unit → Type 0
  Mounts rs fs (ok u fs') = IsLater fs fs' × All (IsFound version variant fs') rs
  Mounts rs fs (err e fs') = IsLater fs fs'

  Mounts-cons :
      (r : Record) (rs : List Record) (fs fs' : U4pakFs) (o : Outcome {0} U4pakFs Unit)
      → IsLater fs fs'
      → IsFound version variant fs' r
      → Mounts rs fs' o
      → Mounts (r ∷ rs) fs o
  Mounts-cons r rs fs fs' (ok u fs'') later found (after, all) = (
    IsLater-trans fs fs' fs'' later after,
    (IsFound-later version variant fs' fs'' r after found, all),
  )
  Mounts-cons r rs fs fs' (err e fs'') later found after = IsLater-trans fs fs' fs'' later after

  Mounts-step :
      (r : Record) (rs : List Record) (fs : U4pakFs) (o : Outcome U4pakFs ℕ)
      → Places version variant r fs o
      → ((fs' : U4pakFs) → IsTree fs'.inodes → Mounts rs fs' (insert_all variant version rs fs'))
      → Mounts (r ∷ rs) fs (◌>>=◌ (λ s. o) (λ n. insert_all variant version rs) fs)
  Mounts-step r rs fs (err e fs') (later, other) rest = later
  Mounts-step r rs fs (ok n fs') (later, found) rest =
      Mounts-cons r rs fs fs' (insert_all variant version rs fs') later found (rest fs' later.tree)

  insert_all-Mounts :
      (rs : List Record) (fs : U4pakFs)
      → IsTree fs.inodes
      → Mounts rs fs (insert_all variant version rs fs)
  unfolding insert_all
  insert_all-Mounts [] fs tree = (IsLater-refl fs tree, tt)
  insert_all-Mounts (r ∷ rs) fs tree =
      Mounts-step r rs fs (insert variant version r fs) (insert-Places version variant r fs tree)
        (insert_all-Mounts rs)

-- The root alone is a tree.
only_root : (root n : INode) (i : ℕ) → node_at (root ∷ []) i ≡ some n → (i ≡ 1) × (root ≡ n)
unfolding node_at get_elem?
only_root root n zero h = cc
only_root root n (suc zero) h = (refl, cc)
only_root root n (suc (suc i)) h = cc

root-IsNode :
    (root n : INode) (i : ℕ)
    → IsLeaf fuse_root_id fuse_root_id root
    → root.contents ≡ dir []
    → (i ≡ 1) × (root ≡ n)
    → IsNode (root ∷ []) i n
unfolding node_at get_elem?
root-IsNode root n i leaf is_dir (first, same) =
    rw (first, ← same)
      record {
        number = leaf.numbered;
        stat_number = leaf.ino_numbered;
        kind_is = leaf.kind_fits;
        up = (root, [], ap (node_at (root ∷ [])) leaf.in_parent, is_dir);
      }

root-IsTree :
    (root : INode)
    → IsLeaf fuse_root_id fuse_root_id root
    → root.contents ≡ dir []
    → IsTree (root ∷ [])
unfolding node_at get_elem?
root-IsTree root leaf is_dir = record {
  node = λ i n h. root-IsNode root n i leaf is_dir (only_root root n i h);
  below = λ i n cs name c h is entry.
      let (first, same) = only_root root n i h in
      absurd (no_child root cs name c leaf.leaf (ap (λ n. n.contents) same ∙ is) entry);
  root = (root, [], refl, is_dir, leaf.in_parent);
}

pub empty_fs-IsTree :
    (meta : Metadata) (file_bytes : Bytes) → IsTree (empty_fs meta file_bytes).inodes
unfolding empty_fs
empty_fs-IsTree meta file_bytes =
    root-IsTree _
      record {
        in_parent = refl;
        numbered = refl;
        ino_numbered = refl;
        kind_fits = refl;
        leaf = inr refl;
      }
      refl

pub new-Mounts :
    (meta : Metadata) (file_bytes : Bytes) (pak : Pak)
    → 0 < meta.st_blksize
    → Mounts pak.version pak.variant pak.index.records
        (empty_fs meta file_bytes)
        (new meta file_bytes pak)
unfolding new
new-Mounts meta file_bytes pak sized =
    let positive : meta.st_blksize == 0 ≡ false = ground arith in
    rw positive (
      insert_all-Mounts pak.version pak.variant pak.index.records (empty_fs meta file_bytes)
        (empty_fs-IsTree meta file_bytes))

-- What holds of the file system that is left, whether all the records could be inserted or not.
abbrev pub Left {ℓ} : {A : Type ℓ} → (U4pakFs → Type 0) → Outcome U4pakFs A → Type 0
Left P (ok a fs) = P fs
Left P (err e fs) = P fs
