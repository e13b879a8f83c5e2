-- ===== src/Mount/Insert.antt =====
-- src/mount.rs: `U4PakFS::insert` and `U4PakFS::new`.
use rust_u4pak.Common.{ℕ, ◌-◌, Option, none, some, List, [], ◌∷◌, ◌++◌, ◌==◌, if◌then◌else◌, Bytes}
use rust_u4pak.Io.{
  done, failed, Outcome, ok, err, Action, ◌>>=◌, ◌>>◌, pure, fail, panic, not_a_directory,
  file_exists, empty_path,
}
use rust_u4pak.Text.{Text}
use rust_u4pak.PakPath.{parse_pak_path}
use rust_u4pak.Record.{Record, unwrap_or}
use rust_u4pak.Index.Legacy.{Variant}
use rust_u4pak.Pak.{Pak}
use rust_u4pak.Mount.Time.{ℤ, SystemTime, unix_epoch, make_time}
use rust_u4pak.Mount.Inode.{
  fuse_root_id, INode, file, dir, Children, U4pakFs, child, set, get, dir_attr, grown, next_inode,
  file_node,
}

-- The changes of the directory `node` with these children, and the inode behind the others.
abbrev pub with_entry : U4pakFs → ℕ → INode → Children → Text → INode → U4pakFs
with_entry fs parent node children name new =
    let node' = record node {
      contents = dir (children ++ ((name, next_inode fs) ∷ []));
      stat = grown fs.blksize name node.stat;
    } in
    record fs { inodes = set fs.inodes (parent - fuse_root_id) node' ++ (new ∷ []) }

-- The body of the loop over the directories of a path: the directory `name` in `parent`.
unfoldable pub enter : ℕ → Text → Action U4pakFs ℕ
unfolding child
enter parent name fs = elim (get fs parent) [
  | none ↦ err panic fs
  | some node ↦ elim node.contents [
    | file f ↦ err not_a_directory fs
    | dir children ↦ elim (child children name) [
      | some c ↦ ok c fs
      | none ↦ ok (next_inode fs) (
          with_entry fs parent node children name record {
            parent = parent;
            inode = next_inode fs;
            contents = dir [];
            stat = dir_attr fs (next_inode fs);
          })
    ]
  ]
]

unfoldable pub enter_all : List Text → ℕ → Action U4pakFs ℕ
enter_all [] parent = pure parent
enter_all (name ∷ names) parent = enter parent name >>= enter_all names

-- `path[0..path.len() - 1]` and `path.last()`.
unfoldable pub init {ℓ} : {A : Type ℓ} → List A → List A
init [] = []
init (x ∷ []) = []
init (x ∷ y ∷ xs) = x ∷ init (y ∷ xs)

unfoldable pub last {ℓ} : {A : Type ℓ} → List A → Option A
last [] = none
last (x ∷ []) = some x
last (x ∷ y ∷ xs) = last (y ∷ xs)

-- The last component of a path, in the directory `parent`. What it changes before it panics is lost.
unfoldable pub place : Variant → ℕ → Record → Text → ℕ → Action U4pakFs ℕ
place variant version r name parent fs = elim (get fs parent) [
  | none ↦ err panic fs
  | some node ↦ elim node.contents [
    | file f ↦ err not_a_directory fs
    | dir children ↦ elim (child children name) [
      | some c ↦ err file_exists fs
      | none ↦ elim (file_node fs parent variant version r) [
        | failed e ↦ err e fs
        | done new ↦ ok 0 (with_entry fs parent node children name new)
      ]
    ]
  ]
]

abbrev place_last : Variant → ℕ → Record → Option Text → ℕ → Action U4pakFs ℕ
place_last variant version r none parent = fail empty_path
place_last variant version r (some name) parent = place variant version r name parent

-- `U4PakFS::insert`, which returns 0.
unfoldable pub insert : Variant → ℕ → Record → Action U4pakFs ℕ
unfolding parse_pak_path enter_all init last place
insert variant version r =
    let path = parse_pak_path r.filename in
    enter_all (init path) fuse_root_id >>= place_last variant version r (last path)

-- What the code reads of `file.metadata()`.
pub record Metadata : Type 0 where
  pub st_atime : ℤ
  pub st_atime_nsec : ℤ
  pub st_mtime : ℤ
  pub st_mtime_nsec : ℤ
  pub st_ctime : ℤ
  pub st_ctime_nsec : ℤ
  pub created : Option SystemTime
  pub st_uid : ℕ
  pub st_gid : ℕ
  pub st_blksize : ℕ

-- The file system of no records: the root.
unfoldable pub empty_fs : Metadata → Bytes → U4pakFs
unfolding make_time
empty_fs meta file_bytes =
    let fs : U4pakFs = record {
      file_bytes = file_bytes;
      inodes = [];
      atime = make_time meta.st_atime meta.st_atime_nsec;
      mtime = make_time meta.st_mtime meta.st_mtime_nsec;
      ctime = make_time meta.st_ctime meta.st_ctime_nsec;
      crtime = unwrap_or meta.created unix_epoch;
      uid = meta.st_uid;
      gid = meta.st_gid;
      blksize = meta.st_blksize;
      blocks = 0;
    } in
    record fs {
      inodes =
          record {
            parent = fuse_root_id;
            inode = fuse_root_id;
            contents = dir [];
            stat = dir_attr fs fuse_root_id;
          }
          ∷ [];
    }

unfoldable pub insert_all : Variant → ℕ → List Record → Action {0} U4pakFs Unit
unfolding insert
insert_all variant version [] = pure tt
insert_all variant version (r ∷ records) =
    insert variant version r >> insert_all variant version records

-- `U4PakFS::new`, which divides by the block size.
unfoldable pub new : Metadata → Bytes → Pak → Outcome {0} U4pakFs Unit
unfolding empty_fs insert_all
new meta file_bytes pak =
    let fs = empty_fs meta file_bytes in
    if meta.st_blksize == 0
    then err panic fs
    else insert_all pak.variant pak.version pak.index.records fs
