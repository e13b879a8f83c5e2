-- ===== src/Mount/Inode.antt =====
-- src/mount.rs: the inodes and their attributes, `U4PakFS::get`.
use rust_u4pak.Common.{
  ℕ, zero, suc, ◌+◌, ◌*◌, ◌/◌, ◌%◌, ◌^◌, Bool, true, false, Option, none, some, List, [], ◌∷◌, map,
  ltb, leb, ◌==◌, if◌then◌else◌, Bytes, length, bytes_eq,
}
use rust_u4pak.Word64.{add64, sub64, u32_mod}
use rust_u4pak.Io.{Result, done, failed, panic}
use rust_u4pak.Results.{◌>>=◌}
use rust_u4pak.Text.{Text, as_bytes}
use rust_u4pak.Record.{Record, CompressionBlock}
use rust_u4pak.Index.Legacy.{Variant}
use rust_u4pak.Pak.{header_size}
use rust_u4pak.Mount.Time.{pos, SystemTime, giga}

-- `FUSE_ROOT_ID` of the `fuse` crate.
abbrev pub fuse_root_id : ℕ
fuse_root_id = 1

pub data FileType : Type 0 where
  directory regular_file : FileType

pub record FileAttr : Type 0 where
  pub ino : ℕ
  pub size : ℕ
  pub blocks : ℕ
  pub atime : SystemTime
  pub mtime : SystemTime
  pub ctime : SystemTime
  pub crtime : SystemTime
  pub kind : FileType
  pub perm : ℕ
  pub nlink : ℕ
  pub uid : ℕ
  pub gid : ℕ
  pub rdev : ℕ
  pub flags : ℕ

-- `INodeData::File`.
pub record FileData : Type 0 where
  pub offset : ℕ
  pub size : ℕ
  pub uncompressed_size : ℕ
  pub compression_method : ℕ
  pub compression_blocks : Option (List CompressionBlock)
  pub encrypted : Bool
  pub compression_block_size : ℕ

-- The children of a directory, in the order in which they are iterated.
abbrev pub Children : Type 0
Children = List (Text × ℕ)

pub data INodeData : Type 0 where
  file : FileData → INodeData
  dir : Children → INodeData

-- `contents` is the field `data`.
pub record INode : Type 0 where
  pub parent : ℕ
  pub inode : ℕ
  pub contents : INodeData
  pub stat : FileAttr

abbrev is_dir_data : INodeData → Bool
is_dir_data (dir cs) = true
is_dir_data (file f) = false

abbrev pub is_dir : INode → Bool
is_dir n = is_dir_data n.contents

-- `U4PakFS`; of `file` its bytes.
pub record U4pakFs : Type 0 where
  pub file_bytes : Bytes
  pub inodes : List INode
  pub atime : SystemTime
  pub mtime : SystemTime
  pub ctime : SystemTime
  pub crtime : SystemTime
  pub uid : ℕ
  pub gid : ℕ
  pub blksize : ℕ
  pub blocks : ℕ

-- `HashMap::get` of the children.
unfoldable pub child : Children → Text → Option ℕ
unfolding bytes_eq
child [] name = none
child ((n, c) ∷ cs) name = let rest = child cs name in if bytes_eq name n then some c else rest

-- `Vec::get`, and the replacement of an element in place.
unfoldable pub get_elem? {ℓ} : {A : Type ℓ} → List A → ℕ → Option A
get_elem? [] i = none
get_elem? (a ∷ l) zero = some a
get_elem? (a ∷ l) (suc i) = get_elem? l i

unfoldable pub set {ℓ} : {A : Type ℓ} → List A → ℕ → A → List A
set [] i b = []
set (a ∷ l) zero b = b ∷ l
set (a ∷ l) (suc i) b = a ∷ set l i b

-- `U4PakFS::get`; for 0 the index wraps to 2^64 - 1, which is behind the end of every `Vec`.
unfoldable pub node_at : List INode → ℕ → Option INode
unfolding get_elem?
node_at inodes zero = none
node_at inodes (suc i) = get_elem? inodes i

unfoldable pub get : U4pakFs → ℕ → Option INode
unfolding node_at
get fs inode = node_at fs.inodes inode

abbrev pub blocks_of : ℕ → ℕ → ℕ
blocks_of blksize size = 1 + sub64 size 1 / blksize

-- The attributes of a directory without entries.
abbrev pub dir_attr : U4pakFs → ℕ → FileAttr
dir_attr fs number = record {
  ino = number;
  size = 5;
  blocks = blocks_of fs.blksize 5;
  atime = fs.atime;
  mtime = fs.mtime;
  ctime = fs.ctime;
  crtime = fs.crtime;
  kind = directory;
  perm = 0o555;
  nlink = 1;
  uid = fs.uid;
  gid = fs.gid;
  rdev = 0;
  flags = 0;
}

-- What an entry of this name adds to the attributes of its directory.
abbrev pub grown : ℕ → Text → FileAttr → FileAttr
grown blksize name stat =
    let size' = add64 (add64 stat.size (length (as_bytes name))) 1 in
    record stat {
      nlink = (stat.nlink + 1) % u32_mod;
      size = size';
      blocks = blocks_of blksize size';
    }

-- `self.inodes.len() as u64 + FUSE_ROOT_ID`.
abbrev pub next_inode : U4pakFs → ℕ
next_inode fs = suc (length fs.inodes)

-- The offsets of the blocks, which are relative to the record from version 7 on.
abbrev pub absolute_block : ℕ → CompressionBlock → CompressionBlock
absolute_block offset b = record {
  start_offset = add64 offset b.start_offset;
  end_offset = add64 offset b.end_offset;
}

abbrev pub absolute_blocks : ℕ → ℕ → Option (List CompressionBlock) → Option (List CompressionBlock)
absolute_blocks version offset none = none
absolute_blocks version offset (some blocks) =
    if ltb version 7 then some blocks else some (map (absolute_block offset) blocks)

-- The data of a file whose header has this size.
unfoldable pub file_data : ℕ → ℕ → Record → FileData
file_data version header r = record {
  offset = add64 r.offset header;
  size = r.size;
  uncompressed_size = r.uncompressed_size;
  compression_method = r.compression_method;
  compression_blocks = absolute_blocks version r.offset r.compression_blocks;
  encrypted = r.encrypted;
  compression_block_size = r.compression_block_size;
}

-- The times of access, modification, change and creation.
abbrev pub Times : Type 0
Times = SystemTime × SystemTime × SystemTime × SystemTime

-- `UNIX_EPOCH + Duration::from_secs(timestamp)` panics beyond an `i64` of seconds.
abbrev pub file_times : U4pakFs → Option ℕ → Result Times
file_times fs none = done (fs.atime, fs.mtime, fs.ctime, fs.crtime)
file_times fs (some timestamp) =
    let time = pos (timestamp * giga) in
    if leb (2 ^ 63) timestamp then failed panic else done (time, time, time, time)

abbrev pub file_attr : U4pakFs → ℕ → ℕ → Times → FileAttr
file_attr fs number size (atime, mtime, ctime, crtime) = record {
  ino = number;
  size = size;
  blocks = if size == 0 then 0 else blocks_of fs.blksize size;
  atime = atime;
  mtime = mtime;
  ctime = ctime;
  crtime = crtime;
  kind = regular_file;
  perm = 0o444;
  nlink = 1;
  uid = fs.uid;
  gid = fs.gid;
  rdev = 0;
  flags = 0;
}

-- The inode of a record.
unfoldable pub file_node : U4pakFs → ℕ → Variant → ℕ → Record → Result INode
unfolding file_data
file_node fs parent variant version r = do
  times ← file_times fs r.timestamp
  header ← header_size version variant r
  done record {
    parent = parent;
    inode = next_inode fs;
    contents = file (file_data version header r);
    stat = file_attr fs (next_inode fs) r.uncompressed_size times;
  }
