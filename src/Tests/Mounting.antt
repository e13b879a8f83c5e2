-- ===== src/Tests/Mounting.antt =====
-- Concrete inputs for the theorems on src/mount.rs.
use rust_u4pak.Common.{
  ℕ, zero, suc, ◌≤◌, ◌≡◌, ◌≢◌, refl, ap, arith, false, Option, none, some, inl, inr, List, [], ◌∷◌,
  ◌++◌, bytes_eq, if◌then◌else◌, leb, Bool-cases, Bytes, replicate, length, map, take, flatten,
}
use rust_u4pak.Io.{done, Outcome, ok, err, file_exists}
use rust_u4pak.Crypto.{ZlibReader}
use rust_u4pak.Text.{as_bytes, from_utf8}
use rust_u4pak.PakPath.{parse_pak_path}
use rust_u4pak.Record.{CompressionBlock, Record, v3, move_to}
use rust_u4pak.Index.Legacy.{standard}
use rust_u4pak.Pak.{Pak, header_size}
use rust_u4pak.Mount.Time.{pos, neg, make_time}
use rust_u4pak.Mount.Inode.{
  INode, file, file_attr, U4pakFs, get, set, file_node, file_data, FileAttr, regular_file,
}
use rust_u4pak.Mount.Insert.{Metadata, new, enter}
use rust_u4pak.Mount.Invariant.{IsTree}
use rust_u4pak.Mount.Mounted.{Left}
use rust_u4pak.Mount.Inserted.{Refuses}
use rust_u4pak.Mount.FileNode.{IsMountable}
use rust_u4pak.Mount.Handlers.{reply, lookup, getattr}
use rust_u4pak.Mount.Refused.{with_records, new-Refuses}
use rust_u4pak.Mount.Requests.{new-IsTree, new-resolve, resolve, lookup-getattr}
use rust_u4pak.Mount.Reading.{read, read_exact_at, read_zlib}
use rust_u4pak.Mount.Blocks.{Stored}
use rust_u4pak.Mount.Unaligned.{read_zlib-unaligned}
use rust_u4pak.Mount.Contents.{read-plain, read-blocks}
use rust_u4pak.Tests.Packing.{test_zlib, zeros_record, zeros_body}

-- The stand-in for zlib, when only the first bytes are asked for.
abbrev first_bytes : ℕ → Option Bytes → Option Bytes
first_bytes n none = none
first_bytes n (some b) = if leb n (length b) then some (take n b) else none

length-take : (n : ℕ) (b : Bytes) → n ≤ length b → length (take n b) ≡ n
length-take zero b h = refl
length-take (suc n) [] h = absurd (omega arith)
length-take (suc n) (x ∷ b) h = ap suc (length-take n b (omega arith))

length-first_bytes :
    (n : ℕ) (o : Option Bytes) (b : Bytes) → first_bytes n o ≡ some b → length b ≡ n
length-first_bytes n none b h = cc
length-first_bytes n (some c) b h = elim (Bool-cases (leb n (length c))) [
  | inl enough ↦
      let same : some (take n c) ≡ some b = rw enough at h in
      let taken : take n c ≡ b = cc in rw (← taken) (length-take n c (ground arith))
  | inr few ↦ absurd (let clash = rw few at h in cc)
]

abbrev test_reader : ZlibReader
test_reader = record {
  zlib = test_zlib;
  read_exact = λ n s. first_bytes n (test_zlib.decompress s);
  read_exact-decompress = λ n s b h. rw h;
  length-read_exact = λ n s b h. length-first_bytes n (test_zlib.decompress s) b h;
}

abbrev test_meta : Metadata
test_meta = record {
  st_atime = pos 7;
  st_atime_nsec = pos 5;
  st_mtime = pos 7;
  st_mtime_nsec = pos 5;
  st_ctime = pos 7;
  st_ctime_nsec = pos 5;
  created = none;
  st_uid = 0;
  st_gid = 0;
  st_blksize = 4096;
}

-- A file with three bytes in a directory, and the file of the packed zeros.
abbrev plain_record : Record
plain_record = v3 (b'd' ∷ b'/' ∷ b'f' ∷ []) 0 3 3 0 none none false 0

abbrev mounted_pak : Pak
mounted_pak = record {
  variant = standard;
  version = 3;
  index_offset = 149;
  index_size = 0;
  index_sha1 = [];
  index = record { mount_point = none; records = plain_record ∷ move_to 3 56 zeros_record ∷ [] };
}

abbrev mounted_bytes : Bytes
mounted_bytes = replicate 53 0 ++ ((1 ∷ 2 ∷ 3 ∷ []) ++ (replicate 89 0 ++ zeros_body))

abbrev state_of : Outcome {0} U4pakFs Unit → U4pakFs
state_of (ok u fs) = fs
state_of (err e fs) = fs

abbrev mounted : U4pakFs
mounted = state_of (new test_meta mounted_bytes mounted_pak)

mounted_run : new test_meta mounted_bytes mounted_pak ≡ ok tt mounted
unfolding new enter get set file_node header_size move_to
mounted_run = refl

new-IsTree_example : Left (λ fs. IsTree fs.inodes) (new test_meta mounted_bytes mounted_pak)
new-IsTree_example = new-IsTree test_meta mounted_bytes mounted_pak (omega arith)

mounted-IsTree : IsTree mounted.inodes
mounted-IsTree =
    let tree = new-IsTree test_meta mounted_bytes mounted_pak (omega arith) in
    rw mounted_run at tree

-- Two records of one name.
abbrev twice_pak : Pak
twice_pak = record mounted_pak {
  index = record { mount_point = none; records = plain_record ∷ plain_record ∷ [] };
}

abbrev twice : U4pakFs
twice = state_of (new test_meta mounted_bytes twice_pak)

twice_run : new test_meta mounted_bytes twice_pak ≡ err file_exists twice
unfolding new enter get set file_node header_size move_to
twice_run = refl

plain_record-IsMountable : IsMountable 3 standard plain_record
unfolding header_size
plain_record-IsMountable = record { header = 53; header_is = refl; in_time = λ t h. cc }

new-Refuses_example :
    (before after : List Record) × (r : Record) × (twice_pak.index.records ≡ before ++ (r ∷ after))
    × (new test_meta mounted_bytes (with_records twice_pak before) ≡ ok tt twice)
    × Refuses twice.inodes (parse_pak_path r.filename) file_exists
new-Refuses_example =
    new-Refuses test_meta mounted_bytes twice_pak file_exists twice (omega arith)
      (plain_record-IsMountable, (plain_record-IsMountable, tt)) twice_run

new-resolve_example :
    (attr : FileAttr) × (resolve mounted 1 (map as_bytes (parse_pak_path plain_record.filename))
      ≡ reply attr)
    × (attr.size ≡ 3)
    × (attr.kind ≡ regular_file)
unfolding parse_pak_path as_bytes bytes_eq
new-resolve_example =
    new-resolve test_meta mounted_bytes mounted_pak mounted [] (move_to 3 56 zeros_record ∷ [])
      plain_record (omega arith) mounted_run refl
      (((refl, tt), refl, refl), (((refl, tt), refl, refl), tt))

-- The two files, as the third and the fifth inode.
abbrev mounted_file : ℕ → ℕ → ℕ → Record → INode
mounted_file parent number header r = record {
  parent = parent;
  inode = number;
  contents = file (file_data 3 header r);
  stat =
      file_attr mounted number r.uncompressed_size
        (pos 7000000005, pos 7000000005, pos 7000000005, pos 0);
}

plain_at : get mounted 3 ≡ some (mounted_file 2 3 53 plain_record)
unfolding new enter get set file_node header_size move_to
plain_at = refl

zeros_at : get mounted 5 ≡ some (mounted_file 4 5 89 (move_to 3 56 zeros_record))
unfolding new enter get set file_node header_size move_to
zeros_at = refl

mounted_has : mounted.file_bytes ≡ mounted_bytes
unfolding new enter get set file_node header_size move_to
mounted_has = refl

read-plain_example : read test_reader mounted 3 (pos 1) 10 ≡ done (reply (2 ∷ 3 ∷ []))
read-plain_example =
    read-plain test_reader 3 53 3 mounted plain_record (mounted_file 2 3 53 plain_record) plain_at
      refl (replicate 53 0) (1 ∷ 2 ∷ 3 ∷ []) (replicate 89 0 ++ zeros_body) 1 10 mounted_has refl
      refl refl refl (omega arith) (omega arith)

abbrev zeros_blocks : List CompressionBlock
zeros_blocks =
    record { start_offset = 145; end_offset = 147 }
    ∷ record { start_offset = 147; end_offset = 149 }
    ∷ []

abbrev zeros_chunks : List Bytes
zeros_chunks = replicate 100 0 ∷ replicate 50 0 ∷ []

zeros-Stored : Stored test_reader mounted.file_bytes zeros_blocks zeros_chunks
unfolding new enter get set file_node header_size move_to read_exact_at
zeros-Stored = ((0 ∷ 100 ∷ [], refl, refl), ((0 ∷ 50 ∷ [], refl, refl), tt))

-- The second of the blocks of 100 and 50 zeros.
read-blocks_example : read test_reader mounted 5 (pos 100) 30 ≡ done (reply (replicate 30 0))
unfolding move_to flatten
read-blocks_example =
    read-blocks test_reader 3 89 5 mounted (move_to 3 56 zeros_record)
      (mounted_file 4 5 89 (move_to 3 56 zeros_record)) zeros_at refl zeros_blocks zeros_chunks 1 30
      refl refl refl refl (refl, omega arith) zeros-Stored (omega arith) (omega arith) (omega arith)
      (omega arith) (omega arith)

make_time_run : make_time (neg 1) (neg 500000000) ≡ neg 1500000000
unfolding make_time
make_time_run = refl

read_zlib-unaligned_example :
    read_zlib test_reader mounted_bytes
      (file_data 3 89 (move_to 3 56 zeros_record))
      zeros_blocks
      120
      10
    ≢ done (reply (replicate 10 0))
unfolding file_data move_to
read_zlib-unaligned_example =
    read_zlib-unaligned test_reader mounted_bytes (file_data 3 89 (move_to 3 56 zeros_record))
      zeros_blocks 120 10 (replicate 10 0) (omega arith) (omega arith) (omega arith) (omega arith)
      (omega arith) (omega arith)

looked_up : lookup mounted 2 (b'f' ∷ []) ≡ reply (mounted_file 2 3 53 plain_record).stat
unfolding new enter get set file_node header_size move_to lookup from_utf8
looked_up = refl

lookup-getattr_example : getattr mounted 3 ≡ reply (mounted_file 2 3 53 plain_record).stat
lookup-getattr_example =
    lookup-getattr mounted mounted-IsTree 2 (b'f' ∷ []) (mounted_file 2 3 53 plain_record).stat
      looked_up
