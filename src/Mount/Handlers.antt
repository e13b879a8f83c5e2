-- ===== src/Mount/Handlers.antt =====
-- src/mount.rs: the handlers of `Filesystem` but `read`. A request's reply is a value.
use Prim.Native.Nat.{bit_and}
use rust_u4pak.Common.{
  ℕ, ◌+◌, ◌%◌, Bool, true, false, not, Option, none, some, List, [], ◌∷◌, ◌++◌, ltb, ◌==◌,
  if◌then◌else◌, Bytes, length, bytes_eq,
}
use rust_u4pak.Word64.{u32_mod}
use rust_u4pak.Io.{Result, done, failed, panic}
use rust_u4pak.Text.{Text, from_utf8}
use rust_u4pak.Mount.Time.{ℤ, pos, negsuc}
use rust_u4pak.Mount.Inode.{
  FileType, directory, regular_file, FileAttr, INode, file, dir, Children, is_dir, U4pakFs, child,
  get,
}

pub data Errno : Type 0 where
  enoent eisdir eacces enotdir einval eio enosys : Errno

pub data Reply {ℓ} (A : Type ℓ) : Type ℓ where
  reply : A → Reply A
  error : Errno → Reply A

-- The names of a directory itself and of its parent.
abbrev pub dot : Bytes
dot = b'.' ∷ []

abbrev pub dot_dot : Bytes
dot_dot = b'.' ∷ b'.' ∷ []

abbrev pub entry_of : Option INode → Reply FileAttr
entry_of none = error enoent
entry_of (some n) = reply n.stat

-- The entry of a directory that has a name; a name that is no UTF-8 is none of them.
abbrev pub entry_named : U4pakFs → Children → Option Text → Reply FileAttr
entry_named fs children none = error enoent
entry_named fs children (some name) = elim (child children name) [
  | none ↦ error enoent
  | some inode ↦ entry_of (get fs inode)
]

-- `lookup`; `name` is the `OsStr` as its bytes.
unfoldable pub lookup : U4pakFs → ℕ → Bytes → Reply FileAttr
unfolding bytes_eq child
lookup fs parent name = elim (get fs parent) [
  | none ↦ error enoent
  | some node ↦
      if bytes_eq dot name
      then reply node.stat
      else if bytes_eq dot_dot name
      then entry_of (get fs node.parent)
      else elim node.contents [
        | dir children ↦ entry_named fs children (from_utf8 name)
        | file f ↦ error enotdir
      ]
]

unfoldable pub getattr : U4pakFs → ℕ → Reply FileAttr
getattr fs ino = elim (get fs ino) [ none ↦ error enoent | some node ↦ reply node.stat ]

unfoldable pub access : U4pakFs → ℕ → ℕ → Reply {0} Unit
access fs ino mask = elim (get fs ino) [
  | none ↦ error enoent
  | some node ↦ if not (bit_and mask node.stat.perm == mask) then error eacces else reply tt
]

-- `opendir` and `open` (here `open_file`) reply with the number as the file handle.
unfoldable pub opendir : U4pakFs → ℕ → Reply ℕ
opendir fs ino = elim (get fs ino) [
  | none ↦ error enoent
  | some node ↦ if not (is_dir node) then error enotdir else reply ino
]

abbrev pub o_rdonly : ℕ
o_rdonly = 0

unfoldable pub open_file : U4pakFs → ℕ → ℕ → Reply ℕ
open_file fs ino flags = elim (get fs ino) [
  | none ↦ error enoent
  | some node ↦
      if is_dir node
      then error eisdir
      else if not (bit_and flags 3 == o_rdonly)
      then error eacces
      else reply ino
]

pub record Statfs : Type 0 where
  pub blocks : ℕ
  pub bfree : ℕ
  pub bavail : ℕ
  pub files : ℕ
  pub ffree : ℕ
  pub bsize : ℕ
  pub namelen : ℕ
  pub frsize : ℕ

abbrev pub statfs : U4pakFs → Statfs
statfs fs = record {
  blocks = fs.blocks;
  bfree = 0;
  bavail = 0;
  files = length fs.inodes;
  ffree = 0;
  bsize = fs.blksize % u32_mod;
  namelen = 0xffffffff;
  frsize = 0;
}

-- What `reply.add` of `readdir` adds.
pub record DirEntry : Type 0 where
  pub ino : ℕ
  pub offset : ℕ
  pub kind : FileType
  pub name : Text

abbrev pub is_before : ℤ → ℕ → Bool
is_before (pos n) m = ltb n m
is_before (negsuc n) m = true

abbrev pub type_of : INode → FileType
type_of node = if is_dir node then directory else regular_file

-- `room` tells whether the buffer of the reply takes an entry more.
module _ (room : List DirEntry → DirEntry → Bool) where
  -- `reply.add`, with its result: whether the buffer was full.
  abbrev pub add_entry : List DirEntry → DirEntry → List DirEntry × Bool
  add_entry sent e = if room sent e then (sent ++ (e ∷ []), false) else (sent, true)

  -- An entry of which the result is not looked at.
  abbrev pub add_from : ℤ → DirEntry → List DirEntry → List DirEntry
  add_from offset e sent = if is_before offset e.offset then (add_entry sent e).0 else sent

  -- The loop over the children.
  unfoldable pub add_children : U4pakFs → ℤ → ℕ → Children → List DirEntry → Result (List DirEntry)
  add_children fs offset entry_offset [] sent = done sent
  add_children fs offset entry_offset ((name, inode) ∷ children) sent =
      let rest = add_children fs offset (entry_offset + 1) children in
      if not (is_before offset entry_offset) then rest sent else elim (get fs inode) [
        | none ↦ failed panic
        | some node ↦
            let (sent', full) = add_entry sent record {
              ino = node.inode;
              offset = entry_offset;
              kind = type_of node;
              name = name;
            } in
            if full then done sent' else rest sent'
      ]

  abbrev pub replied : Result (List DirEntry) → Result (Reply (List DirEntry))
  replied (done sent) = done (reply sent)
  replied (failed e) = failed e

  unfoldable pub readdir : U4pakFs → ℕ → ℤ → Result (Reply (List DirEntry))
  unfolding add_children
  readdir fs ino offset = elim (get fs ino) [
    | none ↦ done (error enoent)
    | some node ↦ elim node.contents [
      | file f ↦ done (error enotdir)
      | dir children ↦
          let itself : DirEntry = record { ino = ino; offset = 1; kind = directory; name = dot } in
          let above : DirEntry = record {
            ino = node.parent;
            offset = 2;
            kind = directory;
            name = dot_dot;
          } in
          replied
            (add_children fs offset 3 children (add_from offset above (add_from offset itself [])))
    ]
  ]
