-- ===== src/Mount/FileNode.antt =====
-- src/mount.rs: the inode that `insert` makes for a record.
use rust_u4pak.Common.{ℕ, ◌*◌, ◌≡◌, ◌<◌, inl, refl, Option, none, some, leb, arith, false, ◌^◌}
use rust_u4pak.Io.{done}
use rust_u4pak.Results.{>>=-eq-done}
use rust_u4pak.Record.{Record}
use rust_u4pak.Index.Legacy.{Variant}
use rust_u4pak.Pak.{header_size}
use rust_u4pak.Mount.Time.{pos, giga}
use rust_u4pak.Mount.Inode.{
  INode, file, U4pakFs, next_inode, file_node, file_attr, file_times, Times, file_data,
}
use rust_u4pak.Mount.Grown.{IsLeaf}

-- A record for which an inode can be made.
pub record IsMountable (version : ℕ) (variant : Variant) (r : Record) : Type 0 where
  pub header : ℕ
  pub header_is : header_size version variant r ≡ done header
  pub in_time : (t : ℕ) → r.timestamp ≡ some t → t < 2 ^ 63

file_times-done :
    (fs : U4pakFs) (o : Option ℕ)
    → ((t : ℕ) → o ≡ some t → t < 2 ^ 63)
    → (times : Times) × (file_times fs o ≡ done times)
file_times-done fs none h = ((fs.atime, fs.mtime, fs.ctime, fs.crtime), refl)
file_times-done fs (some t) h =
    let soon : leb (2 ^ 63) t ≡ false = ground (arith, h t refl) in
    let time = pos (t * giga) in ((time, time, time, time), rw soon)

-- The inode that is made for a record.
abbrev made_file : U4pakFs → ℕ → ℕ → Record → ℕ → Times → INode
made_file fs p version r header times = record {
  parent = p;
  inode = next_inode fs;
  contents = file (file_data version header r);
  stat = file_attr fs (next_inode fs) r.uncompressed_size times;
}

pub file_node-done :
    (fs : U4pakFs) (p version : ℕ) (variant : Variant) (r : Record)
    → IsMountable version variant r
    → (new : INode) × (file_node fs p variant version r ≡ done new)
unfolding file_node
file_node-done fs p version variant r h =
    let (times, times_is) = file_times-done fs r.timestamp h.in_time in
    (made_file fs p version r h.header times, rw (times_is, h.header_is))

-- An inode that stands for a record.
pub record IsFileOf (version : ℕ) (variant : Variant) (fs : U4pakFs) (p : ℕ) (r : Record)
    (new : INode) : Type 0 where
  pub header : ℕ
  pub header_is : header_size version variant r ≡ done header
  pub is_file : new.contents ≡ file (file_data version header r)
  pub size_is : new.stat.size ≡ r.uncompressed_size
  pub leaf : IsLeaf p (next_inode fs) new

IsFileOf-eq :
    (fs : U4pakFs) (p version : ℕ) (variant : Variant) (r : Record) (header : ℕ) (times : Times)
    (new : INode)
    → header_size version variant r ≡ done header
    → done (made_file fs p version r header times) ≡ done new
    → IsFileOf version variant fs p r new
IsFileOf-eq fs p version variant r header times new header_is new_is =
    let same : made_file fs p version r header times ≡ new = cc in
    rw (← same) record {
      header = header;
      header_is = header_is;
      is_file = refl;
      size_is = refl;
      leaf = record {
        in_parent = refl;
        numbered = refl;
        ino_numbered = refl;
        kind_fits = refl;
        leaf = inl (file_data version header r, refl);
      };
    }

pub file_node-IsFileOf :
    (fs : U4pakFs) (p version : ℕ) (variant : Variant) (r : Record) (new : INode)
    → file_node fs p variant version r ≡ done new
    → IsFileOf version variant fs p r new
unfolding file_node
file_node-IsFileOf fs p version variant r new h =
    let (times, times_is, h') = >>=-eq-done (file_times fs r.timestamp) _ h in
    let (header, header_is, new_is) = >>=-eq-done (header_size version variant r) _ h' in
    IsFileOf-eq fs p version variant r header times new header_is new_is
