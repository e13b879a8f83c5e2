-- ===== src/Tests/Listing.antt =====
-- Concrete inputs for the theorems on sorting, listing, the tables and the sums over the records.
use rust_u4pak.Common.{◌+◌, ◌≡◌, refl, true, none, some, List, [], ◌∷◌, ◌++◌, map, All, length}
use rust_u4pak.Common.Texts.{codes}
use rust_u4pak.Io.{done, failed, illegal_sort, illegal_spec}
use rust_u4pak.Text.{as_bytes}
use rust_u4pak.PakPath.{parse_pak_path, split}
use rust_u4pak.PakPath.Splits.{has_char}
use rust_u4pak.Record.{Record}
use rust_u4pak.Pak.{Pak}
use rust_u4pak.Pack.{PackPath}
use rust_u4pak.Pack.PathSpec.{try_from}
use rust_u4pak.Pack.PathSpec.Laws.{HasBounds, IsSpecOf, try_from-PathBounds}
use rust_u4pak.Filter.{from_paths}
use rust_u4pak.Filter.Laws.{any_prefix}
use rust_u4pak.Filter.Selected.{asked, visited_records, keep, visited_records-from_paths}
use rust_u4pak.Sort.{name, size, rev_size, sort, parse_order, chain, to_cmp, cmp_str}
use rust_u4pak.Sort.Keys.{key_names, parse_order-key_names}
use rust_u4pak.Sort.Stable.{by_keys, IsStableSort, sort-IsStableSort}
use rust_u4pak.Tables.{left, right, print_row, table_lens, line_len, format_size}
use rust_u4pak.Tables.Widths.{Fills, print_row-table_lens}
use rust_u4pak.Info.{no_sums, count_records}
use rust_u4pak.Info.Totals.{totals, count_records-totals}
use rust_u4pak.Listing.{ListOptions, only_names, list}
use rust_u4pak.Listing.Names.{name_bytes, list-only_names}
use rust_u4pak.Tests.Packing.{zeros_record, zeros_pak}

-- Two records of one name and three sizes.
abbrev large : Record
large = record zeros_record { filename = codes "b"; size = 9 }

abbrev small : Record
small = record zeros_record { filename = codes "a/c"; size = 2 }

abbrev again : Record
again = record zeros_record { filename = codes "b"; size = 5 }

abbrev some_records : List Record
some_records = large ∷ small ∷ again ∷ []

sort_run : sort some_records (name ∷ rev_size ∷ []) ≡ small ∷ large ∷ again ∷ []
unfolding sort chain to_cmp cmp_str
sort_run = refl

sort-IsStableSort_example :
    IsStableSort (by_keys (name ∷ size ∷ [])) (sort some_records (name ∷ size ∷ [])) some_records
sort-IsStableSort_example = sort-IsStableSort some_records (name ∷ size ∷ [])

parse_order_run : parse_order (codes "s,-s,P") ≡ done (size ∷ rev_size ∷ name ∷ [])
unfolding parse_order
parse_order_run = refl

parse_order_refused : parse_order (codes "size,") ≡ failed illegal_sort
unfolding parse_order
parse_order_refused = refl

parse_order-key_names_example : parse_order (codes "-Size,NAME") ≡ done (rev_size ∷ name ∷ [])
unfolding key_names
parse_order-key_names_example = parse_order-key_names (codes "-Size,NAME") rev_size (name ∷ []) refl

abbrev spec_path : PackPath
spec_path = record {
  compression_method = 1;
  compression_block_size = some 512;
  compression_level = some 5;
  filename = codes "a:b";
  rename = some (codes "c/d");
}

try_from_run : try_from (codes ":zlib,level=5,block_size=512,rename=c/d:a:b") ≡ done spec_path
unfolding try_from
try_from_run = refl

try_from_refused : try_from (codes ":zlib,level=5") ≡ failed illegal_spec
unfolding try_from
try_from_refused = refl

try_from-PathBounds_example :
    HasBounds 1 (some 512) (some 5)
    × IsSpecOf (codes ":zlib,level=5,block_size=512,rename=c/d:a:b") spec_path
try_from-PathBounds_example =
    try_from-PathBounds (codes ":zlib,level=5,block_size=512,rename=c/d:a:b") spec_path try_from_run

visited_records_run : (visited_records (from_paths (codes "/a/" ∷ [])) some_records).0 ≡ small ∷ []
unfolding visited_records from_paths
visited_records_run = refl

visited_records-from_paths_example :
    (visited_records (from_paths (codes "/a/" ∷ [])) some_records).0
    ≡ keep (λ r. any_prefix (codes "/a/" ∷ []) (parse_pak_path r.filename)) some_records
visited_records-from_paths_example = visited_records-from_paths (codes "/a/" ∷ []) some_records

count_records-totals_example : count_records no_sums some_records ≡ totals some_records
count_records-totals_example = count_records-totals some_records

format_size_run :
    (format_size 1023 ≡ codes "1023 B")
    × (format_size 1536 ≡ codes "1.5 K")
    × (format_size 1073741824 ≡ codes "1.0 G")
    × (format_size 18446744073709551615 ≡ codes "16.0 E")
unfolding format_size
format_size_run = (refl, refl, refl, refl)

print_row-table_lens_example :
    All
      (λ row.
        Fills
          (left ∷ right ∷ [])
          (line_len (
              table_lens
                (codes "a" ∷ codes "size" ∷ [])
                (left ∷ right ∷ [])
                ((codes "abc" ∷ codes "1" ∷ []) ∷ []))
            + 1)
          (length (
            print_row row
              (table_lens
                (codes "a" ∷ codes "size" ∷ [])
                (left ∷ right ∷ [])
                ((codes "abc" ∷ codes "1" ∷ []) ∷ []))
              (left ∷ right ∷ []))))
      ((codes "a" ∷ codes "size" ∷ []) ∷ (codes "abc" ∷ codes "1" ∷ []) ∷ [])
print_row-table_lens_example =
    print_row-table_lens (codes "a" ∷ codes "size" ∷ []) (left ∷ right ∷ [])
      ((codes "abc" ∷ codes "1" ∷ []) ∷ []) (refl, (refl, tt))

abbrev name_options : ListOptions
name_options = record {
  order = some (name ∷ []);
  style = only_names true;
  paths = some (codes "b" ∷ []);
}

abbrev some_pak : Pak
some_pak = record zeros_pak { index = record { mount_point = none; records = some_records } }

list_run : list (λ t. none) name_options some_pak ≡ (b'b' ∷ 0 ∷ b'b' ∷ 0 ∷ [], done tt)
unfolding list from_paths to_cmp cmp_str
list_run = refl

list-only_names_example :
    (listed : List Record) × (split 0 (list (λ t. none) name_options some_pak).0
      ≡ map name_bytes listed ++ [] ∷ [])
    × IsStableSort (by_keys (name ∷ [])) listed (asked (some (codes "b" ∷ [])) some_records)
unfolding has_char as_bytes
list-only_names_example =
    list-only_names (λ t. none) name_options some_pak true refl (refl, (refl, (refl, tt)))
