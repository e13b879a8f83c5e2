-- ===== src/Listing.antt =====
-- src/bin/u4pak/list.rs: `list`, as the bytes that it prints.
pub mod Names
use rust_u4pak.Common.{
  ℕ, zero, suc, Bool, true, false, not, Option, none, some, List, [], ◌∷◌, ◌++◌, leb, ◌==◌,
  if◌then◌else◌, Bytes, length, map,
}
use rust_u4pak.Common.Texts.{codes}
use rust_u4pak.Io.{Result, done, failed, paths_not_found}
use rust_u4pak.Text.{Text, as_bytes}
use rust_u4pak.Record.{Record, null_sha1, unwrap_or}
use rust_u4pak.Pak.{Pak}
use rust_u4pak.Filter.{Filter, from_paths, assert_all_visited, non_visited_paths}
use rust_u4pak.Filter.Selected.{visited_records}
use rust_u4pak.Sort.{SortKey, sort}
use rust_u4pak.Tables.{
  Align, left, right, format_u64, compression_method_name, hex_display, print_table,
  print_headless_table,
}
use rust_u4pak.Info.{fmt_size}

pub data ListStyle : Type 0 where
  table : Bool → Bool → ListStyle
  only_names : Bool → ListStyle

pub record ListOptions : Type 0 where
  pub order : Option (List SortKey)
  pub style : ListStyle
  pub paths : Option (List Text)

-- The `Default` of the two.
abbrev pub default_list_options : ListOptions
default_list_options = record { order = none; style = table false false; paths = none }

-- `chrono`: the text of a timestamp, if it is in the range of its dates.
module _ (format_timestamp : ℕ → Option Text) where
  abbrev timestamp_cell : Option ℕ → Text
  timestamp_cell none = codes "-"
  timestamp_cell (some t) = unwrap_or (format_timestamp t) (codes "-")

  -- The cell that a version adds.
  abbrev version_cells : ℕ → Record → List Text
  version_cells version r =
      if version == 1
      then timestamp_cell r.timestamp ∷ []
      else if leb 3 version
      then (if r.encrypted then codes "Encrypted" else codes "-") ∷ []
      else []

  unfoldable pub list_row : ℕ → Bool → Record → List Text
  unfolding hex_display
  list_row version human_readable r =
      format_u64 r.offset
      ∷ fmt_size human_readable r.uncompressed_size
      ∷ fmt_size human_readable r.size
      ∷ compression_method_name r.compression_method
      ∷ fmt_size human_readable r.compression_block_size
      ∷ (version_cells version r ++ hex_display (unwrap_or r.sha1 null_sha1) ∷ r.filename ∷ [])

  abbrev list_align : ℕ → List Align
  list_align version =
      if (version == 1)
      then right ∷ right ∷ right ∷ left ∷ right ∷ left ∷ left ∷ left ∷ []
      else if leb 3 version
      then right ∷ right ∷ right ∷ left ∷ right ∷ left ∷ left ∷ left ∷ []
      else right ∷ right ∷ right ∷ left ∷ right ∷ left ∷ left ∷ []

  abbrev version_headers : ℕ → List Text
  version_headers version =
      if version == 1
      then codes "Timestamp" ∷ []
      else if leb 3 version
      then codes "Encrypted" ∷ []
      else []

  abbrev list_header : ℕ → List Text
  list_header version =
      codes "Offset"
      ∷ codes "Size"
      ∷ codes "Compr."
      ∷ codes "Method"
      ∷ codes "Block-Size"
      ∷ (version_headers version ++ codes "SHA-1" ∷ codes "Filename" ∷ [])

  -- The names, each with the separator behind it.
  unfoldable pub list_names : ℕ → List Record → Bytes
  unfolding as_bytes
  list_names sep [] = []
  list_names sep (r ∷ records) = as_bytes r.filename ++ sep ∷ list_names sep records

  unfoldable pub list_records : ℕ → List Record → ListStyle → Bytes
  unfolding list_row print_table print_headless_table list_names
  list_records version records (table human_readable no_header) =
      let body = map (list_row version human_readable) records in
      as_bytes (
        if no_header
        then print_headless_table body (list_align version)
        else print_table (list_header version) (list_align version) body)
  list_records version records (only_names null_separated) =
      list_names (if null_separated then 0 else b'\n') records

  -- The records of the archive, or those that the paths lead to.
  abbrev pub chosen : Option (List Text) → List Record → List Record × Option Filter
  chosen none records = (records, none)
  chosen (some paths) records =
      let (taken, f) = visited_records (from_paths paths) records in (taken, some f)

  abbrev pub ordered : Option (List SortKey) → List Record → List Record
  ordered none records = records
  ordered (some order) records = sort records order

  -- What is printed before the paths that were not found are an error.
  abbrev all_found : Option Filter → Result {0} Unit
  all_found none = done tt
  all_found (some f) =
      if assert_all_visited f
      then done tt
      else failed (paths_not_found (length (non_visited_paths f)))

  unfoldable pub list : ListOptions → Pak → Bytes × Result {0} Unit
  unfolding visited_records sort list_records assert_all_visited
  list options pak =
      let (records, filter) = chosen options.paths pak.index.records in
      (list_records pak.version (ordered options.order records) options.style, all_found filter)
