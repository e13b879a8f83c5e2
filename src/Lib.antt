-- ===== src/Lib.antt =====
-- A model of u4pak, a program and a library in Rust that reads, makes and checks the pak archives
-- of the Unreal Engine 4. Paths are from the repository's root.
--
-- A pak file is data, an index and a footer. `Pak::from_reader` (src/pak.rs) finds the footer from
-- the end of the file by `get_version` and `decode_footer`, and has `Index::read` (src/index.rs)
-- read the index, whose records src/record.rs decodes by the macro of src/decode.rs. `pack`
-- (src/pack.rs) makes a file: threads (`worker_proc`) turn each source file into a record and its
-- data, the main thread moves the records to their places, writes an inline header in front of
-- each, and then the index and the footer, by the macro of src/encode.rs. `check` (src/check.rs)
-- has threads compare each record of the index with the header in front of its data and with its
-- checksum. src/mount.rs makes a tree of inodes out of the records and answers the requests of a
-- file system from it. src/filter.rs limits a command to some paths, src/decrypt.rs decrypts an
-- index, src/bin/u4pak/args.rs takes the arguments of the program from a file. `unpack`
-- (src/unpack.rs) has threads write the content of each record to a file; `list` and `info` of the
-- program print tables of the records, which src/bin/u4pak/sort.rs sorts.
--
-- The files:
--   Common, Results   lists, options, Boolean tests; the operator `?` on results
--   Word64            `u64` arithmetic and `align` of src/util.rs
--   Io                src/result.rs and `Read`, `Seek` and `?` of Rust's library
--   Codec             src/decode.rs and src/encode.rs
--   Text, Paths       `String`; `Encoding` and `read_path` of src/index.rs, `write_path` of
--                     src/pack.rs
--   PakPath           `parse_pak_path` and `make_pak_path` of src/util.rs
--   Record            src/record.rs: Defs, Read, Write, and Entry for `decode_entry`
--   Decrypt           src/decrypt.rs
--   Index             src/index.rs: Legacy up to version 9, Secondary since version 10, Read;
--                     Names for the names of encodings, and of variants in src/pak.rs
--   Pak               src/pak.rs: Defs, Decode for the footer, Open for `from_reader`
--   Crypto            what is asked of SHA-1 and zlib
--   Pack              src/pack.rs: Worker for `worker_proc`, Archive for `pack`, PathSpec for the
--                     specification of a path
--   Unpack            src/unpack.rs: Defs for `unpack_record`, Whole for `unpack`
--   Filter            src/filter.rs
--   Check             src/check.rs: Defs for a record, Whole for `check`, which Clean takes apart in
--                     stages; Diff for `metadata_diff` of src/record.rs
--   Mount             src/mount.rs: Time for `make_time`, Inode for the inodes, Insert for `insert`
--                     and `new`, Handlers and Reading for the requests
--   Args, Commands    src/bin/u4pak/args.rs: `parse_arg_file`; `get_paths`, `get_threads` and
--                     `parse_compression_method` of src/bin/u4pak/main.rs
--   Sort, Listing     src/bin/u4pak/sort.rs and src/bin/u4pak/list.rs
--   Info              src/info.rs
--   Tables            `format_size` and the tables of src/util.rs
--   Sizes             `parse_size` and `parse_compression_level` of src/util.rs
--   Tests             concrete inputs
-- The other files hold proofs, and are named for what they are about.
--
-- How the code is modelled. A file is the list of its bytes. A `Read` is a function of the bytes
-- that are left, a `Read + Seek` is one of the position in a file; both return a value or an
-- error, with what is left. At the end of the input `read_exact` fails and nothing is left. A
-- `Write` is the list of the bytes that are written. Numbers are natural numbers; where the code
-- adds, multiplies or shifts in a `u64`, the sum is taken modulo 2 ^ 64, as a release build does.
-- A text is the list of its code points. Of an error it is kept which one it is and its numbers,
-- not the message. What panics is the error `panic`.
--
-- Parameters. The AES block cipher, the SHA-1 hasher and zlib are third-party code and arguments
-- of the definitions (Decrypt.Cipher, Crypto.Sha1Hasher, Crypto.Zlib, Crypto.ZlibReader); the
-- laws in Crypto say that a digest has 20 bytes and depends on the bytes alone, that
-- decompression undoes compression, and that a stream is not much longer than its data. What the
-- file system finds below a path is an argument of `collect_works`. The text that the crate chrono
-- makes of a timestamp is an argument of `list`.
--
-- Threads. The workers of `pack` share nothing but two channels. Their results are a list, in any
-- order, and `receive` folds over it; `process_work` is what one worker does with one file. An
-- error that ends a worker without being sent (`lost`) leaves no trace in that list. The records
-- that each thread of `check` receives are an argument of it, and the errors that the threads send
-- are received one thread after the other; their number does not depend on that order. The order
-- in which the threads of `unpack` finish is an argument of it.
--
-- Mounting. A handler is a function of the file system and the request to a reply or the error
-- number that is sent; `read` and `readdir` may also panic. The attributes of the archive's file
-- and the room in the buffer of `readdir` are arguments. Children are kept in the order in which
-- they were inserted, while the code iterates over a map in no particular order.
--
-- Printing. What `info`, `list` and the tables print is a text. `{:.1}` of a number of 1024ths is
-- exact, and rounds to the nearest tenth, to the even one of two; `digits` gets the 20 digits that a
-- `u64` has at most. `sort_by` is a stable insertion sort.
--
-- Fuel. `copy_loop` gets one more than the size of the file and spends one per buffer;
-- `block_loop` gets one more than the size and spends one per block of at least one byte;
-- `hash_loop` gets one more than the size and spends one per buffer;
-- `hex_digits` gets the 16 digits of a `u64`. All other loops are structural recursion.
--
-- Not modelled: src/reopen.rs and src/walkdir.rs (the file system), `mount` itself (options and
-- daemon), opening files and making directories in src/unpack.rs, the declaration of the options
-- and the calls of the library in src/bin/u4pak/main.rs, the messages of src/result.rs, and what
-- `verbose` prints: they call the operating system, a third-party parser of arguments, or make
-- texts that nothing depends on.
pub mod Common
pub mod Word64
pub mod Io
pub mod Args
pub mod Sizes
pub mod Check
pub mod Codec
pub mod Record
pub mod Text
pub mod PakPath
pub mod Paths
pub mod Decrypt
pub mod Index
pub mod Pak
pub mod Crypto
pub mod Pack
pub mod Results
pub mod Unpack
pub mod Filter
pub mod Mount
pub mod Sort
pub mod Tables
pub mod Listing
pub mod Info
pub mod Commands
mod Tests
