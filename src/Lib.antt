-- ===== src/Lib.antt =====
-- r7z: the header of a 7z archive, read and written.
--
-- A 7z header is a tree of tagged sections over a byte slice. The crate reads it with parsers in
-- the style of `nom`, walks it a second time without allocation to validate it, and writes it
-- when an archive is made. The modules here follow the source files:
--   Parsers      src/parsers.rs: 7z integers (`sevenzip_varuint64_encode`, `_decode`), bitmap
--                tests and `scan_digests`
--   Slice        src/parsers.rs: `bytes_subslice`
--   Property     src/property.rs: the section tags
--   CoderInfo    src/coder_info.rs: one coder of a folder, owning and borrowing
--   Folder       src/folder.rs: `Folder::parse`, `scan_folder` and their stream counts
--                Folder/Graph: `Folder::graph`, the connections between the coders
--   Method       src/method.rs: the registry of methods and its lookups
--   OutputSizes  src/codec/sizes.rs: the output sizes of coders
--   Digests      the digest tables of src/pack_info.rs and src/stream_info.rs
--   PackInfo, UnpackInfo          src/pack_info.rs
--   SubstreamInfo, StreamInfo     src/stream_info.rs
--   FilesInfo    src/files_info.rs: `FilesInfo::parse_with_external`, its scanner, names, values and
--                kinds; raw names and kinds of src/entries.rs
--   Write        src/write/header.rs: coder blocks, pack, unpack, substream and file blocks, for
--                the entries of src/write/model.rs
--                Write/Solid: `entries_with_solid_folders` of src/write/mod.rs
--   Paths        src/archive.rs: `safe_archive_name`
--   Resources    src/resources.rs: the budgets of an archive operation
--   Operation    src/operation.rs: cancellation and progress
--   Errors       src/error.rs: `R7zError`, as these modules use it
--   Termination  the fuel of the loops of the stream descriptor and of the file block
-- Prelude holds lists, machine words and `Result`; Nom the vocabulary of the parsers; Sections the
-- loops over tagged sections; Packages the functions of `nom`, `num-derive` and `arrayvec`, which
-- are an instance argument with the laws that these packages document. Tests instantiates them
-- with concrete functions.
--
-- A parser `fn(&[u8]) -> IResult<&[u8], A>` is a function `Bytes → IResult A`, and its errors
-- carry the input and the kind that the source gives them. A `usize` and a `u64` are numbers below
-- 2^64, and conversions and checked arithmetic are tested where the source tests them. A function
-- that pushes onto `h: &mut Vec<u8>` is the bytes that it pushes. A loop over tagged sections runs
-- on fuel, one round more than there are bytes left, which is enough since each round takes the
-- tag; a counted loop recurses on its count. The loop of the execution order has the sum of the
-- degrees and of the ready coders for fuel: a round takes a coder off the stack and moves others
-- from the degrees to it.
--
-- A method on `&mut self` of a budget or a monitor gives the state back beside its result, on an
-- error as well. Nested work of a budget is a function from the budget to its outcome; a clone of a
-- control shares its flag, which is a field of the control here, beside the calls of its callback. A
-- slice whose bytes are kept as a shared view of the buffer has its address.
--
-- Not modelled: failure of an allocation and the panic of a capacity that overflows (`try_reserve`,
-- `with_capacity`, `collect`), the codecs, the headers around the blocks, UTF-16 text, file access
-- and the command line.
pub mod CoderInfo
pub mod Digests
pub mod Errors
pub mod FilesInfo
pub mod Folder
pub mod Method
pub mod Nom
pub mod Operation
pub mod OutputSizes
pub mod PackInfo
pub mod Packages
pub mod Parsers
pub mod Paths
pub mod Prelude
pub mod Property
pub mod Resources
pub mod Sections
pub mod Slice
pub mod StreamInfo
pub mod SubstreamInfo
pub mod Termination
pub mod Tests
pub mod UnpackInfo
pub mod Write
