-- ===== src/Write/Streams.antt =====
-- src/write/header.rs: the pack, unpack and substream blocks of the header.
pub mod Crcs
pub mod Written
use r7z.Prelude.{
  ℕ, ◌+◌, ◌-◌, Bool, true, false, not, ◌||◌, ◌&&◌, Option, none, some, List, [], ◌∷◌, ◌++◌, map,
  flat_map, length, take, if◌then◌else◌, ◌==◌, ltb,
}
use r7z.Nom.{Bytes}
use r7z.Parsers.{sevenzip_varuint64_encode}
use Crcs.{write_optional_crcs}

-- `file_indices` are indices of entries.
pub record CompletedFolder : Type 0 where
  pub file_indices : List ℕ
  pub pack_sizes : List ℕ
  pub coder_info : Bytes
  pub coder_unpack_sizes : List ℕ
  pub folder_crc : Option ℕ
  pub file_sizes : List ℕ
  pub file_crcs : List (Option ℕ)

-- `for &size in sizes { h.extend_from_slice(&sevenzip_varuint64_encode(size)) }`
unfoldable pub encode_all : List ℕ → Bytes
encode_all [] = []
encode_all (v ∷ vs) = sevenzip_varuint64_encode v ++ encode_all vs

abbrev pub sum_lengths : List CompletedFolder → ℕ
sum_lengths [] = 0
sum_lengths (f ∷ fs) = length f.pack_sizes + sum_lengths fs

unfoldable pub write_pack_sizes : List CompletedFolder → Bytes
write_pack_sizes [] = []
write_pack_sizes (f ∷ fs) = encode_all f.pack_sizes ++ write_pack_sizes fs

unfoldable pub write_pack_info : List CompletedFolder → Bytes
write_pack_info folders =
    0x06
    ∷ (sevenzip_varuint64_encode 0
        ++ (sevenzip_varuint64_encode (sum_lengths folders)
            ++ (0x09 ∷ (write_pack_sizes folders ++ (0x00 ∷ [])))))

unfoldable pub write_coder_infos : List CompletedFolder → Bytes
write_coder_infos [] = []
write_coder_infos (f ∷ fs) = f.coder_info ++ write_coder_infos fs

unfoldable pub write_coder_sizes : List CompletedFolder → Bytes
write_coder_sizes [] = []
write_coder_sizes (f ∷ fs) = encode_all f.coder_unpack_sizes ++ write_coder_sizes fs

abbrev pub folder_crcs : List CompletedFolder → List (Option ℕ)
folder_crcs [] = []
folder_crcs (f ∷ fs) = f.folder_crc ∷ folder_crcs fs

unfoldable pub write_folder_crcs : List CompletedFolder → Bytes
write_folder_crcs folders = write_optional_crcs (folder_crcs folders)

unfoldable pub write_unpack_info : List CompletedFolder → Bytes
write_unpack_info folders =
    0x07
    ∷ 0x0b
    ∷ (sevenzip_varuint64_encode (length folders)
        ++ (0x00
            ∷ (write_coder_infos folders
                ++ (0x0c
                    ∷ (write_coder_sizes folders ++ (write_folder_crcs folders ++ (0x00 ∷ [])))))))

abbrev pub stream_counts : List CompletedFolder → List ℕ
stream_counts [] = []
stream_counts (f ∷ fs) = length f.file_indices ∷ stream_counts fs

-- `folders.iter().any(|f| f.file_indices.len() != 1)`, and `> 1`.
abbrev pub any_not_one : List ℕ → Bool
any_not_one [] = false
any_not_one (n ∷ ns) = not (n == 1) || any_not_one ns

abbrev pub any_many : List ℕ → Bool
any_many [] = false
any_many (n ∷ ns) = ltb 1 n || any_many ns

-- `&sizes[..sizes.len().saturating_sub(1)]`
abbrev pub but_last : List ℕ → List ℕ
but_last sizes = take (length sizes - 1) sizes

abbrev pub explicit_sizes : List CompletedFolder → List ℕ
explicit_sizes [] = []
explicit_sizes (f ∷ fs) = but_last f.file_sizes ++ explicit_sizes fs

abbrev pub file_crcs_of : List CompletedFolder → List (Option ℕ)
file_crcs_of [] = []
file_crcs_of (f ∷ fs) = f.file_crcs ++ file_crcs_of fs

unfoldable pub write_substreams_info : List CompletedFolder → Bytes
write_substreams_info folders =
    0x08
    ∷ ((if any_not_one (stream_counts folders)
          then 0x0d ∷ encode_all (stream_counts folders)
          else [])
        ++ ((if any_many (stream_counts folders)
              then 0x09 ∷ encode_all (explicit_sizes folders)
              else [])
            ++ (write_optional_crcs (file_crcs_of folders) ++ (0x00 ∷ []))))

unfoldable pub build_encoded_header_descriptor : ℕ → ℕ → Bytes → List ℕ → Bytes
build_encoded_header_descriptor pack_pos pack_size coder_info coder_unpack_sizes =
    0x17
    ∷ 0x06
    ∷ (sevenzip_varuint64_encode pack_pos
        ++ (sevenzip_varuint64_encode 1
            ++ (0x09
                ∷ (sevenzip_varuint64_encode pack_size
                    ++ (0x00
                        ∷ 0x07
                        ∷ 0x0b
                        ∷ (sevenzip_varuint64_encode 1
                            ++ (0x00
                                ∷ (coder_info
                                    ++ (0x0c
                                        ∷ (encode_all coder_unpack_sizes
                                            ++ (0x00 ∷ 0x00 ∷ [])))))))))))
