-- ===== src/Errors.antt =====
-- src/error.rs: the error type that the budgets, the operations, the writer and the archive share.
-- A resource or a limit is named by a constructor in place of its `&'static str`, and `Io` and
-- `UnsafePath` come without the value that they carry.
use r7z.Prelude.{ℕ, List}

pub data Resource : Type 0 where
  metadata total_decoded_output decoder_working_set aes_kdf_cycles : Resource
  temporary_storage retained_output open_archive_volumes archive_volume_count : Resource
  packed_folder_buffers : Resource

pub data R7zError : Type 0 where
  cancelled parse invalid_folder_graph archive_mismatch invalid_raw_folder_layout : R7zError
  invalid_property : ℕ → R7zError
  unsupported_codec : List ℕ → R7zError
  crc io decompression password_required wrong_password unsafe_path entry_not_found : R7zError
  directory invalid_options : R7zError
  limit_exceeded : Resource → R7zError
  resource_limit_exceeded : Resource → ℕ → R7zError
