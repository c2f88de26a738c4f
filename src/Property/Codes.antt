-- ===== src/Property/Codes.antt =====
-- src/property.rs: the tags of the header and the byte that stands for each.
use r7z.Prelude.{ℕ, Bool, ◌==◌}

pub data Property : Type 0 where
  end header archive_properties additional_streams_info main_streams_info files_info : Property
  pack_info unpack_info sub_streams_info size crc folder coders_unpack_size : Property
  num_unpack_stream empty_stream empty_file anti name ctime atime mtime attributes : Property
  comment encoded_header start_pos dummy : Property

-- `tag as u8`: the discriminants of the enum.
unfoldable pub to_u8 : Property → ℕ
to_u8 end = 0x00
to_u8 header = 0x01
to_u8 archive_properties = 0x02
to_u8 additional_streams_info = 0x03
to_u8 main_streams_info = 0x04
to_u8 files_info = 0x05
to_u8 pack_info = 0x06
to_u8 unpack_info = 0x07
to_u8 sub_streams_info = 0x08
to_u8 size = 0x09
to_u8 crc = 0x0A
to_u8 folder = 0x0B
to_u8 coders_unpack_size = 0x0C
to_u8 num_unpack_stream = 0x0D
to_u8 empty_stream = 0x0E
to_u8 empty_file = 0x0F
to_u8 anti = 0x10
to_u8 name = 0x11
to_u8 ctime = 0x12
to_u8 atime = 0x13
to_u8 mtime = 0x14
to_u8 attributes = 0x15
to_u8 comment = 0x16
to_u8 encoded_header = 0x17
to_u8 start_pos = 0x18
to_u8 dummy = 0x19

-- The derived equality of a fieldless enum.
unfoldable pub is_tag : Property → Property → Bool
unfolding to_u8
is_tag p q = to_u8 p == to_u8 q
