-- ===== src/CoderInfo.antt =====
-- src/coder_info.rs: one coder of a folder, read with (`CoderInfo`) or without (`CoderInfoRef`)
-- owning its bytes.
pub mod Laws
use r7z.Prelude.{
  ℕ, bit_and, Option, none, some, Result, ok, err, ◌>>=◌, ok_or, if◌then◌else◌, ◌==◌, try_usize,
}
use r7z.Nom.{Bytes, IResult, error, too_large}
use r7z.Packages.{Packages}
use r7z.Parsers.{sevenzip_varuint64_decode}

-- `codec_id` is an `ArrayVec<u8, 15>`, `properties` an `Option<SmallVec<[u8; 16]>>`.
pub record CoderInfo : Type 0 where
  pub codec_id : Bytes
  pub num_in_streams : ℕ
  pub num_out_streams : ℕ
  pub properties : Option Bytes

-- The borrowed fields.
pub record CoderInfoRef : Type 0 where
  pub codec_id : Bytes
  pub num_in_streams : ℕ
  pub num_out_streams : ℕ
  pub properties : Option Bytes

-- The flags of the first byte.
abbrev pub codec_id_size : ℕ → ℕ
codec_id_size flags = bit_and flags 0x0f

-- The number of input and of output streams: explicit if the coder is complex.
unfoldable pub parse_arity : ℕ → Bytes → IResult (ℕ × ℕ)
parse_arity flags input = if bit_and flags 0x10 == 0 then ok (input, (1, 1)) else do
  (input, num_in) ← sevenzip_varuint64_decode input
  (input, num_out) ← sevenzip_varuint64_decode input
  ok (input, (num_in, num_out))

module _ ⦃pk : Packages⦄ where
  unfoldable pub parse_properties : ℕ → Bytes → IResult (Option Bytes)
  parse_properties flags input = if bit_and flags 0x20 == 0 then ok (input, none) else do
    (input, prop_size) ← sevenzip_varuint64_decode input
    size ← ok_or (try_usize prop_size) (error input too_large)
    (input, properties) ← pk.take_complete size input
    ok (input, some properties)

  -- `CoderInfoRef::parse`
  unfoldable pub parse_ref : Bytes → IResult CoderInfoRef
  parse_ref input = do
    (input, flags) ← pk.le_u8 input
    (input, id) ← pk.take_complete (codec_id_size flags) input
    (input, arity) ← parse_arity flags input
    (input, props) ← parse_properties flags input
    ok (
      input,
      record {
        codec_id = id;
        num_in_streams = arity.0;
        num_out_streams = arity.1;
        properties = props;
      },
    )

  -- `CoderInfo::parse`
  unfoldable pub parse : Bytes → IResult CoderInfo
  parse input = do
    (input, parsed) ← parse_ref input
    id ← ok_or (pk.array_try_from 15 parsed.codec_id) (error input too_large)
    ok (
      input,
      record {
        codec_id = id;
        num_in_streams = parsed.num_in_streams;
        num_out_streams = parsed.num_out_streams;
        properties = parsed.properties;
      },
    )
