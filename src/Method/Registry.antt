-- ===== src/Method/Registry.antt =====
-- src/method.rs: `METHOD_REGISTRY_DATA`, the rows of the registry. A name is its ASCII bytes.
use r7z.Prelude.{ℕ, List, [], ◌∷◌}
use r7z.Nom.{Bytes}

pub data MethodKind : Type 0 where
  compression filtering crypto : MethodKind

pub data SevenZMethod : Type 0 where
  copy lzma lzma2 bzip2 ppmd deflate deflate64 : SevenZMethod
  bcj bcj2 arm arm64 arm_thumb ia64 ppc : SevenZMethod
  sparc riscv delta swap2 swap4 zstd brotli : SevenZMethod
  lz4 lz5 lizard fast_lzma2 lzham seven_z_aes aes256_cbc : SevenZMethod

pub data MethodStatus : Type 0 where
  tested partial unsupported blocked untested : MethodStatus

pub record MethodInfo : Type 0 where
  pub method : SevenZMethod
  pub id : Bytes
  pub name : Bytes
  pub kind : MethodKind
  pub decode : MethodStatus
  pub encode : MethodStatus
  pub stream_arity : ℕ × ℕ

-- The derived equality of a fieldless enum compares these.
unfoldable pub discriminant : SevenZMethod → ℕ
discriminant copy = 0
discriminant lzma = 1
discriminant lzma2 = 2
discriminant bzip2 = 3
discriminant ppmd = 4
discriminant deflate = 5
discriminant deflate64 = 6
discriminant bcj = 7
discriminant bcj2 = 8
discriminant arm = 9
discriminant arm64 = 10
discriminant arm_thumb = 11
discriminant ia64 = 12
discriminant ppc = 13
discriminant sparc = 14
discriminant riscv = 15
discriminant delta = 16
discriminant swap2 = 17
discriminant swap4 = 18
discriminant zstd = 19
discriminant brotli = 20
discriminant lz4 = 21
discriminant lz5 = 22
discriminant lizard = 23
discriminant fast_lzma2 = 24
discriminant lzham = 25
discriminant seven_z_aes = 26
discriminant aes256_cbc = 27

abbrev pub row :
    SevenZMethod → Bytes → Bytes → MethodKind → MethodStatus → MethodStatus → ℕ × ℕ → MethodInfo
row m id text kind can_read can_write arity = record {
  method = m;
  id = id;
  name = text;
  kind = kind;
  decode = can_read;
  encode = can_write;
  stream_arity = arity;
}

unfoldable pub method_registry : List MethodInfo
method_registry =
    row copy (0x00 ∷ []) (0x43 ∷ 0x6F ∷ 0x70 ∷ 0x79 ∷ []) compression tested tested (1, 1)
    ∷ row lzma (0x03 ∷ 0x01 ∷ 0x01 ∷ []) (0x4C ∷ 0x5A ∷ 0x4D ∷ 0x41 ∷ []) compression tested tested
        (1, 1)
    ∷ row lzma2 (0x21 ∷ []) (0x4C ∷ 0x5A ∷ 0x4D ∷ 0x41 ∷ 0x32 ∷ []) compression tested tested (1, 1)
    ∷ row bzip2 (0x04 ∷ 0x02 ∷ 0x02 ∷ []) (0x42 ∷ 0x5A ∷ 0x69 ∷ 0x70 ∷ 0x32 ∷ []) compression tested
        unsupported (1, 1)
    ∷ row ppmd (0x03 ∷ 0x04 ∷ 0x01 ∷ []) (0x50 ∷ 0x50 ∷ 0x4D ∷ 0x64 ∷ []) compression tested tested
        (1, 1)
    ∷ row deflate (0x04 ∷ 0x01 ∷ 0x08 ∷ []) (0x44 ∷ 0x65 ∷ 0x66 ∷ 0x6C ∷ 0x61 ∷ 0x74 ∷ 0x65 ∷ [])
        compression tested unsupported (1, 1)
    ∷ row deflate64 (0x04 ∷ 0x01 ∷ 0x09 ∷ [])
        (0x44 ∷ 0x65 ∷ 0x66 ∷ 0x6C ∷ 0x61 ∷ 0x74 ∷ 0x65 ∷ 0x36 ∷ 0x34 ∷ []) compression tested
        unsupported (1, 1)
    ∷ row bcj (0x03 ∷ 0x03 ∷ 0x01 ∷ 0x03 ∷ []) (0x42 ∷ 0x43 ∷ 0x4A ∷ []) filtering tested tested
        (1, 1)
    ∷ row bcj2 (0x03 ∷ 0x03 ∷ 0x01 ∷ 0x1B ∷ []) (0x42 ∷ 0x43 ∷ 0x4A ∷ 0x32 ∷ []) filtering partial
        unsupported (4, 1)
    ∷ row arm (0x03 ∷ 0x03 ∷ 0x05 ∷ 0x01 ∷ []) (0x41 ∷ 0x52 ∷ 0x4D ∷ []) filtering tested
        unsupported (1, 1)
    ∷ row arm64 (0x0A ∷ []) (0x41 ∷ 0x52 ∷ 0x4D ∷ 0x36 ∷ 0x34 ∷ []) filtering tested unsupported
        (1, 1)
    ∷ row arm_thumb (0x03 ∷ 0x03 ∷ 0x07 ∷ 0x01 ∷ []) (0x41 ∷ 0x52 ∷ 0x4D ∷ 0x54 ∷ []) filtering
        tested unsupported (1, 1)
    ∷ row ia64 (0x03 ∷ 0x03 ∷ 0x04 ∷ 0x01 ∷ []) (0x49 ∷ 0x41 ∷ 0x36 ∷ 0x34 ∷ []) filtering tested
        unsupported (1, 1)
    ∷ row ppc (0x03 ∷ 0x03 ∷ 0x02 ∷ 0x05 ∷ []) (0x50 ∷ 0x50 ∷ 0x43 ∷ []) filtering tested
        unsupported (1, 1)
    ∷ row sparc (0x03 ∷ 0x03 ∷ 0x08 ∷ 0x05 ∷ []) (0x53 ∷ 0x50 ∷ 0x41 ∷ 0x52 ∷ 0x43 ∷ []) filtering
        tested unsupported (1, 1)
    ∷ row riscv (0x0B ∷ []) (0x52 ∷ 0x49 ∷ 0x53 ∷ 0x43 ∷ 0x56 ∷ []) filtering tested unsupported
        (1, 1)
    ∷ row delta (0x03 ∷ []) (0x44 ∷ 0x65 ∷ 0x6C ∷ 0x74 ∷ 0x61 ∷ []) filtering tested unsupported
        (1, 1)
    ∷ row swap2 (0x02 ∷ 0x03 ∷ 0x02 ∷ []) (0x53 ∷ 0x77 ∷ 0x61 ∷ 0x70 ∷ 0x32 ∷ []) filtering tested
        unsupported (1, 1)
    ∷ row swap4 (0x02 ∷ 0x03 ∷ 0x04 ∷ []) (0x53 ∷ 0x77 ∷ 0x61 ∷ 0x70 ∷ 0x34 ∷ []) filtering tested
        unsupported (1, 1)
    ∷ row zstd (0x04 ∷ 0xF7 ∷ 0x11 ∷ 0x01 ∷ []) (0x5A ∷ 0x53 ∷ 0x54 ∷ 0x44 ∷ []) compression
        unsupported unsupported (1, 1)
    ∷ row brotli (0x04 ∷ 0xF7 ∷ 0x11 ∷ 0x02 ∷ []) (0x42 ∷ 0x52 ∷ 0x4F ∷ 0x54 ∷ 0x4C ∷ 0x49 ∷ [])
        compression unsupported unsupported (1, 1)
    ∷ row lz4 (0x04 ∷ 0xF7 ∷ 0x11 ∷ 0x04 ∷ []) (0x4C ∷ 0x5A ∷ 0x34 ∷ []) compression unsupported
        unsupported (1, 1)
    ∷ row lz5 (0x04 ∷ 0xF7 ∷ 0x11 ∷ 0x05 ∷ []) (0x4C ∷ 0x5A ∷ 0x35 ∷ []) compression unsupported
        unsupported (1, 1)
    ∷ row lizard (0x04 ∷ 0xF7 ∷ 0x11 ∷ 0x06 ∷ []) (0x4C ∷ 0x49 ∷ 0x5A ∷ 0x41 ∷ 0x52 ∷ 0x44 ∷ [])
        compression unsupported unsupported (1, 1)
    ∷ row fast_lzma2 (0x21 ∷ []) (0x46 ∷ 0x4C ∷ 0x5A ∷ 0x4D ∷ 0x41 ∷ 0x32 ∷ []) compression tested
        tested (1, 1)
    ∷ row lzham (0x04 ∷ 0xF7 ∷ 0x10 ∷ 0x01 ∷ []) (0x4C ∷ 0x5A ∷ 0x48 ∷ 0x41 ∷ 0x4D ∷ []) compression
        unsupported unsupported (1, 1)
    ∷ row seven_z_aes (0x06 ∷ 0xF1 ∷ 0x07 ∷ 0x01 ∷ []) (0x37 ∷ 0x7A ∷ 0x41 ∷ 0x45 ∷ 0x53 ∷ [])
        crypto tested tested (1, 1)
    ∷ row aes256_cbc (0x06 ∷ 0xF0 ∷ 0x01 ∷ 0x81 ∷ [])
        (0x41 ∷ 0x45 ∷ 0x53 ∷ 0x32 ∷ 0x35 ∷ 0x36 ∷ 0x43 ∷ 0x42 ∷ 0x43 ∷ []) crypto unsupported
        unsupported (1, 1)
    ∷ []
