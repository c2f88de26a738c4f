-- ===== src/Write/Streams/Written.antt =====
-- src/write/header.rs: the number lists of the writer, read back with a counted loop.
use r7z.Prelude.{
  ℕ, ◌≡◌, refl, List, [], ◌∷◌, ◌++◌, append_assoc, length, length-append, All, ok, IsU64, arith,
}
use r7z.Nom.{Bytes}
use r7z.Nom.Repeat.{repeat}
use r7z.Parsers.{sevenzip_varuint64_encode, sevenzip_varuint64_decode}
use r7z.Parsers.RoundTrip.{decode-encode}
use r7z.Write.Streams.{CompletedFolder, encode_all, sum_lengths, write_pack_sizes}

pub repeat-encode_all :
    (vs : List ℕ) (rest : Bytes)
    → All IsU64 vs
    → repeat sevenzip_varuint64_decode (length vs) (encode_all vs ++ rest) ≡ ok (rest, vs)
unfolding repeat encode_all
repeat-encode_all [] rest h = refl
repeat-encode_all (v ∷ vs) rest (k, h) =
    rw
      (
        append_assoc (sevenzip_varuint64_encode v) (encode_all vs) rest,
        decode-encode v (encode_all vs ++ rest) k,
        repeat-encode_all vs rest h,
      )
      refl

encode_all-append : (vs ws : List ℕ) → encode_all (vs ++ ws) ≡ encode_all vs ++ encode_all ws
unfolding encode_all
encode_all-append [] ws = refl
encode_all-append (v ∷ vs) ws =
    rw
      (
        encode_all-append vs ws,
        append_assoc (sevenzip_varuint64_encode v) (encode_all vs) (encode_all ws),
      )
      refl

-- The sizes of all folders, one after another.
abbrev pub all_pack_sizes : List CompletedFolder → List ℕ
all_pack_sizes [] = []
all_pack_sizes (f ∷ fs) = f.pack_sizes ++ all_pack_sizes fs

pub write_pack_sizes-encode_all :
    (folders : List CompletedFolder)
    → write_pack_sizes folders ≡ encode_all (all_pack_sizes folders)
unfolding write_pack_sizes encode_all
write_pack_sizes-encode_all [] = refl
write_pack_sizes-encode_all (f ∷ fs) =
    rw (write_pack_sizes-encode_all fs, encode_all-append f.pack_sizes (all_pack_sizes fs)) refl

pub length-all_pack_sizes :
    (folders : List CompletedFolder) → length (all_pack_sizes folders) ≡ sum_lengths folders
length-all_pack_sizes [] = refl
length-all_pack_sizes (f ∷ fs) =
    omega (arith, length-append f.pack_sizes (all_pack_sizes fs), length-all_pack_sizes fs)
