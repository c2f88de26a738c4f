-- ===== src/Slice.antt =====
-- src/parsers.rs: `bytes_subslice`, which turns a slice of a buffer into a shared view by the
-- distance of their addresses.
pub mod Laws
use r7z.Prelude.{
  ℕ, word_mod, ◌+◌, ◌-◌, ◌≤◌, ◌≡◌, refl, Option, none, some, List, [], ◌∷◌, ◌++◌, length, take,
  drop, Result, ok, err, ◌>>=◌, ok_or, if◌then◌else◌, leb, checked_sub, checked_add, take-append,
  drop-append, arith, length-append,
}
use r7z.Nom.{Bytes, ParseError, failure, verify}

-- A region of memory: the address of its first byte, and its bytes.
pub record Slice : Type 0 where
  pub ptr : ℕ
  pub bytes : Bytes

-- `.filter(|&end| end <= backing.len())`
unfoldable pub end_within : ℕ → ℕ → Option ℕ
end_within len end = if leb end len then some end else none

-- `backing.slice(offset..end)`; the result stands for the bytes it shows.
unfoldable pub shared_view : Slice → ℕ → Bytes → Bytes → Result ParseError Bytes
unfolding end_within
shared_view backing ptr [] error_input = ok []
shared_view backing ptr (b ∷ bs) error_input = do
  offset ← ok_or (checked_sub ptr backing.ptr) (failure error_input verify)
  end ← ok_or (checked_add offset (length (b ∷ bs))) (failure error_input verify)
  end ← ok_or (end_within (length backing.bytes) end) (failure error_input verify)
  ok (take (end - offset) (drop offset backing.bytes))

unfoldable pub bytes_subslice : Slice → Slice → Bytes → Result ParseError Bytes
unfolding shared_view
bytes_subslice backing slice error_input = shared_view backing slice.ptr slice.bytes error_input

-- The slice is the part of the buffer behind `before`.
pub record Within (backing slice : Slice) : Type 0 where
  pub before : Bytes
  pub after : Bytes
  pub at_address : slice.ptr ≡ backing.ptr + length before
  pub same_bytes : backing.bytes ≡ before ++ (slice.bytes ++ after)
  pub addressable : length backing.bytes ≤ word_mod - 1
