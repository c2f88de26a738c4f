-- ===== src/Slice/Laws.antt =====
-- src/parsers.rs: when `bytes_subslice` gives a view, and which bytes the view shows.
use r7z.Prelude.{
  ℕ, word_mod, ◌+◌, ◌-◌, ◌≤◌, ◌≡◌, refl, [], ◌∷◌, ◌++◌, length, take, drop, ok, take-append,
  drop-append, arith, length-append, ap, ◌∙◌, append_assoc,
}
use r7z.Nom.{Bytes}
use r7z.Slice.{Slice, Within, shared_view, bytes_subslice}

-- The bytes between two offsets of a buffer.
cut_out :
    (before mid after : Bytes) (end : ℕ)
    → end ≡ length before + length mid
    → take (end - length before) (drop (length before) (before ++ (mid ++ after))) ≡ mid
cut_out before mid after end e =
    let k : end - length before ≡ length mid = omega (arith, e) in
    rw (k, drop-append before (mid ++ after), take-append mid after)

shared_view_lem :
    (backing : Slice) (before b after : Bytes) (error_input : Bytes)
    → backing.bytes ≡ before ++ (b ++ after)
    → length backing.bytes ≤ word_mod - 1
    → shared_view backing (backing.ptr + length before) b error_input ≡ ok b
unfolding shared_view
shared_view_lem backing before [] after error_input e h = refl
shared_view_lem backing before (b ∷ bs) after error_input e h = ground (
  arith,
  cut_out before (b ∷ bs) after (length before + length (b ∷ bs)) refl,
  ap length e,
  length-append before ((b ∷ bs) ++ after),
  length-append (b ∷ bs) after,
  ptr,
  e,
)
  where
    ptr : backing.ptr + length before - backing.ptr ≡ length before
    ptr = omega arith

-- For a slice that lies inside the buffer, at the address of its first byte, the view shows the
-- bytes of the slice.
pub bytes_subslice-Within :
    (backing slice : Slice) (error_input : Bytes)
    → Within backing slice
    → bytes_subslice backing slice error_input ≡ ok slice.bytes
unfolding bytes_subslice
bytes_subslice-Within backing slice error_input w =
    rw w.at_address
      (shared_view_lem backing w.before slice.bytes w.after error_input w.same_bytes w.addressable)

-- A part of a slice of the buffer lies inside the buffer as well.
pub sub_slice :
    (backing slice : Slice) (front mid back : Bytes)
    → Within backing slice
    → slice.bytes ≡ front ++ (mid ++ back)
    → Within backing (record { ptr = slice.ptr + length front; bytes = mid })
sub_slice backing slice front mid back w e = record {
  before = w.before ++ front;
  after = back ++ w.after;
  at_address = omega (arith, w.at_address, length-append w.before front);
  same_bytes =
      w.same_bytes
      ∙ rw
          (
            e,
            append_assoc front (mid ++ back) w.after,
            append_assoc mid back w.after,
            append_assoc w.before front (mid ++ (back ++ w.after)),
          )
          refl;
  addressable = w.addressable;
}

-- The same at a given address.
pub sub_slice_at :
    (backing slice : Slice) (ptr : ℕ) (front mid back : Bytes)
    → Within backing slice
    → slice.bytes ≡ front ++ (mid ++ back)
    → ptr ≡ slice.ptr + length front
    → Within backing (record { ptr = ptr; bytes = mid })
sub_slice_at backing slice ptr front mid back w e p =
    rw p (sub_slice backing slice front mid back w e)
