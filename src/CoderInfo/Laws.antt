-- ===== src/CoderInfo/Laws.antt =====
-- src/coder_info.rs: `CoderInfo::parse` against `CoderInfoRef::parse`.
use r7z.Prelude.{ℕ, ◌≤◌, ◌≡◌, length, length-take, ok, >>=-eq-ok, >>=-cong_ok, arith, le→leb}
use r7z.Prelude.Bits.{bit_and-le}
use r7z.Nom.{Bytes, map_value}
use r7z.Packages.{Packages}
use r7z.CoderInfo
use r7z.CoderInfo.{CoderInfo, CoderInfoRef, parse_arity, parse_properties, parse_ref, codec_id_size}

module _ ⦃pk : Packages⦄ where
  take_short :
      (n : ℕ) (input rest xs : Bytes) → pk.take_complete n input ≡ ok (rest, xs) → length xs ≤ n
  take_short n input rest xs e =
      ground (arith, pk.take_complete_lem n input, length-take n input, e)

  -- The size of the codec id is a field of four bits.
  pub parse_ref-codec_id :
      (input rest : Bytes) (r : CoderInfoRef)
      → parse_ref input ≡ ok (rest, r)
      → length r.codec_id ≤ 15
  unfolding parse_ref
  parse_ref-codec_id input rest r e =
      let ((i₁, flags), e₁, k₁) = >>=-eq-ok (pk.le_u8 input) _ e in
      let ((i₂, id), e₂, k₂) = >>=-eq-ok (pk.take_complete (codec_id_size flags) i₁) _ k₁ in
      let ((i₃, arity), e₃, k₃) = >>=-eq-ok (parse_arity flags i₂) _ k₂ in
      let ((i₄, props), e₄, k₄) = >>=-eq-ok (parse_properties flags i₃) _ k₃ in
      ground (arith, take_short (codec_id_size flags) i₁ i₂ id e₂, bit_and-le flags 0x0f, k₄)

abbrev pub own : CoderInfoRef → CoderInfo
own r = record {
  codec_id = r.codec_id;
  num_in_streams = r.num_in_streams;
  num_out_streams = r.num_out_streams;
  properties = r.properties;
}

module _ ⦃pk : Packages⦄ where
  -- On every input `CoderInfo::parse` returns what `CoderInfoRef::parse` returns, errors included: the
  -- id never exceeds its array.
  pub parse-parse_ref : (input : Bytes) → CoderInfo.parse input ≡ map_value own (parse_ref input)
  unfolding CoderInfo.parse
  parse-parse_ref input = >>=-cong_ok (parse_ref input) _ _ λ (rest, r) e.
      rw (pk.array_try_from_lem 15 r.codec_id) (rw (le→leb _ _ (parse_ref-codec_id input rest r e)))
