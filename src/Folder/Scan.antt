-- ===== src/Folder/Scan.antt =====
-- src/folder.rs: `scan_folder` against `Folder::parse`.
use r7z.Prelude.{
  ℕ, zero, suc, ◌+◌, ◌≤◌, ◌≡◌, refl, List, ok, >>=-assoc, >>=-cong, >>=-cong_ok, >>=-eq-ok, arith,
}
use r7z.Nom.{Bytes, map_value}
use r7z.Nom.Repeat.{repeat, skip_repeat-repeat}
use r7z.Packages.{Packages}
use r7z.Parsers.{sevenzip_varuint64_decode}
use r7z.CoderInfo
use r7z.CoderInfo.{CoderInfo}
use r7z.CoderInfo.Laws.{parse-parse_ref}
use r7z.Folder
use r7z.Folder.{
  Folder, sum_outputs, total_out_streams, parse_bind_pair, parse_packed_index, parse_packed_indices,
  skip_packed_indices, parse_coders, scan_coders, scan_folder,
}
use r7z.Folder.Counts.{
  StreamCounts, no_streams, checked_coder_count, add_coder, layout, max_folder_streams,
}

-- What an accepted coder adds to the totals.
pub add_coder-eq-ok :
    (counts : StreamCounts) (input : Bytes) (ins outs : ℕ) (next : StreamCounts)
    → add_coder counts input ins outs ≡ ok next
    → (next.inputs ≡ counts.inputs + ins)
      × (next.outputs ≡ counts.outputs + outs)
      × (next.inputs ≤ max_folder_streams)
      × (next.outputs ≤ max_folder_streams)
unfolding add_coder
add_coder-eq-ok counts input ins outs next e = ground arith

module _ ⦃pk : Packages⦄ where
  scan_coders-parse_coders :
      (n : ℕ) (counts : StreamCounts) (input : Bytes)
      → scan_coders n counts input ≡ map_value (λ p. p.1) (parse_coders n counts input)
  unfolding scan_coders parse_coders
  scan_coders-parse_coders zero counts input = refl
  scan_coders-parse_coders (suc n) counts input =
      simp (>>=-assoc, parse-parse_ref, scan_coders-parse_coders n)

  skip_packed_indices-parse :
      (counts : StreamCounts) (n : ℕ) (input : Bytes)
      → skip_packed_indices counts n input
        ≡ map_value (λ _. tt) (parse_packed_indices counts n input)
  unfolding skip_packed_indices parse_packed_indices
  skip_packed_indices-parse counts n input =
      ground (arith, skip_repeat-repeat (parse_packed_index counts) n input)

  pub parse_coders-totals :
      (n : ℕ) (counts last : StreamCounts) (input rest : Bytes) (cs : List CoderInfo)
      → counts.outputs ≤ max_folder_streams
      → parse_coders n counts input ≡ ok (rest, (cs, last))
      → (last.outputs ≡ counts.outputs + sum_outputs cs) × (last.outputs ≤ max_folder_streams)
  unfolding parse_coders
  parse_coders-totals zero counts last input rest cs h e = ground arith
  parse_coders-totals (suc n) counts last input rest cs h e =
      let ((i₁, c), e₁, k₁) = >>=-eq-ok (CoderInfo.parse input) _ e in
      let (next, e₂, k₂) =
        >>=-eq-ok (add_coder counts i₁ c.num_in_streams c.num_out_streams) _ k₁ in
      let ((i₃, (ds, end)), e₃, k₃) = >>=-eq-ok (parse_coders n next i₁) _ k₂ in
      ground (
        arith,
        add_coder-eq-ok counts i₁ c.num_in_streams c.num_out_streams next e₂,
        parse_coders-totals n next end i₁ i₃ ds,
        e₃,
        k₃,
      )

  -- On every input the scanner returns what the parser returns, errors included, with the number of
  -- output streams in place of the folder.
  pub scan_folder-parse :
      (input : Bytes) → scan_folder input ≡ map_value total_out_streams (Folder.parse input)
  unfolding scan_folder Folder.parse total_out_streams
  scan_folder-parse input =
      simp (>>=-assoc, scan_coders-parse_coders, skip_repeat-repeat, skip_packed_indices-parse)
        (>>=-cong (sevenzip_varuint64_decode input) _ _ λ (i, n).
          >>=-cong (checked_coder_count i n) _ _ λ k.
            >>=-cong_ok (parse_coders k no_streams i) _ _ λ (j, (cs, counts)) e.
              >>=-cong (layout counts j) _ _ λ (pairs, packed).
                >>=-cong (repeat (parse_bind_pair counts) pairs j) _ _ λ (j, bound).
                  >>=-cong (parse_packed_indices counts packed j) _ _ λ (j, at).
                    ground (arith, parse_coders-totals k no_streams counts i _ cs (omega arith) e))
