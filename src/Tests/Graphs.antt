-- ===== src/Tests/Graphs.antt =====
-- The method registry and the folder graph at concrete inputs.
use r7z.Prelude.{
  ◌≡◌, ◌≢◌, ◌↔◌, length, refl, ℕ, none, some, [], ◌∷◌, get_elem?, ok, out_of_fuel, ◌<◌, arith,
}
use r7z.Nom.{Bytes}
use r7z.Method.{
  eq_bytes, find_info, method_info, method_from_id, info_of, method_from_name, stream_arity,
  arity_of,
}
use r7z.Method.Registry.{SevenZMethod, MethodInfo, method_registry, discriminant}
use r7z.Method.Laws.{IsRegistered, info_of-IsRegistered, method_from_id_sound}
use r7z.Method.Spelling.{Spells, method_from_name_iff}
use r7z.Folder.{Folder, total_out_streams}
use r7z.OutputSizes.{
  OutputSize, known, unknown, reconcile, contradicts, partial_sizes, complete_sizes, get_size,
}
use r7z.OutputSizes.Laws.{get_size-complete_sizes, Allows, reconcile-Allows}
use r7z.Folder.Graph.{FolderGraph, graph}
use r7z.Folder.Graph.Laws.{graph-ne-out_of_fuel}
use r7z.Folder.Graph.Connections.{
  from_coders, arities, arity_try_from, known_arity, guard_graph, differs, valid, check_totals,
  bind, bind_all, bind_pairs_loop, explicit_inputs, final_output, from_raw, only_one, owner_lists,
  packed_inputs, unbound_from,
}
use r7z.Folder.Graph.Order.{execution_order, order_loop, ready_from, release, sum}
use r7z.Folder.Graph.Final.{IsUnbound, graph-final}

info_of-IsRegistered_example : IsRegistered SevenZMethod.fast_lzma2
info_of-IsRegistered_example = info_of-IsRegistered SevenZMethod.fast_lzma2

lzma_id : method_from_id (3 ∷ 1 ∷ 1 ∷ []) ≡ some SevenZMethod.lzma
unfolding method_from_id method_info find_info eq_bytes method_registry
lzma_id = refl

method_from_id_sound_example :
    (info : MethodInfo) × (info_of SevenZMethod.lzma ≡ some info) × (info.id ≡ 3 ∷ 1 ∷ 1 ∷ [])
method_from_id_sound_example = method_from_id_sound (3 ∷ 1 ∷ 1 ∷ []) SevenZMethod.lzma lzma_id

-- "LZ_MA"
abbrev spelled : Bytes
spelled = 0x4C ∷ 0x5A ∷ 0x5F ∷ 0x4D ∷ 0x41 ∷ []

-- The row of LZMA.
lzma_row : (info : MethodInfo) × (info_of SevenZMethod.lzma ≡ some info)
unfolding info_of find_info method_registry discriminant
lzma_row = (_, refl)

method_from_name_iff_example :
    (method_from_name spelled ≡ some SevenZMethod.lzma) ↔ Spells lzma_row.0.name spelled
method_from_name_iff_example = method_from_name_iff spelled SevenZMethod.lzma lzma_row.0 lzma_row.1

-- LZMA2 behind AES: the decryption runs first.
abbrev two_coders : Folder
two_coders = record {
  coders =
      record {
        codec_id = 6 ∷ 0xF1 ∷ 7 ∷ 1 ∷ [];
        num_in_streams = 1;
        num_out_streams = 1;
        properties = none;
      }
      ∷ record { codec_id = 0x21 ∷ []; num_in_streams = 1; num_out_streams = 1; properties = none }
      ∷ [];
  bind_pairs = (1, 0) ∷ [];
  packed_indices = [];
}

chain_of_two :
    graph two_coders
    ≡ ok (record {
      execution = 0 ∷ 1 ∷ [];
      packed = (0, 0) ∷ [];
      final = 1;
      input_owners = 0 ∷ 1 ∷ [];
      output_owners = 0 ∷ 1 ∷ [];
      input_sources = none ∷ some 0 ∷ [];
    })
unfolding graph from_coders arities arity_try_from known_arity guard_graph differs valid
    check_totals bind bind_all bind_pairs_loop explicit_inputs final_output from_raw only_one
    owner_lists packed_inputs unbound_from method_from_id method_info find_info method_registry
    eq_bytes stream_arity arity_of info_of discriminant execution_order order_loop ready_from
    release sum
chain_of_two = refl

graph-ne-out_of_fuel_example : graph two_coders ≢ out_of_fuel
graph-ne-out_of_fuel_example = graph-ne-out_of_fuel two_coders

abbrev chain_graph : FolderGraph
chain_graph = record {
  execution = 0 ∷ 1 ∷ [];
  packed = (0, 0) ∷ [];
  final = 1;
  input_owners = 0 ∷ 1 ∷ [];
  output_owners = 0 ∷ 1 ∷ [];
  input_sources = none ∷ some 0 ∷ [];
}

graph-final_example :
    (IsUnbound 1 two_coders.bind_pairs × (◌<◌ 1 (length chain_graph.output_owners)))
    ↔ (◌≡◌ {A = ℕ} 1 1)
graph-final_example = graph-final two_coders chain_graph 1 chain_of_two

chain_sizes :
    complete_sizes two_coders chain_graph 500 (700 ∷ 500 ∷ [])
    ≡ ok (record { declared = 700 ∷ 500 ∷ []; final_index = 1; final_size = 500 })
unfolding complete_sizes partial_sizes total_out_streams contradicts
chain_sizes = refl

total_two : 1 < 2 → 1 < total_out_streams two_coders
unfolding total_out_streams
total_two h = h

get_size-complete_sizes_example :
    (size : ℕ) × (get_elem? (700 ∷ 500 ∷ []) 1 ≡ some size)
    × (get_size (record { declared = 700 ∷ 500 ∷ []; final_index = 1; final_size = 500 }) 1
        ≡ known size)
get_size-complete_sizes_example =
    get_size-complete_sizes two_coders chain_graph 500 (700 ∷ 500 ∷ [])
      (record { declared = 700 ∷ 500 ∷ []; final_index = 1; final_size = 500 }) 1 chain_sizes
      (total_two (omega arith))

reconcile-Allows_example :
    ((c : OutputSize) × (reconcile (known 3) unknown ≡ ok c) × Allows c 3)
    ↔ ((◌≡◌ {A = ℕ} 3 3) × Unit {0})
reconcile-Allows_example = reconcile-Allows (known 3) unknown 3
