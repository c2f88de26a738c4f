-- ===== src/Folder/Graph/Connections.antt =====
-- src/folder.rs: `StreamArity`, `StreamOwners` and `Bindings`: which coder owns which stream, and
-- which output feeds which input.
use r7z.Prelude.{
  ℕ, ◌+◌, Bool, true, false, not, ◌&&◌, ◌||◌, Option, none, some, List, [], ◌∷◌, ◌++◌, length,
  get_elem?, set, replicate, Result, ok, err, ◌>>=◌, ◌>>◌, ok_or, if◌then◌else◌, ◌==◌, ltb, leb,
  try_usize, checked_add, checked_sub,
}
use r7z.CoderInfo.{CoderInfo}
use r7z.Method.{method_from_id, stream_arity}
use r7z.Method.Registry.{SevenZMethod}
use r7z.Folder.Counts.{max_folder_streams}

-- `R7zError`, as far as the graph names it; `missing_method` is the panic of `SevenZMethod::info`.
pub data GraphError : Type 0 where
  invalid_folder_graph missing_method : GraphError

unfoldable pub valid {ℓ} : {A : Type ℓ} → Option A → Result GraphError A
valid o = ok_or o invalid_folder_graph

unfoldable pub guard_graph : Bool → Result GraphError (Unit {0})
guard_graph true = ok tt
guard_graph false = err invalid_folder_graph

-- `StreamArity`
pub record StreamArity : Type 0 where
  pub inputs : ℕ
  pub outputs : ℕ

-- `method_from_id(&coder.codec_id).map(stream_arity)`
unfoldable pub known_arity : Option SevenZMethod → Result GraphError (Option (ℕ × ℕ))
known_arity none = ok none
known_arity (some m) = do arity ← ok_or (stream_arity m) missing_method; ok (some arity)

-- `Some(expected) if actual != expected`
unfoldable pub differs : ℕ × ℕ → Option (ℕ × ℕ) → Bool
differs actual none = false
differs actual (some expected) = not (actual.0 == expected.0 && actual.1 == expected.1)

-- `1..=MAX_FOLDER_STREAMS`
abbrev pub in_range : ℕ → Bool
in_range n = leb 1 n && leb n max_folder_streams

-- `StreamArity::try_from`
unfoldable pub arity_try_from : CoderInfo → Result GraphError StreamArity
arity_try_from coder = do
  expected ← known_arity (method_from_id coder.codec_id)
  guard_graph (not (differs (coder.num_in_streams, coder.num_out_streams) expected))
  ins ← valid (try_usize coder.num_in_streams)
  outs ← valid (try_usize coder.num_out_streams)
  guard_graph (in_range ins && in_range outs)
  ok (record { inputs = ins; outputs = outs })

unfoldable pub arities : List CoderInfo → Result GraphError (List StreamArity)
arities [] = ok []
arities (c ∷ cs) = do a ← arity_try_from c; rest ← arities cs; ok (a ∷ rest)

-- `.filter(|&count| count <= MAX_FOLDER_STREAMS)`
abbrev pub within_limit : Option ℕ → Option ℕ
within_limit none = none
within_limit (some count) = if leb count max_folder_streams then some count else none

-- The fold over the arities, from the totals before.
unfoldable pub check_totals : ℕ → ℕ → List StreamArity → Result GraphError (ℕ × ℕ)
check_totals ins outs [] = ok (ins, outs)
check_totals ins outs (a ∷ rest) = do
  ins ← valid (within_limit (checked_add ins a.inputs))
  outs ← valid (within_limit (checked_add outs a.outputs))
  check_totals ins outs rest

pub record StreamOwners : Type 0 where
  pub inputs : List ℕ
  pub outputs : List ℕ

-- `repeat_n(CoderIndex(index), count)` for each coder from `index` on.
unfoldable pub owner_lists : ℕ → List StreamArity → StreamOwners
owner_lists index [] = record { inputs = []; outputs = [] }
owner_lists index (a ∷ rest) =
    let owners = owner_lists (index + 1) rest in
    record {
      inputs = replicate a.inputs index ++ owners.inputs;
      outputs = replicate a.outputs index ++ owners.outputs;
    }

-- `StreamOwners::from_coders`
unfoldable pub from_coders : List CoderInfo → Result GraphError StreamOwners
from_coders coders = do found ← arities coders; _ ← check_totals 0 0 found; ok (owner_lists 0 found)

pub record Bindings : Type 0 where
  pub bound_inputs : List Bool
  pub bound_outputs : List Bool
  pub input_sources : List (Option ℕ)
  pub edges : List (List ℕ)
  pub indegree : List ℕ

-- `InputStreamIndex::from_raw` and `OutputStreamIndex::from_raw`.
unfoldable pub from_raw : ℕ → ℕ → Result GraphError ℕ
from_raw raw total = do index ← valid (try_usize raw); guard_graph (ltb index total); ok index

-- `Bindings::bind`
unfoldable pub bind : Bindings → ℕ → ℕ → StreamOwners → Result GraphError Bindings
bind b raw_input raw_output owners = do
  input ← from_raw raw_input (length owners.inputs)
  output ← from_raw raw_output (length owners.outputs)
  input_bound ← valid (get_elem? b.bound_inputs input)
  output_bound ← valid (get_elem? b.bound_outputs output)
  guard_graph (not (input_bound || output_bound))
  source ← valid (get_elem? owners.outputs output)
  target ← valid (get_elem? owners.inputs input)
  guard_graph (not (source == target))
  _ ← valid (get_elem? b.input_sources input)
  out_edges ← valid (get_elem? b.edges source)
  degree ← valid (get_elem? b.indegree target)
  ok (record {
    bound_inputs = set b.bound_inputs input true;
    bound_outputs = set b.bound_outputs output true;
    input_sources = set b.input_sources input (some output);
    edges = set b.edges source (out_edges ++ (target ∷ []));
    indegree = set b.indegree target (degree + 1);
  })

-- The loop over the pairs.
unfoldable pub bind_pairs_loop : List (ℕ × ℕ) → StreamOwners → Bindings → Result GraphError Bindings
bind_pairs_loop [] owners b = ok b
bind_pairs_loop ((input, output) ∷ pairs) owners b = do
  b ← bind b input output owners
  bind_pairs_loop pairs owners b

-- `Bindings::new`
unfoldable pub bind_all : List (ℕ × ℕ) → StreamOwners → ℕ → Result GraphError Bindings
bind_all pairs owners coder_count = do
  expected_pairs ← valid (checked_sub (length owners.outputs) 1)
  guard_graph (length pairs == expected_pairs)
  bind_pairs_loop pairs owners (record {
    bound_inputs = replicate (length owners.inputs) false;
    bound_outputs = replicate (length owners.outputs) false;
    input_sources = replicate (length owners.inputs) none;
    edges = replicate coder_count [];
    indegree = replicate coder_count 0;
  })

-- The indices, from `index` on, that are not bound.
unfoldable pub unbound_from : ℕ → List Bool → List ℕ
unbound_from index [] = []
unbound_from index (bound ∷ bs) =
    let rest = unbound_from (index + 1) bs in if bound then rest else index ∷ rest

-- `(Some(output), None) => Ok(output)`
unfoldable pub only_one : List ℕ → Result GraphError ℕ
only_one (i ∷ []) = ok i
only_one _ = err invalid_folder_graph

-- `Bindings::final_output`
unfoldable pub final_output : Bindings → Result GraphError ℕ
final_output b = only_one (unbound_from 0 b.bound_outputs)

-- The map over the explicit indices, with the `seen` flags.
unfoldable pub explicit_inputs :
    List Bool → ℕ → List ℕ → List Bool → Result GraphError (List (ℕ × ℕ))
explicit_inputs bound packed [] seen = ok []
explicit_inputs bound packed (raw ∷ raws) seen = do
  input ← from_raw raw (length bound)
  is_bound ← valid (get_elem? bound input)
  was_seen ← valid (get_elem? seen input)
  guard_graph (not is_bound && not was_seen)
  rest ← explicit_inputs bound (packed + 1) raws (set seen input true)
  ok ((packed, input) ∷ rest)

-- `Bindings::packed_inputs`
unfoldable pub packed_inputs : Bindings → List ℕ → Result GraphError (List (ℕ × ℕ))
packed_inputs b [] = do input ← only_one (unbound_from 0 b.bound_inputs); ok ((0, input) ∷ [])
packed_inputs b (i ∷ is) = do
  guard_graph (length (i ∷ is) == length (unbound_from 0 b.bound_inputs))
  explicit_inputs b.bound_inputs 0 (i ∷ is) (replicate (length b.bound_inputs) false)
