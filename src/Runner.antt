-- ===== src/Runner.antt =====
-- pagedllm/engine.py: `ModelRunner`, which turns a scheduler output into the inputs of the model.
-- The model, the tensors and the sampler are not modelled: they are parameters, with a state `W`
-- of any type (the caches and the random generator). A tensor of numbers is a list.
pub mod Largest
pub mod Shapes
pub mod Tokens
pub mod Layout
pub mod Owners
use paged_llm.Base.{
  ℕ, zero, suc, ◌+◌, ◌-◌, List, [], ◌∷◌, ◌++◌, map, if◌then◌else◌, ltb, length, last?, Dict, Result,
  ok, raise, index_error, value_error, or_raise, ◌>>=◌,
}
use paged_llm.BlockManager.{CopyOnWrite, range_from}
use paged_llm.BlockManager.Slots.{slot_mapping, take_pending_copies}
use paged_llm.BlockManager.PrefixCache.{slice}
use paged_llm.Scheduler.{Scheduler, SchedulerOutput, ScheduledSequence}

-- The lists that the loop of `build_inputs` fills.
pub record Batch : Type 0 where
  pub input_ids : List ℕ
  pub positions : List ℕ
  pub slots : List ℕ
  pub cu : List ℕ
  pub seq_lens : List ℕ
  pub block_tables : List (List ℕ)
  pub logits_idx : List ℕ
  pub params : List ℕ

abbrev pub empty_batch : Batch
empty_batch = record {
  input_ids = [];
  positions = [];
  slots = [];
  cu = 0 ∷ [];
  seq_lens = [];
  block_tables = [];
  logits_idx = [];
  params = [];
}

-- One round of the loop. `params` are references to SamplingParams objects.
unfoldable pub build_item : Scheduler → Batch → ScheduledSequence → Result Batch
unfolding slot_mapping range_from
build_item s b item = do
  let seq = s.seqs item.seq
  let n = item.num_new_tokens
  let start = seq.num_computed_tokens
  slots ← slot_mapping s.bm seq start n
  offset ← or_raise (last? b.cu) index_error
  ok (record {
    input_ids = b.input_ids ++ slice start (start + n) seq.token_ids;
    positions = b.positions ++ range_from start n;
    slots = b.slots ++ slots;
    cu = b.cu ++ (offset + n) ∷ [];
    seq_lens = b.seq_lens ++ (start + n) ∷ [];
    block_tables = b.block_tables ++ seq.block_table ∷ [];
    logits_idx =
        if item.needs_sampling then b.logits_idx ++ (offset + n - 1) ∷ [] else b.logits_idx;
    params = if item.needs_sampling then b.params ++ seq.sampling_params ∷ [] else b.params;
  })

unfoldable pub build_items : Scheduler → Batch → List ScheduledSequence → Result Batch
unfolding build_item
build_items s b [] = ok b
build_items s b (item ∷ items) = do b' ← build_item s b item; build_items s b' items

abbrev pub larger : ℕ → ℕ → ℕ
larger a b = if ltb a b then b else a

abbrev pub largest_from : ℕ → List ℕ → ℕ
largest_from m [] = m
largest_from m (x ∷ xs) = largest_from (larger m x) xs

-- `max(xs)`, which raises on nothing.
abbrev pub largest : List ℕ → Result ℕ
largest [] = raise value_error
largest (x ∷ xs) = ok (largest_from x xs)

abbrev pub zeros : ℕ → List ℕ
zeros zero = []
zeros (suc n) = 0 ∷ zeros n

-- A row of the matrix of block tables: zeros, with the table written over the front.
abbrev pub pad : ℕ → List ℕ → List ℕ
pad width row = row ++ zeros (width - length row)

-- The tensors of one forward: AttentionMetadata and the rest of the tuple.
pub record Inputs : Type 0 where
  pub input_ids : List ℕ
  pub positions : List ℕ
  pub slot_mapping : List ℕ
  pub block_tables : List (List ℕ)
  pub cu_seqlens_q : List ℕ
  pub seq_lens_k : List ℕ
  pub max_q_len : ℕ
  pub logits_idx : List ℕ
  pub params : List ℕ

unfoldable pub build_inputs : Scheduler → SchedulerOutput → Result Inputs
unfolding build_items
build_inputs s out = do
  b ← build_items s empty_batch out.scheduled
  max_blocks ← largest (map length b.block_tables)
  max_q_len ← largest (map (λ i. i.num_new_tokens) out.scheduled)
  ok (record {
    input_ids = b.input_ids;
    positions = b.positions;
    slot_mapping = b.slots;
    block_tables = map (pad max_blocks) b.block_tables;
    cu_seqlens_q = b.cu;
    seq_lens_k = b.seq_lens;
    max_q_len = max_q_len;
    logits_idx = b.logits_idx;
    params = b.params;
  })

-- The ids of the items that are sampled.
abbrev pub sampled_seqs : List ScheduledSequence → List ℕ
sampled_seqs [] = []
sampled_seqs (i ∷ is) = if i.needs_sampling then i.seq ∷ sampled_seqs is else sampled_seqs is

-- `{k: v for k, v in zip(ks, vs)}`, for distinct keys.
abbrev pub zip_dict : List ℕ → List ℕ → Dict
zip_dict [] vs = []
zip_dict (k ∷ ks) [] = []
zip_dict (k ∷ ks) (v ∷ vs) = (k, v) ∷ zip_dict ks vs

-- What the runner calls.
pub record Backend (W : Type 0) : Type 1 where
  pub Logits : Type 0
  pub apply_copies : W → List CopyOnWrite → W
  pub forward : W → Inputs → Logits × W
  pub sample : W → Logits → List ℕ → List ℕ × W

module _ {W : Type 0} (backend : Backend W) where
  abbrev sample_all : W → backend.Logits → List ScheduledSequence → List ℕ → Dict × W
  sample_all w logits items [] = ([], w)
  sample_all w logits items (p ∷ ps) =
      let (tokens, w') = backend.sample w logits (p ∷ ps) in
      (zip_dict (sampled_seqs items) tokens, w')

  unfoldable pub run : W → Scheduler → SchedulerOutput → Result (Dict × W × Scheduler)
  unfolding take_pending_copies build_inputs
  run w s out = do
    let (ops, bm) = take_pending_copies s.bm
    let w1 = backend.apply_copies w ops
    inputs ← build_inputs (record s { bm = bm }) out
    let (logits, w2) = backend.forward w1 inputs
    let (sampled, w3) = sample_all w2 logits out.scheduled inputs.params
    ok (sampled, w3, record s { bm = bm })
