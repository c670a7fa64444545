-- ===== src/Runner/Shapes.antt =====
-- pagedllm/engine.py: the inputs of the model fit the tokens of the step.
use paged_llm.Base.{
  ℕ, zero, suc, ◌+◌, ◌-◌, ◌*◌, ◌<◌, ◌≤◌, ◌≡◌, refl, List, [], ◌∷◌, ◌++◌, some, if◌then◌else◌, map,
  length, take, drop, last?, last?-append, ap, ◌∙◌, length-append, ok, arith, eq→==,
}
use paged_llm.Sequence.{Sequence, num_tokens}
use paged_llm.BlockManager.{range_from}
use paged_llm.BlockManager.PrefixCache.{slice}
use paged_llm.BlockManager.Sequences.{slot_mapping_total, length-range_from}
use paged_llm.Scheduler.{Scheduler, SchedulerOutput, ScheduledSequence}
use paged_llm.Scheduler.Invariant.{IsWell, ItemsOk, planned}
use paged_llm.Scheduler.Visit.{sum_new}
use paged_llm.Runner.Largest.{largest_lem}
use paged_llm.Runner.{
  Batch, empty_batch, build_item, build_items, Inputs, build_inputs, sampled_seqs, pad,
}

length-drop {ℓ} : {A : Type ℓ} (n : ℕ) (xs : List A) → length (drop n xs) ≡ length xs - n
length-drop zero xs = omega arith
length-drop (suc n) [] = omega arith
length-drop (suc n) (x ∷ xs) = length-drop n xs ∙ omega arith

length-take {ℓ} : {A : Type ℓ} (n : ℕ) (xs : List A) → n ≤ length xs → length (take n xs) ≡ n
length-take zero xs h = refl
length-take (suc n) [] h = absurd (omega arith)
length-take (suc n) (x ∷ xs) h = ap suc (length-take n xs (omega arith))

pub length-slice {ℓ} :
    {A : Type ℓ} (a n : ℕ) (xs : List A) → a + n ≤ length xs → length (slice a (a + n) xs) ≡ n
length-slice a n xs h =
    let e : a + n - a ≡ n = omega arith in
    rw e (length-take n (drop a xs) (omega (arith, length-drop a xs)))

-- The tokens of an item are there, and have their blocks.
abbrev pub Covered : Scheduler → List ScheduledSequence → Type 0
Covered s [] = Unit {0}
Covered s (i ∷ is) =
    ((s.seqs i.seq).num_computed_tokens + i.num_new_tokens ≤ num_tokens (s.seqs i.seq))
    × ((s.seqs i.seq).num_computed_tokens + i.num_new_tokens
        ≤ length (s.seqs i.seq).block_table * s.bm.block_size)
    × Covered s is

pub Covered-of_well :
    (s : Scheduler) (all items : List ScheduledSequence)
    → IsWell s all
    → ((id : ℕ) → planned id items ≤ planned id all)
    → ItemsOk s.seqs s.running items
    → Covered s items
Covered-of_well s all [] w part it = tt
Covered-of_well s all (i ∷ is) w part it =
    let r = w.running_ok i.seq it.0 in
    let own : i.num_new_tokens ≤ planned i.seq all =
      ground (arith, part i.seq, eq→== i.seq i.seq refl) in
    (
      omega (arith, r.within, own),
      omega (arith, r.covered, own),
      Covered-of_well s all is w (λ id. omega (arith, part id)) it.4,
    )

-- What the loop adds for the items: one entry a token, one an item, or one a sampled item.
pub record Grown (b b' : Batch) (off : ℕ) (items : List ScheduledSequence) : Type 0 where
  pub input_ids : length b'.input_ids ≡ length b.input_ids + sum_new items
  pub positions : length b'.positions ≡ length b.positions + sum_new items
  pub slots : length b'.slots ≡ length b.slots + sum_new items
  pub offsets : length b'.cu ≡ length b.cu + length items
  pub end : last? b'.cu ≡ some (off + sum_new items)
  pub seq_lens : length b'.seq_lens ≡ length b.seq_lens + length items
  pub block_tables : length b'.block_tables ≡ length b.block_tables + length items
  pub logits_idx : length b'.logits_idx ≡ length b.logits_idx + length (sampled_seqs items)
  pub params : length b'.params ≡ length b.params + length (sampled_seqs items)

-- The lists after an item whose slots are found.
abbrev added : Batch → ℕ → Sequence → ScheduledSequence → List ℕ → Batch
added b off seq i slots =
    let start = seq.num_computed_tokens in
    let n = i.num_new_tokens in
    record {
      input_ids = b.input_ids ++ slice start (start + n) seq.token_ids;
      positions = b.positions ++ range_from start n;
      slots = b.slots ++ slots;
      cu = b.cu ++ (off + n) ∷ [];
      seq_lens = b.seq_lens ++ (start + n) ∷ [];
      block_tables = b.block_tables ++ seq.block_table ∷ [];
      logits_idx = if i.needs_sampling then b.logits_idx ++ (off + n - 1) ∷ [] else b.logits_idx;
      params = if i.needs_sampling then b.params ++ seq.sampling_params ∷ [] else b.params;
    }

module _ (s : Scheduler) (pos : 0 < s.bm.block_size) where
  build_item_lem :
      (b : Batch) (off : ℕ) (i : ScheduledSequence)
      → last? b.cu ≡ some off
      → Covered s (i ∷ [])
      → (b' : Batch) × (build_item s b i ≡ ok b') × Grown b b' off (i ∷ [])
  unfolding build_item
  build_item_lem b off i at c =
      let seq = s.seqs i.seq in
      let n = i.num_new_tokens in
      let start = seq.num_computed_tokens in
      let (slots, e, size, _) = slot_mapping_total s.bm seq start n pos c.1 in
      (
        added b off seq i slots,
        rw (e, at),
        record {
          input_ids = omega (
            arith,
            length-append b.input_ids (slice start (start + n) seq.token_ids),
            length-slice start n seq.token_ids c.0,
          );
          positions =
              omega
                (arith, length-append b.positions (range_from start n), length-range_from start n);
          slots = omega (arith, length-append b.slots slots, size);
          offsets = omega (arith, length-append b.cu ((off + n) ∷ []));
          end = last?-append b.cu (off + n) ∙ ap some (omega arith);
          seq_lens = omega (arith, length-append b.seq_lens ((start + n) ∷ []));
          block_tables = omega (arith, length-append b.block_tables (seq.block_table ∷ []));
          logits_idx = ground (arith, length-append b.logits_idx ((off + n - 1) ∷ []));
          params = ground (arith, length-append b.params (seq.sampling_params ∷ []));
        },
      )

  Grown-trans :
      {b b1 b2 : Batch} (off : ℕ) (i : ScheduledSequence) (items : List ScheduledSequence)
      → Grown b b1 off (i ∷ [])
      → Grown b1 b2 (off + i.num_new_tokens) items
      → Grown b b2 off (i ∷ items)
  Grown-trans off i items g h = record {
    input_ids = omega (arith, g.input_ids, h.input_ids);
    positions = omega (arith, g.positions, h.positions);
    slots = omega (arith, g.slots, h.slots);
    offsets = omega (arith, g.offsets, h.offsets);
    end = h.end ∙ ap some (omega arith);
    seq_lens = omega (arith, g.seq_lens, h.seq_lens);
    block_tables = omega (arith, g.block_tables, h.block_tables);
    logits_idx = ground (arith, g.logits_idx, h.logits_idx);
    params = ground (arith, g.params, h.params);
  }

  build_items_lem :
      (b : Batch) (off : ℕ) (items : List ScheduledSequence)
      → last? b.cu ≡ some off
      → Covered s items
      → (b' : Batch) × (build_items s b items ≡ ok b') × Grown b b' off items
  unfolding build_items
  build_items_lem b off [] at c = (
    b,
    refl,
    record {
      input_ids = omega arith;
      positions = omega arith;
      slots = omega arith;
      offsets = omega arith;
      end = at ∙ ap some (omega arith);
      seq_lens = omega arith;
      block_tables = omega arith;
      logits_idx = omega arith;
      params = omega arith;
    },
  )
  build_items_lem b off (i ∷ items) at c =
      let (b1, e1, g1) = build_item_lem b off i at (c.0, c.1, tt) in
      let (b2, e2, g2) =
        build_items_lem b1 (off + i.num_new_tokens) items (g1.end ∙ ap some (omega arith)) c.2 in
      (b2, rw (e1, e2), Grown-trans off i items g1 g2)

-- The tensors fit the items of a step: one input, position and slot for each token, one entry for
-- each sequence, and one row of logits for each that is sampled.
pub record Fits (inputs : Inputs) (items : List ScheduledSequence) : Type 0 where
  pub input_ids : length inputs.input_ids ≡ sum_new items
  pub positions : length inputs.positions ≡ sum_new items
  pub slot_mapping : length inputs.slot_mapping ≡ sum_new items
  pub cu_seqlens_q : length inputs.cu_seqlens_q ≡ suc (length items)
  pub end : last? inputs.cu_seqlens_q ≡ some (sum_new items)
  pub seq_lens_k : length inputs.seq_lens_k ≡ length items
  pub block_tables : length inputs.block_tables ≡ length items
  pub logits_idx : length inputs.logits_idx ≡ length (sampled_seqs items)
  pub params : length inputs.params ≡ length (sampled_seqs items)

pub length-map {ℓ ℓ'} :
    {A : Type ℓ} {B : Type ℓ'} (f : A → B) (xs : List A) → length (map f xs) ≡ length xs
length-map f [] = refl
length-map f (x ∷ xs) = ap suc (length-map f xs)

-- For a scheduler that is well-formed with the output's items scheduled, at least one,
-- `build_inputs` does not raise. It gives one input token, position and slot for each token of the
-- step, one sequence length and row of blocks for each item, offsets that end with the number of
-- tokens, and one index of logits and one set of parameters for each item that is sampled.
pub build_inputs_total :
    (s : Scheduler) (out : SchedulerOutput)
    → IsWell s out.scheduled
    → 0 < length out.scheduled
    → (inputs : Inputs) × (build_inputs s out ≡ ok inputs) × Fits inputs out.scheduled
unfolding build_inputs
build_inputs_total s out w h =
    let items = out.scheduled in
    let covered = Covered-of_well s items items w (λ id. omega arith) w.items_ok in
    let (b, e, g) = build_items_lem s w.valid.size_pos empty_batch 0 items refl covered in
    let (blocks, e1, _) =
      largest_lem (map length b.block_tables)
        (omega (arith, length-map length b.block_tables, g.block_tables)) in
    let (longest, e2, _) =
      largest_lem (map (λ (i : ScheduledSequence). i.num_new_tokens) items)
        (omega (arith, length-map (λ (i : ScheduledSequence). i.num_new_tokens) items)) in
    (
      record {
        input_ids = b.input_ids;
        positions = b.positions;
        slot_mapping = b.slots;
        block_tables = map (pad blocks) b.block_tables;
        cu_seqlens_q = b.cu;
        seq_lens_k = b.seq_lens;
        max_q_len = longest;
        logits_idx = b.logits_idx;
        params = b.params;
      },
      rw (e, e1, e2),
      record {
        input_ids = omega (arith, g.input_ids);
        positions = omega (arith, g.positions);
        slot_mapping = omega (arith, g.slots);
        cu_seqlens_q = omega (arith, g.offsets);
        end = g.end ∙ ap some (omega arith);
        seq_lens_k = omega (arith, g.seq_lens);
        block_tables = omega (arith, length-map (pad blocks) b.block_tables, g.block_tables);
        logits_idx = omega (arith, g.logits_idx);
        params = omega (arith, g.params);
      },
    )
