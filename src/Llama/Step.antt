-- ===== src/Llama/Step.antt =====
-- pagedllm/engine.py and pagedllm/model/llama.py: the forward pass of a step, on the inputs that the
-- runner makes of the scheduler's output.
use paged_llm.Base.{
  ℕ, zero, suc, ◌+◌, ◌-◌, ◌<◌, ◌≤◌, ◌≡◌, refl, sym, ap, subst, ◌∙◌, List, [], ◌∷◌, ◌++◌, map,
  concat_map, concat_map-map, count, length, AllBelow, Bool, Result, ok, arith,
}
use paged_llm.BlockManager.{range_from}
use paged_llm.Scheduler.{Scheduler, SchedulerOutput, ScheduledSequence}
use paged_llm.Scheduler.Invariant.{IsWell, ItemsOk, tables}
use paged_llm.KvCache.{Tensors, KvCache}
use paged_llm.KvCache.Laws.{Laws}
use paged_llm.Runner.{Inputs, build_inputs}
use paged_llm.Sequence.{num_tokens}
use paged_llm.Runner.Shapes.{Covered, Covered-of_well, length-map, length-slice}
use paged_llm.Runner.Layout.{part_for, parts, new_tokens, lasts}
use paged_llm.Runner.Owners.{build_inputs-Laid}
use paged_llm.Llama.Lasts.{sampled_items, AllFull, last_row, lasts_rows, lasts_below}
use paged_llm.Llama.{Floats, DecoderLayer, Llama, AttentionMetadata, rms_norm, forward}
use paged_llm.Llama.Rows.{row_or, map-map, map-concat_map}
use paged_llm.Llama.Dense.{Session, positions_of, dense_layer, dense_layers}
use paged_llm.Llama.Layer.{part_of, padded, Filled, all_x, all_positions, length-hidden}
use paged_llm.Llama.Cached.{IsPagedAttention}
use paged_llm.Llama.Layers.{Describes}
use paged_llm.Llama.Stack.{HoldsAt}
use paged_llm.Llama.Forward.{dense_out, forward-Forwarded}

abbrev pub metadata_of : Inputs → AttentionMetadata
metadata_of inputs = record {
  slot_mapping = inputs.slot_mapping;
  block_tables = inputs.block_tables;
  cu_seqlens_q = inputs.cu_seqlens_q;
  seq_lens_k = inputs.seq_lens_k;
  max_q_len = inputs.max_q_len;
}

AllBelow-append : (n : ℕ) (xs ys : List ℕ) → AllBelow n xs → AllBelow n ys → AllBelow n (xs ++ ys)
AllBelow-append n [] ys below rest = rest
AllBelow-append n (x ∷ xs) ys (lt, below) rest = (lt, AllBelow-append n xs ys below rest)

AllBelow-range_from : (n a k : ℕ) → a + k ≤ n → AllBelow n (range_from a k)
unfolding range_from
AllBelow-range_from n a zero le = tt
AllBelow-range_from n a (suc k) le =
    (omega (arith, le), AllBelow-range_from n (a + 1) k (omega (arith, le)))

-- The positions of a step are short of the model's length.
positions_below :
    (s : Scheduler) (n : ℕ) (items : List ScheduledSequence)
    → Covered s items
    → ((id : ℕ) → 0 < count id s.running → num_tokens (s.seqs id) ≤ n)
    → ItemsOk s.seqs s.running items
    → AllBelow n (concat_map positions_of (parts s items))
positions_below s n [] covered short it = tt
positions_below s n (i ∷ is) (within, covers, covered) short it =
    AllBelow-append n (positions_of (part_for s i)) (concat_map positions_of (parts s is))
      (AllBelow-range_from n (s.seqs i.seq).num_computed_tokens i.num_new_tokens
        (omega (arith, within, short i.seq it.0)))
      (positions_below s n is covered short it.4)

module _ {F Matrix T : Type 0} (o : Floats F Matrix)
    (attend : List (List (List F))
      → List (List (List F))
      → List (List (List F))
      → (ℕ → ℕ → Bool)
      → List (List (List F)))
    (keeps : (q k v : List (List (List F))) (mask : ℕ → ℕ → Bool)
      → length (attend q k v mask) ≡ length q)
    (m : Llama F Matrix) (ops : Tensors T (List (List F))) (row : T → ℕ → List (List F))
    (s : Scheduler) (out : SchedulerOutput) (w : IsWell s out.scheduled)
    (laws : Laws ops row s.bm.num_blocks s.bm.block_size)
    (attn_fn : List (List (List F))
      → T
      → T
      → List (List ℕ)
      → List ℕ
      → List ℕ
      → ℕ
      → F
      → Result (List (List (List F))))
    (paged : IsPagedAttention o attend keeps m ops s.bm.block_size attn_fn)
    (keys values : ℕ → ℕ → List (List (List F))) where
  -- The sequence of an item, with its keys and values of each layer.
  abbrev pub session : ScheduledSequence → Session F
  session i = record {
    part = part_for s i;
    x = map (row_or m.embed_tokens) (new_tokens (part_for s i));
    keys = keys i.seq;
    values = values i.seq;
  }

  abbrev pub sessions : List (Session F)
  sessions = map session out.scheduled

  -- The rows of the model's output for a sequence alone.
  abbrev pub alone : ScheduledSequence → List (List F)
  alone i =
      dense_out o attend keeps m ops row s.bm laws (tables s.seqs s.running) w.valid.size_pos
        attn_fn paged (session i)

  abbrev pub last_logits : ScheduledSequence → List F
  last_logits i = map o.to_float (o.linear m.lm_head (row_or (alone i) (i.num_new_tokens - 1)))

  length-dense_layers :
      (ws : List (DecoderLayer F Matrix)) (l : ℕ) (x : Session F)
      → length x.x ≡ x.part.num
      → length (dense_layers o attend m ws l x).x ≡ x.part.num
  unfolding dense_layers dense_layer
  length-dense_layers [] l x size = size
  length-dense_layers (v ∷ ws) l x size =
      length-dense_layers ws (l + 1) (dense_layer o attend m v l x)
        (length-hidden o attend keeps m v l x size)

  embedded_size :
      (i : ScheduledSequence) → Covered s (i ∷ []) → length (session i).x ≡ i.num_new_tokens
  embedded_size i (within, covers, _) =
      length-map (row_or m.embed_tokens) (new_tokens (part_for s i))
      ∙ length-slice (s.seqs i.seq).num_computed_tokens i.num_new_tokens (s.seqs i.seq).token_ids
          within

  sessions_Filled : (is : List ScheduledSequence) → Covered s is → Filled (map session is)
  sessions_Filled [] covered = tt
  sessions_Filled (i ∷ is) (within, covers, covered) =
      (embedded_size i (within, covers, tt), sessions_Filled is covered)

  alone-AllFull :
      (is : List ScheduledSequence) → Covered s is → ItemsOk s.seqs s.running is → AllFull alone is
  alone-AllFull [] covered it = tt
  alone-AllFull (i ∷ is) (within, covers, covered) it = (
    (
      length-map (rms_norm o m.eps m.norm) (dense_layers o attend m m.layers 0 (session i)).x
          ∙ length-dense_layers m.layers 0 (session i) (embedded_size i (within, covers, tt)),
      it.1,
    ),
    alone-AllFull is covered it.4,
  )

  -- The step has been served: the logits of each sampled sequence are those of its last token in the
  -- sequence alone, and the cache holds the keys and values of all.
  abbrev pub Served : KvCache T → Result (List (List F) × KvCache T) → Type 0
  Served c r =
      (c' : KvCache T) × (r ≡ ok (map last_logits (sampled_items out.scheduled), c'))
      × ((j : ℕ)
          → j < length m.layers
          → HoldsAt o attend keeps m ops row s.bm laws (tables s.seqs s.running) w.valid.size_pos
              attn_fn paged c' j (λ x. x.part.start + x.part.num)
              (dense_layers o attend m m.layers 0) sessions)

  -- A step serves each sequence as if it ran alone, for a scheduler that is well-formed with the
  -- output's items scheduled, at least one, for tensors that keep the laws and a backend of
  -- attention that keeps its promise. Let the new tokens be in the vocabulary, let the tables of
  -- the rotary embedding have a row for each position short of the model's length, and let the
  -- cache hold in each layer the keys and values of each scheduled sequence up to its first new
  -- token. Then neither `build_inputs` nor `forward` on its result raises. The logits are those of
  -- the last new token of each item that is sampled, in the order of the items, as the layers
  -- compute it for the sequence alone; and afterwards the cache holds in each layer the keys and
  -- values of each scheduled sequence, those of its new tokens included.
  pub forward-build_inputs :
      (c : KvCache T)
      → 0 < length out.scheduled
      → AllBelow (length m.embed_tokens) (concat_map new_tokens (parts s out.scheduled))
      → s.config.max_model_len ≤ length m.cos
      → s.config.max_model_len ≤ length m.sin
      → ((j : ℕ)
          → j < length m.layers
          → HoldsAt o attend keeps m ops row s.bm laws
              (tables s.seqs s.running)
              w.valid.size_pos
              attn_fn
              paged
              c
              j
              (λ x. x.part.start)
              (λ x. x)
              sessions)
      → (inputs : Inputs) × (build_inputs s out ≡ ok inputs)
        × Served c (
            forward o ops attn_fn m inputs.input_ids inputs.positions c
              (metadata_of inputs)
              inputs.logits_idx)
  forward-build_inputs c some vocab cos sin holds =
      let items = out.scheduled in
      let bm_tables = tables s.seqs s.running in
      let pos = w.valid.size_pos in
      let covered = Covered-of_well s items items w (λ id. omega arith) w.items_ok in
      let (inputs, e, laid) = build_inputs-Laid s out w some in
      let same_parts : map part_of sessions ≡ parts s items = map-map part_of session items in
      let positions : all_positions sessions ≡ inputs.positions =
        concat_map-map (λ x. positions_of x.part) session items
        ∙ sym (concat_map-map positions_of (part_for s) items)
        ∙ sym laid.positions in
      let embedded : all_x sessions ≡ map (row_or m.embed_tokens) inputs.input_ids =
        concat_map-map (λ x. x.x) session items
        ∙ sym (concat_map-map (λ g. map (row_or m.embed_tokens) (new_tokens g)) (part_for s) items)
        ∙ sym (map-concat_map (row_or m.embed_tokens) new_tokens (parts s items))
        ∙ ap (map (row_or m.embed_tokens)) (sym laid.input_ids) in
      let rows : concat_map
            (dense_out o attend keeps m ops row s.bm laws bm_tables pos attn_fn paged) sessions
          ≡ concat_map alone items =
        concat_map-map (dense_out o attend keeps m ops row s.bm laws bm_tables pos attn_fn paged)
          session items in
      let full = alone-AllFull items covered w.items_ok in
      let described : Describes o attend keeps m ops row s.bm laws bm_tables pos attn_fn paged
          (metadata_of inputs) (parts s items) =
        record {
          owners = laid.owners;
          placed = laid.placed;
          held = laid.held;
          width = laid.width;
          batch = laid.batch;
          lens =
              laid.lens
              ∙ sym
                  (length-map (padded laid.width) (parts s items) ∙ length-map (part_for s) items);
        } in
      let short : (n : ℕ) → s.config.max_model_len ≤ n → AllBelow n (all_positions sessions) =
        λ n le.
          rw (positions, laid.positions)
            (positions_below s n items covered
              (λ id h. let r = w.running_ok id h in omega (arith, le, r.short)) w.items_ok) in
      let (c', ran, held) =
        forward-Forwarded o attend keeps m ops row s.bm laws bm_tables pos attn_fn paged sessions
          inputs.input_ids c (metadata_of inputs) inputs.logits_idx
          (subst
            (Describes o attend keeps m ops row s.bm laws bm_tables pos attn_fn paged
              (metadata_of inputs))
            (sym same_parts) described)
          (rw laid.input_ids vocab) embedded (short (length m.cos) cos, short (length m.sin) sin)
          (sessions_Filled items covered)
          (rw (rows, laid.logits_idx) (lasts_below alone items 0 _ full (omega arith))) holds in
      let logits : List F → List F = λ t. map o.to_float (o.linear m.lm_head t) in
      let picked : map (λ i. logits (row_or (concat_map alone items) i)) (lasts 0 items)
          ≡ map last_logits (sampled_items items) =
        sym (map-map logits (row_or (concat_map alone items)) (lasts 0 items))
        ∙ ap (map logits) (lasts_rows alone items [] 0 refl full)
        ∙ map-map logits (last_row alone) (sampled_items items) in
      (
        inputs,
        e,
        (
          c',
          ap
                (λ p.
                  forward o ops attn_fn m inputs.input_ids p c (metadata_of inputs)
                    inputs.logits_idx)
                (sym positions)
              ∙ ran
              ∙ ap (λ r. ok (map (λ i. logits (row_or r i)) inputs.logits_idx, c')) rows
              ∙ ap (λ is. ok (map (λ i. logits (row_or (concat_map alone items) i)) is, c'))
                  laid.logits_idx
              ∙ ap (λ r. ok (r, c')) picked,
          held,
        ),
      )
