-- ===== src/Runner/Owners.antt =====
-- pagedllm/engine.py: each sequence of a step writes to blocks of its own, and no slot gets two tokens.
use paged_llm.Base.{
  ℕ, ◌+◌, ◌*◌, ◌<◌, ◌≤◌, ◌≡◌, refl, sym, ap, subst, ◌∙◌, List, [], ◌∷◌, map, concat_map, length,
  count, count-append, count-get_elem?, erase, count-erase, AllBelow-of_count, ok, arith, ◌==◌,
  Bool-cases, inl, inr, false, eq→==,
}
use paged_llm.Scheduler.{Scheduler, SchedulerOutput, ScheduledSequence}
use paged_llm.Scheduler.Invariant.{IsWell, ItemsOk, tables, tables_member, tables_split, planned}
use paged_llm.Scheduler.Admission.{planned_absent}
use paged_llm.KvCache.Parts.{Part, IsOwner, AllOwn, Placed, tables_of, once}
use paged_llm.Attention.Segments.{IsBatch}
use paged_llm.Llama.Dense.{positions_of}
use paged_llm.Llama.Layer.{padded}
use paged_llm.Llama.Rows.{map-map}
use paged_llm.Runner.{empty_batch, Inputs, build_inputs, pad}
use paged_llm.Runner.Shapes.{Covered, Covered-of_well, length-map}
use paged_llm.Runner.Largest.{IsLargest, largest_lem}
use paged_llm.Runner.Layout.{
  part_for, parts, new_tokens, lasts, build_items-Appended, IsBatch-of_parts,
}

module _ (s : Scheduler) (items : List ScheduledSequence) (w : IsWell s items) where
  abbrev all : List ℕ
  all = tables s.seqs s.running

  part-IsOwner :
      (i : ScheduledSequence)
      → 0 < count i.seq s.running
      → (s.seqs i.seq).num_computed_tokens + i.num_new_tokens
        ≤ length (s.seqs i.seq).block_table * s.bm.block_size
      → IsOwner s.bm all (part_for s i)
  part-IsOwner i here covers =
      let table = (s.seqs i.seq).block_table in
      let member : (b : ℕ) → count b table ≤ count b all =
        λ b. tables_member s.seqs i.seq s.running b here in
      record {
        below =
            AllBelow-of_count s.bm.num_blocks table
              (λ b p. ground (arith, w.valid.held_count b, member b));
        covers = covers;
        alone = λ k b le at_k.
            let unhashed = w.exclusive.1 i.seq here k b le at_k in
            omega (
              arith,
              w.exclusive.0 b unhashed,
              w.valid.held_count b,
              member b,
              count-get_elem? table k b at_k,
            );
      }

  parts_own :
      (is : List ScheduledSequence)
      → ItemsOk s.seqs s.running is
      → Covered s is
      → AllOwn s.bm all (parts s is)
  parts_own [] it c = tt
  parts_own (i ∷ is) it (within, covers, c) = (part-IsOwner i it.0 covers, parts_own is it.4 c)

-- The sequences of the items are different running ones.
parts_held :
    (s : Scheduler) (is : List ScheduledSequence) (running ids : List ℕ) (b : ℕ)
    → ItemsOk s.seqs running is
    → ((j : ℕ) → 0 < planned j is → 0 < count j ids)
    → count b (tables_of (parts s is)) ≤ count b (tables s.seqs ids)
parts_held s [] running ids b it there = omega arith
parts_held s (i ∷ is) running ids b it there =
    let here : 0 < count i.seq ids = there i.seq (ground (arith, it.1, eq→== i.seq i.seq refl)) in
    let rest = parts_held s is running (erase i.seq ids) b it.4 (λ j p.
      let other : (i.seq == j) ≡ false = elim (Bool-cases (i.seq == j)) [
        | inl e ↦
            let e' : i.seq ≡ j = ground (arith, e) in
            absurd (omega (arith, p, ap (λ k. planned k is) e', it.3))
        | inr e ↦ e
      ] in
      ground (arith, there j (ground (arith, p)), count-erase j i.seq ids here, other)) in
    omega (
      arith,
      rest,
      tables_split s.seqs i.seq ids here b,
      count-append b (s.seqs i.seq).block_table (tables s.seqs (erase i.seq ids)),
      count-append b (s.seqs i.seq).block_table (tables_of (parts s is)),
    )

-- The inputs of a step, as the model takes them.
pub record Laid (s : Scheduler) (items : List ScheduledSequence) (inputs : Inputs) : Type 0 where
  pub input_ids : inputs.input_ids ≡ concat_map new_tokens (parts s items)
  pub positions : inputs.positions ≡ concat_map positions_of (parts s items)
  pub owners : AllOwn s.bm (tables s.seqs s.running) (parts s items)
  pub placed : Placed s.bm (parts s items) inputs.slot_mapping
  pub held : (b : ℕ) → count b (tables_of (parts s items)) ≤ count b (tables s.seqs s.running)
  pub apart : (slot : ℕ) → count slot inputs.slot_mapping ≤ 1
  pub width : ℕ
  pub widest : IsLargest width (map (λ (g : Part). length g.seq.block_table) (parts s items))
  pub longest : IsLargest inputs.max_q_len (map (λ (g : Part). g.num) (parts s items))
  pub batch :
      IsBatch inputs.cu_seqlens_q inputs.seq_lens_k inputs.block_tables 0 0
        (map (padded width) (parts s items))
  pub lens : length inputs.seq_lens_k ≡ length items
  pub logits_idx : inputs.logits_idx ≡ lasts 0 items

-- The tokens of a step do not meet. For a scheduler that is well-formed with the output's items
-- scheduled, at least one, `build_inputs` does not raise. Its tokens and positions are those of the
-- items, one item behind the other. Its slots are those of the positions in the tables, and no slot
-- stands there twice: each sequence has blocks of the pool for its tokens, and those from its first
-- new token on have no other reference among the running sequences. The offsets, the lengths and
-- the rows of blocks (the tables, with zeros behind up to the length of the longest) are those of
-- the items, `max_q_len` is the largest number of new tokens of an item, and the indices of the
-- logits are those of the last tokens of the items that are sampled.
pub build_inputs-Laid :
    (s : Scheduler) (out : SchedulerOutput)
    → IsWell s out.scheduled
    → 0 < length out.scheduled
    → (inputs : Inputs) × (build_inputs s out ≡ ok inputs) × Laid s out.scheduled inputs
unfolding build_inputs
build_inputs-Laid s out w h =
    let items = out.scheduled in
    let gs = parts s items in
    let running_tables = tables s.seqs s.running in
    let covered = Covered-of_well s items items w (λ id. omega arith) w.items_ok in
    let (b, e, a) = build_items-Appended s items empty_batch 0 w.valid.size_pos refl covered in
    let owners = parts_own s items w items w.items_ok covered in
    let held : (c : ℕ) → count c (tables_of gs) ≤ count c running_tables = λ c.
      parts_held s items s.running s.running c w.items_ok (λ j p.
        elim (Bool-cases (count j s.running == 0)) [
          | inl absent ↦ absurd (
              omega (
                arith,
                p,
                planned_absent s.seqs s.running items j w.items_ok (ground (arith, absent)),
              ))
          | inr runs ↦ ground (arith, runs)
        ]) in
    let some_tables : length b.block_tables ≡ length items =
      ap length a.block_tables
      ∙ length-map (λ (g : Part). g.seq.block_table) gs
      ∙ length-map (part_for s) items in
    let (width, e1, widest) =
      largest_lem (map length b.block_tables)
        (omega (arith, length-map length b.block_tables, some_tables)) in
    let (longest, e2, longest_new) =
      largest_lem (map (λ (i : ScheduledSequence). i.num_new_tokens) items)
        (omega (arith, length-map (λ (i : ScheduledSequence). i.num_new_tokens) items)) in
    (
      record {
        input_ids = b.input_ids;
        positions = b.positions;
        slot_mapping = b.slots;
        block_tables = map (pad width) b.block_tables;
        cu_seqlens_q = b.cu;
        seq_lens_k = b.seq_lens;
        max_q_len = longest;
        logits_idx = b.logits_idx;
        params = b.params;
      },
      rw (e, e1, e2),
      record {
        input_ids = a.input_ids;
        positions = a.positions;
        owners = owners;
        placed = subst (Placed s.bm gs) (sym a.slots_behind) a.placed;
        held = held;
        apart =
            once s.bm running_tables w.valid.size_pos gs b.slots owners
              (subst (Placed s.bm gs) (sym a.slots_behind) a.placed) held;
        width = width;
        widest =
            subst (IsLargest width)
              (ap (map length) a.block_tables ∙ map-map length (λ (g : Part). g.seq.block_table) gs)
              widest;
        longest =
            subst (IsLargest longest) (sym (map-map (λ (g : Part). g.num) (part_for s) items))
              longest_new;
        batch =
            rw
              (
                a.cu,
                a.seq_lens,
                a.block_tables,
                map-map (pad width) (λ (g : Part). g.seq.block_table) gs,
              )
              (IsBatch-of_parts width gs 0 [] [] [] refl refl);
        lens =
            ap length a.seq_lens
            ∙ length-map (λ (g : Part). g.start + g.num) gs
            ∙ length-map (part_for s) items;
        logits_idx = a.logits_idx;
      },
    )
