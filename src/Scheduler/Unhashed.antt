-- ===== src/Scheduler/Unhashed.antt =====
-- pagedllm/scheduler.py: what `update` caches of a sequence leaves the blocks that are yet to be filled
-- without a hash.
use paged_llm.Base.{
  ℕ, ◌+◌, ◌/◌, count, div_mono, ◌<◌, ◌≡◌, sym, subst, List, ◌∷◌, ◌++◌, count-append, erase,
  count-erase, arith, Option, ok,
}
use paged_llm.Sequence.{Sequence}
use paged_llm.BlockManager.{BlockManager}
use paged_llm.BlockManager.PrefixCache.{cache_full_blocks}
use paged_llm.BlockManager.Invariant.{SameShape}
use paged_llm.BlockManager.Private.{Clean}
use paged_llm.BlockManager.Hashed.{
  cache_full_blocks-Marks, Marks-Single, Marks-Clean_other, Marks-Clean_own,
}
use paged_llm.Scheduler.Exclusive.{Unfilled, Beside}
use paged_llm.Scheduler.{Scheduler, ScheduledSequence}
use paged_llm.Scheduler.Invariant.{IsWell, tables_member}
use paged_llm.Scheduler.Preempt.{others, own_and_others}

module _ (hash : Option ℕ → List ℕ → ℕ) where
  -- What is cached of a sequence is computed, so that no block to fill gets a hash.
  pub update_item-Beside :
      {s : Scheduler} {item : ScheduledSequence} {items : List ScheduledSequence}
      (w : IsWell s (item ∷ items)) (bm1 : BlockManager)
      → SameShape s.bm bm1
      → let seq = s.seqs item.seq in
        let seq' : Sequence = record seq {
          num_computed_tokens = seq.num_computed_tokens + item.num_new_tokens;
        } in
        cache_full_blocks hash s.bm seq' seq.num_computed_tokens seq'.num_computed_tokens ≡ ok bm1
        → Beside bm1 s.seqs s.running item.seq × Unfilled bm1 seq'
  update_item-Beside {s} {item} {items} w bm1 shape1 e =
      let id = item.seq in
      let here = w.items_ok.0 in
      let seq = s.seqs id in
      let after = seq.num_computed_tokens + item.num_new_tokens in
      let seq' : Sequence = record seq { num_computed_tokens = after } in
      let bs = s.bm.block_size in
      let held = seq.block_table ++ others w id here in
      let v = own_and_others w id here in
      let single = w.exclusive.0 in
      let marks =
        cache_full_blocks-Marks hash seq' seq.num_computed_tokens after s.bm bm1 (omega arith) e in
      let split : (b : ℕ) → count b held ≡ count b seq.block_table + count b (others w id here) =
        λ b. count-append b seq.block_table (others w id here) in
      (
        (
          Marks-Single hash marks v single,
          λ j ne h.
              let there : 0 < count j (erase id s.running) =
                ground (arith, count-erase j id s.running here, ne, h) in
              subst
                (λ size. Clean bm1 (s.seqs j).block_table ((s.seqs j).num_computed_tokens / size))
                (sym shape1.same_size)
                (Marks-Clean_other hash marks v single (s.seqs j).block_table
                  ((s.seqs j).num_computed_tokens / bs)
                  (λ b. omega (arith, split b, tables_member s.seqs j (erase id s.running) b there))
                  (w.exclusive.1 j h)),
        ),
        subst (λ size. Clean bm1 seq.block_table (after / size)) (sym shape1.same_size)
            (Marks-Clean_own hash marks v single (seq.num_computed_tokens / bs)
              (div_mono seq.num_computed_tokens after bs (omega arith))
              (λ b. omega (arith, split b)) (w.exclusive.1 id here)),
      )
