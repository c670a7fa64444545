-- ===== src/Scheduler/Retire.antt =====
-- pagedllm/scheduler.py: how `update` processes one scheduled item.
use paged_llm.Base.{
  ℕ, ◌+◌, ◌*◌, ◌<◌, ◌≡◌, ◌≢◌, refl, ap, fun_ext, List, [], ◌∷◌, ◌++◌, true, false, if◌then◌else◌,
  ◌==◌, length, count, erase, count-erase, length-erase, arith, Bool-cases, inl, inr,
}
use paged_llm.Sequence.{Sequence, SequenceStatus, num_tokens, is_finished, status_finished}
use paged_llm.BlockManager.{BlockManager}
use paged_llm.BlockManager.Invariant.{IsValid, SameShape}
use paged_llm.Scheduler.Exclusive.{Exclusive}
use paged_llm.Scheduler.{Scheduler, ScheduledSequence, write}
use paged_llm.Scheduler.Update.{status_after}
use paged_llm.Scheduler.Invariant.{tables_absent, planned, IsWell, ItemsOk, ItemsOk-mono}
use paged_llm.Scheduler.Preempt.{others, IsWell-write}

-- A sequence that the loop has finished: it is out of the queue, and holds no block.
abbrev pub Finished : Scheduler → List ℕ → Type 0
Finished s ids =
    (j : ℕ)
    → 0 < count j ids
    → (is_finished (s.seqs j) ≡ true) × ((s.seqs j).block_table ≡ []) × (count j s.running ≡ 0)

pub write-write :
    (heap : ℕ → Sequence) (id : ℕ) (a b : Sequence) → write (write heap id a) id b ≡ write heap id b
write-write heap id a b = fun_ext λ j. ground arith

-- The status is not a finished one exactly when no stopping rule applies: then it is as it was, and
-- the sequence is still short of the model's length.
pub status_after_running :
    (s : Scheduler) (seq : Sequence) (token : ℕ)
    → status_finished (status_after s seq token) ≡ false
    → (status_after s seq token ≡ seq.status) × (num_tokens seq < s.config.max_model_len)
unfolding status_after
status_after_running s seq token h = ground arith

module _ {s : Scheduler} {item : ScheduledSequence} {items : List ScheduledSequence}
    (w : IsWell s (item ∷ items)) where
  abbrev id : ℕ
  id = item.seq

  abbrev here : 0 < count item.seq s.running
  here = w.items_ok.0

  no_more : planned item.seq items ≡ 0
  no_more = w.items_ok.3

  plan : planned item.seq (item ∷ items) ≡ item.num_new_tokens
  plan = ground (arith, no_more)

  -- The items that are left do not depend on this sequence.
  items_left :
      (x : Sequence) (running' : List ℕ)
      → ((j : ℕ) → j ≢ item.seq → 0 < count j s.running → 0 < count j running')
      → ItemsOk (write s.seqs item.seq x) running' items
  items_left x running' more =
      ItemsOk-mono s.seqs (write s.seqs item.seq x) s.running running' items
        (λ j p q. elim (Bool-cases (item.seq == j)) [
          | inl e ↦
              let e' : item.seq ≡ j = ground arith in
              let p' : 0 < planned item.seq items = rw e' p in absurd (omega (arith, no_more))
          | inr e ↦ (more j (ground arith) q, rw e refl, rw e refl)
        ])
        w.items_ok.4

  -- The sequence goes on, with all that was planned computed.
  pub goes_on :
      (x : Sequence) (bm' : BlockManager)
      → IsValid bm' (x.block_table ++ others w item.seq here)
      → SameShape s.bm bm'
      → x.block_table ≡ (s.seqs item.seq).block_table
      → x.status ≡ SequenceStatus.running
      → x.num_computed_tokens ≡ (s.seqs item.seq).num_computed_tokens + item.num_new_tokens
      → x.num_computed_tokens < num_tokens x
      → num_tokens x < s.config.max_model_len
      → Exclusive bm' (write s.seqs item.seq x) s.running
      → IsWell (record s { bm = bm'; seqs = write s.seqs item.seq x }) items
  goes_on x bm' v shape same_table runs computed more short ex =
      let run = w.running_ok item.seq here in
      let size = ap length same_table in
      let bs = s.bm.block_size in
      let scaled : length x.block_table * bs ≡ length (s.seqs item.seq).block_table * bs =
        ap (λ (t : ℕ). t * bs) size in
      IsWell-write w item.seq here x bm' items v shape
        (record {
          status_running = runs;
          unfinished = more;
          within = omega (arith, no_more);
          covered = omega (arith, no_more, plan);
          tight = omega (arith, no_more, plan);
          short = short;
        })
        (λ j ne. ground arith) (items_left x s.running (λ j ne p. p)) ex

  -- The sequence leaves the running ones, and its blocks are given back.
  pub leaves :
      (y : Sequence) (bm' : BlockManager)
      → IsValid bm' (others w item.seq here)
      → SameShape s.bm bm'
      → Exclusive bm' (write s.seqs item.seq y) (erase item.seq s.running)
      → IsWell
          (record s {
            running = erase item.seq s.running;
            bm = bm';
            seqs = write s.seqs item.seq y;
          })
          items
  leaves y bm' v shape ex =
      let left = erase item.seq s.running in
      let counts : (j : ℕ) → count j s.running ≡ (if item.seq == j then 1 else 0) + count j left =
        λ j. count-erase j item.seq s.running here in
      let gone : count item.seq left ≡ 0 = ground (arith, counts item.seq, w.distinct item.seq) in
      record {
        valid = rw (tables_absent s.seqs item.seq y left gone) v;
        distinct = λ j. ground (arith, w.distinct j, counts j);
        running_ok = λ j h.
            let other : (item.seq == j) ≡ false = ground (arith, counts j, w.distinct j) in
            let same : planned j items ≡ planned j (item ∷ items) = ground arith in
            rw (shape.same_size, other, same) (w.running_ok j (omega (arith, counts j)));
        waiting_ok = λ j h.
            let other : (item.seq == j) ≡ false = ground (arith, w.distinct j) in
            rw other (w.waiting_ok j h);
        items_ok = items_left y left (λ j ne p. ground (arith, counts j));
        exclusive = ex;
        capacity = omega (arith, w.capacity, length-erase item.seq s.running here);
      }
