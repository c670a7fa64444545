-- ===== src/Scheduler/Progress.antt =====
-- pagedllm/scheduler.py: `update` as a whole.
use paged_llm.Base.{
  ℕ, ◌+◌, ◌<◌, ◌≡◌, refl, ap, sym, subst, ◌∙◌, List, [], ◌∷◌, ◌++◌, true, false, if◌then◌else◌,
  ◌==◌, count-append, length-append, erase, count-erase, remove_present, value_error, lookup, Dict,
  arith, Bool-cases, inl, inr, some, Option, Result, ok, eq→==, if_true, if_false,
}
use paged_llm.Sequence.{Sequence, num_tokens, status_finished, append_token}
use paged_llm.BlockManager.{BlockManager}
use paged_llm.BlockManager.PrefixCache.{cache_full_blocks}
use paged_llm.BlockManager.Invariant.{IsValid, SameShape, SameShape-trans}
use paged_llm.BlockManager.Sequences.{free_total}
use paged_llm.BlockManager.Caching.{cache_full_blocks_total}
use paged_llm.BlockManager.Growth.{free-Tame}
use paged_llm.Scheduler.Exclusive.{Unfilled, Beside, Beside-write, Beside-away}
use paged_llm.Scheduler.Unhashed.{update_item-Beside}
use paged_llm.Scheduler.{Scheduler, SchedulerOutput, ScheduledSequence, write}
use paged_llm.Scheduler.Update.{status_after, take_token, update_item, update_items, update}
use paged_llm.Scheduler.Invariant.{IsWell, planned}
use paged_llm.Scheduler.Preempt.{SameSetup, others, own_and_others}
use paged_llm.Scheduler.Advance.{
  Advanced, Advanced-refl, Advanced-trans, Advanced-goes_on, Advanced-leaves,
}
use paged_llm.Scheduler.Retire.{Finished, write-write, status_after_running, goes_on, leaves}

-- The sampler gave a token for each item that needs one.
abbrev pub Sampled : Dict → List ScheduledSequence → Type 0
Sampled sampled [] = Unit {0}
Sampled sampled (i ∷ is) =
    (i.needs_sampling ≡ true → (t : ℕ) × (lookup i.seq sampled ≡ some t)) × Sampled sampled is

module _ (hash : Option ℕ → List ℕ → ℕ) (sampled : Dict) where
  -- A part of the loop goes through and leaves the scheduler well for the items that are left.
  abbrev pub Steps :
      Scheduler
      → List ScheduledSequence
      → List ScheduledSequence
      → Result (Scheduler × List ℕ)
      → Type 0
  Steps s processed items r =
      (s' : Scheduler) × (finished : List ℕ) × (r ≡ ok (s', finished))
      × IsWell s' items
      × Advanced processed s s'
      × Finished s' finished

  -- A sequence with its last token computed takes the sampled token.
  take_token_lem :
      {s : Scheduler} {item : ScheduledSequence} {items : List ScheduledSequence}
      (w : IsWell s (item ∷ items)) (finished : List ℕ) (bm1 : BlockManager) (t : ℕ)
      → IsValid bm1 ((s.seqs item.seq).block_table ++ others w item.seq w.items_ok.0)
      → SameShape s.bm bm1
      → Beside bm1 s.seqs s.running item.seq
      → Unfilled bm1 (record (s.seqs item.seq) {
        num_computed_tokens = (s.seqs item.seq).num_computed_tokens + item.num_new_tokens;
      })
      → Finished s finished
      → (s.seqs item.seq).num_computed_tokens + item.num_new_tokens ≡ num_tokens (s.seqs item.seq)
      → lookup item.seq sampled ≡ some t
      → let seq' : Sequence = record (s.seqs item.seq) {
        num_computed_tokens = (s.seqs item.seq).num_computed_tokens + item.num_new_tokens;
      } in
        Steps s (item ∷ []) items (
          take_token hash sampled
            (record s { bm = bm1; seqs = write s.seqs item.seq seq' })
            finished
            item.seq)
  unfolding take_token
  take_token_lem {s} {item} {items} w finished bm1 t v1 shape1 beside own done last tok =
      let id = item.seq in
      let here = w.items_ok.0 in
      let run = w.running_ok id here in
      let self : (id == id) ≡ true = eq→== id id refl in
      let seq' : Sequence = record (s.seqs id) {
        num_computed_tokens = (s.seqs id).num_computed_tokens + item.num_new_tokens;
      } in
      let s1 : Scheduler = record s { bm = bm1; seqs = write s.seqs id seq' } in
      let seq2 : Sequence = append_token seq' t in
      let seq3 : Sequence = record seq2 { status = status_after s1 seq2 t } in
      let longer : num_tokens seq2 ≡ num_tokens (s.seqs id) + 1 =
        omega (arith, length-append (s.seqs id).token_ids (t ∷ [])) in
      elim (Bool-cases (status_finished (status_after s1 seq2 t))) [
        | inr goes ↦
            let (same, short) = status_after_running s1 seq2 t goes in
            (
              record s { bm = bm1; seqs = write (write s.seqs id seq') id seq3 },
              finished,
              rw (tok, self, goes),
              rw (write-write s.seqs id seq' seq3) (
                  goes_on w seq3 bm1 v1 shape1 refl (same ∙ run.status_running) refl
                    (omega (arith, longer)) short
                    (Beside-write bm1 s.seqs s.running id beside seq3 own)),
              subst (λ q. Advanced (item ∷ []) s (record s { bm = bm1; seqs = q }))
                  (sym (write-write s.seqs id seq' seq3))
                  (Advanced-goes_on s item seq3 bm1 shape1 refl (omega (arith, longer)) here refl),
              λ j h.
                  let other : (id == j) ≡ false = ground (arith, (done j h).2) in
                  rw other (done j h),
            )
        | inl ends ↦
            let (bm2, e2, v2, shape2, _) = free_total seq3 (others w id here) v1 in
            let seq4 : Sequence = record seq3 { block_table = [] } in
            (
              record s {
                running = erase id s.running;
                bm = bm2;
                seqs = write (write (write s.seqs id seq') id seq3) id seq4;
              },
              finished ++ id ∷ [],
              rw (tok, self, ends, remove_present value_error id s.running here, e2),
              rw (write-write s.seqs id seq' seq3, write-write s.seqs id seq3 seq4)
                  (leaves w seq4 bm2 v2 (SameShape-trans shape1 shape2) (
                    Beside-away bm1 s.seqs s.running id beside seq4 (erase id s.running)
                      (free-Tame bm1 bm2 seq3 seq4 e2) shape2
                      (λ j h. (
                        ground (arith, count-erase j id s.running here, w.distinct j),
                        omega (arith, count-erase j id s.running here),
                      )))),
              subst
                  (λ q.
                    Advanced (item ∷ []) s
                      (record s { running = erase id s.running; bm = bm2; seqs = q }))
                  (sym (
                    ap (λ q. write q id seq4) (write-write s.seqs id seq' seq3)
                    ∙ write-write s.seqs id seq3 seq4))
                  (Advanced-leaves s item seq4 bm2 (SameShape-trans shape1 shape2) here refl ends),
              λ j h. elim (Bool-cases (id == j)) [
                | inl e ↦
                    rw e (ends, refl, ground (arith, count-erase j id s.running here, w.distinct j))
                | inr e ↦
                    let (fin, empty, gone) =
                      done j (ground (arith, count-append j finished (id ∷ []))) in
                    rw e (fin, empty, omega (arith, count-erase j id s.running here))
              ],
            )
      ]

  update_item_step :
      (s : Scheduler) (finished : List ℕ) (item : ScheduledSequence) (bm1 : BlockManager)
      → let seq = s.seqs item.seq in
        let seq' : Sequence = record seq {
          num_computed_tokens = seq.num_computed_tokens + item.num_new_tokens;
        } in
        cache_full_blocks hash s.bm seq' seq.num_computed_tokens seq'.num_computed_tokens ≡ ok bm1
        → let s1 : Scheduler = record s { bm = bm1; seqs = write s.seqs item.seq seq' } in
          update_item hash sampled s finished item ≡ (
            if item.needs_sampling
            then take_token hash sampled s1 finished item.seq
            else ok (s1, finished))
  unfolding update_item
  update_item_step s finished item bm1 e = rw e

  update_item_lem :
      {s : Scheduler} {item : ScheduledSequence} {items : List ScheduledSequence}
      → IsWell s (item ∷ items)
      → (finished : List ℕ) → Finished s finished
      → (item.needs_sampling ≡ true → (t : ℕ) × (lookup item.seq sampled ≡ some t))
      → Steps s (item ∷ []) items (update_item hash sampled s finished item)
  update_item_lem {s} {item} {items} w finished done tokens =
      let id = item.seq in
      let here = w.items_ok.0 in
      let run = w.running_ok id here in
      let n = item.num_new_tokens in
      let seq' : Sequence = record (s.seqs id) {
        num_computed_tokens = (s.seqs id).num_computed_tokens + n;
      } in
      let plan : planned id (item ∷ items) ≡ n = ground (arith, w.items_ok.3) in
      let (bm1, e1, v1, shape1) =
        cache_full_blocks_total hash seq' (s.seqs id).num_computed_tokens seq'.num_computed_tokens
          (others w id here) (own_and_others w id here) (omega arith) (omega (arith, plan)) in
      let (beside, own) = update_item-Beside hash w bm1 shape1 e1 in
      elim (Bool-cases item.needs_sampling) [
        | inl asks ↦
            let (t, tok) = tokens asks in
            let last : (s.seqs id).num_computed_tokens + n ≡ num_tokens (s.seqs id) =
              ground (arith, w.items_ok.2) in
            let (s', finished', e, well, setup, done') =
              take_token_lem w finished bm1 t v1 shape1 beside own done last tok in
            (
              s',
              finished',
              update_item_step s finished item bm1 e1 ∙ if_true _ _ _ asks ∙ e,
              well,
              setup,
              done',
            )
        | inr rests ↦
            let more : (s.seqs id).num_computed_tokens + n < num_tokens (s.seqs id) =
              ground (arith, w.items_ok.2, plan) in
            (
              record s { bm = bm1; seqs = write s.seqs id seq' },
              finished,
              update_item_step s finished item bm1 e1 ∙ if_false _ _ _ rests,
              goes_on w seq' bm1 v1 shape1 refl run.status_running refl more run.short
                  (Beside-write bm1 s.seqs s.running id beside seq' own),
              Advanced-goes_on s item seq' bm1 shape1 refl (omega arith) here refl,
              λ j h.
                  let other : (id == j) ≡ false = ground (arith, (done j h).2) in
                  rw other (done j h),
            )
      ]

  update_items_lem :
      (items : List ScheduledSequence) {s : Scheduler} (finished : List ℕ)
      → IsWell s items
      → Finished s finished
      → Sampled sampled items
      → Steps s items [] (update_items hash sampled items s finished)
  unfolding update_items
  update_items_lem [] {s} finished w done tokens = (s, finished, refl, w, Advanced-refl s, done)
  update_items_lem (item ∷ items) finished w done tokens =
      let (s1, finished1, e1, w1, setup1, done1) = update_item_lem w finished done tokens.0 in
      let (s2, finished2, e2, w2, setup2, done2) =
        update_items_lem items finished1 w1 done1 tokens.1 in
      (s2, finished2, rw (e1, e2), w2, Advanced-trans item items setup1 setup2, done2)

  -- The list of the finished ones grows; nothing else changes.
  abbrev archived : Scheduler → List ℕ → Scheduler
  archived s ids = record s { finished = s.finished ++ ids }

  archived-IsWell : {s : Scheduler} (ids : List ℕ) → IsWell s [] → IsWell (archived s ids) []
  archived-IsWell ids w = record {
    valid = w.valid;
    distinct = w.distinct;
    running_ok = w.running_ok;
    waiting_ok = w.waiting_ok;
    items_ok = tt;
    exclusive = w.exclusive;
    capacity = w.capacity;
  }

  archived-Advanced :
      {items : List ScheduledSequence} {s s' : Scheduler} (ids : List ℕ)
      → Advanced items s s'
      → Advanced items s (archived s' ids)
  archived-Advanced ids a = record {
    setup = record {
      same_config = a.setup.same_config;
      same_shape = a.setup.same_shape;
      same_params = a.setup.same_params;
      same_eos = a.setup.same_eos;
    };
    waiting = a.waiting;
    fewer = a.fewer;
    first = a.first;
    keeps = a.keeps;
    none_new = a.none_new;
    ends = a.ends;
  }

  pub update_lem :
      (s : Scheduler) (out : SchedulerOutput)
      → IsWell s out.scheduled
      → Sampled sampled out.scheduled
      → (s' : Scheduler) × (finished_now : List ℕ) × (update hash sampled s out
          ≡ ok (s', finished_now))
        × IsWell s' []
        × Advanced out.scheduled s s'
        × Finished s' finished_now
  unfolding update
  update_lem s out w tokens =
      let (s', finished, e, w', advanced, done) =
        update_items_lem out.scheduled [] w (λ j h. absurd (omega arith)) tokens in
      (
        archived s' finished,
        finished,
        rw e,
        archived-IsWell finished w',
        archived-Advanced finished advanced,
        done,
      )

  -- `update` does not raise on a scheduler that is well-formed with the output's items scheduled,
  -- if each item that needs sampling has a token. The scheduler is then well-formed with nothing
  -- scheduled and of the same setup, and each sequence that it returns is finished, not running,
  -- and holds no block.
  pub update_total :
      (s : Scheduler) (out : SchedulerOutput)
      → IsWell s out.scheduled
      → Sampled sampled out.scheduled
      → (s' : Scheduler) × (finished_now : List ℕ) × (update hash sampled s out
          ≡ ok (s', finished_now))
        × IsWell s' []
        × SameSetup s s'
        × Finished s' finished_now
  update_total s out w tokens =
      let (s', finished, e, w', advanced, done) = update_lem s out w tokens in
      (s', finished, e, w', advanced.setup, done)
