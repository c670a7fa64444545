-- ===== src/Runner/Tokens.antt =====
-- pagedllm/engine.py: the tokens that `ModelRunner.run` hands to the scheduler.
use paged_llm.Base.{
  ℕ, ◌<◌, ◌≡◌, inl, inr, refl, List, [], ◌∷◌, some, ◌==◌, length, count, List-cases, Bool-cases,
  lookup, Dict, Result, ok, arith, eq→==, ap,
}
use paged_llm.BlockManager.{BlockManager}
use paged_llm.BlockManager.Invariant.{IsValid}
use paged_llm.BlockManager.Slots.{take_pending_copies}
use paged_llm.Scheduler.{Scheduler, SchedulerOutput, ScheduledSequence}
use paged_llm.Scheduler.Invariant.{IsWell, tables}
use paged_llm.Scheduler.Preempt.{SameSetup}
use paged_llm.Scheduler.Progress.{Sampled}
use paged_llm.Runner.{sampled_seqs, zip_dict, Backend, sample_all, run}
use paged_llm.Runner.Shapes.{build_inputs_total}

-- The sampler returns one token for each of its parameters.
abbrev pub OneEach : {W : Type 0} → Backend W → Type 0
OneEach {W} backend =
    (w : W) (logits : backend.Logits) (params : List ℕ)
    → length (backend.sample w logits params).0 ≡ length params

lookup-zip_dict :
    (k : ℕ) (ks vs : List ℕ)
    → length vs ≡ length ks
    → 0 < count k ks
    → (t : ℕ) × (lookup k (zip_dict ks vs) ≡ some t)
unfolding lookup
lookup-zip_dict k [] vs e h = absurd (omega arith)
lookup-zip_dict k (j ∷ ks) [] e h = absurd (omega arith)
lookup-zip_dict k (j ∷ ks) (v ∷ vs) e h = elim (Bool-cases (j == k)) [
  | inl here ↦ (v, rw here)
  | inr there ↦
      let (t, found) = lookup-zip_dict k ks vs (omega arith) (ground arith) in (t, rw there found)
]

Sampled-of_lookup :
    (d : Dict) (items : List ScheduledSequence)
    → ((k : ℕ) → 0 < count k (sampled_seqs items) → (t : ℕ) × (lookup k d ≡ some t))
    → Sampled d items
Sampled-of_lookup d [] f = tt
Sampled-of_lookup d (i ∷ is) f = (
  λ asks. f i.seq (ground (arith, eq→== i.seq i.seq refl)),
  Sampled-of_lookup d is (λ k h. f k (ground arith)),
)

module _ {W : Type 0} (backend : Backend W) (one : OneEach backend) where
  sample_all_lem :
      (w : W) (logits : backend.Logits) (items : List ScheduledSequence) (params : List ℕ)
      → length params ≡ length (sampled_seqs items)
      → Sampled (sample_all backend w logits items params).0 items
  sample_all_lem w logits items [] e = Sampled-of_lookup [] items (λ k h.
      absurd (elim (List-cases (sampled_seqs items)) [
        | inl none_asks ↦ ground (arith, none_asks)
        | inr (x, xs, some_asks) ↦ omega (arith, ap length some_asks)
      ]))
  sample_all_lem w logits items (p ∷ ps) e = Sampled-of_lookup _ items (λ k h.
      lookup-zip_dict k (sampled_seqs items) (backend.sample w logits (p ∷ ps)).0
        (omega (arith, one w logits (p ∷ ps))) h)

-- The manager once the copies are taken from it.
abbrev copied : BlockManager → BlockManager
copied bm = record bm { pending_cow = [] }

copied-IsValid : {bm : BlockManager} (held : List ℕ) → IsValid bm held → IsValid (copied bm) held
copied-IsValid held v = record {
  size_pos = v.size_pos;
  ids = v.ids;
  free_count = v.free_count;
  held_count = v.held_count;
  cached_of_hash = v.cached_of_hash;
  hash_of_cached = v.hash_of_cached;
  disabled = v.disabled;
}

copied-IsWell :
    {s : Scheduler} (items : List ScheduledSequence)
    → IsWell s items
    → IsWell (record s { bm = copied s.bm }) items
copied-IsWell {s} items w = record {
  valid = copied-IsValid (tables s.seqs s.running) w.valid;
  distinct = w.distinct;
  running_ok = λ id h.
      let r = w.running_ok id h in
      record {
        status_running = r.status_running;
        unfinished = r.unfinished;
        within = r.within;
        covered = r.covered;
        tight = r.tight;
        short = r.short;
      };
  waiting_ok = w.waiting_ok;
  items_ok = w.items_ok;
  exclusive = w.exclusive;
  capacity = w.capacity;
}

module _ {W : Type 0} (backend : Backend W) (one : OneEach backend) where
  -- What a run leaves for `update`.
  abbrev pub Ran : Scheduler → SchedulerOutput → Result (Dict × W × Scheduler) → Type 0
  Ran s out r =
      (sampled : Dict) × (w : W) × (s' : Scheduler) × (r ≡ ok (sampled, w, s'))
      × IsWell s' out.scheduled
      × SameSetup s s'
      × Sampled sampled out.scheduled
      × (s'.bm.pending_cow ≡ [])
      × (s' ≡ record s { bm = s'.bm })

  -- If the sampler returns one token for each of its parameters, `run` does not raise on a
  -- scheduler that is well-formed with the output's items scheduled, at least one. The scheduler
  -- stays well-formed with them and of the same setup, each item that needs sampling has a token,
  -- and no copy is pending.
  pub run_total :
      (w : W) (s : Scheduler) (out : SchedulerOutput)
      → IsWell s out.scheduled
      → 0 < length out.scheduled
      → Ran s out (run backend w s out)
  unfolding run take_pending_copies
  run_total w s out well some_items =
      let s1 : Scheduler = record s { bm = copied s.bm } in
      let well1 = copied-IsWell out.scheduled well in
      let (inputs, e, fits) = build_inputs_total s1 out well1 some_items in
      let w1 = backend.apply_copies w s.bm.pending_cow in
      let (logits, w2) = backend.forward w1 inputs in
      let r = sample_all backend w2 logits out.scheduled inputs.params in
      (
        r.0,
        r.1,
        s1,
        rw e,
        well1,
        record {
          same_config = refl;
          same_shape = record { same_blocks = refl; same_size = refl; same_caching = refl };
          same_params = refl;
          same_eos = refl;
        },
        sample_all_lem backend one w2 logits out.scheduled inputs.params fits.params,
        refl,
        refl,
      )
