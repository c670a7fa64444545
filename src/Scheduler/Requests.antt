-- ===== src/Scheduler/Requests.antt =====
-- pagedllm/scheduler.py: `add` and `abort`.
use paged_llm.Base.{
  ℕ, ◌+◌, ◌<◌, ◌≤◌, ◌≡◌, ◌⊎◌, refl, ap, [], ◌∷◌, ◌++◌, true, false, not, ◌&&◌, ◌==◌, ltb, leb,
  length, count, count-append, value_error, arith, Bool-cases, inl, inr, ok, raise, eq→==,
}
use paged_llm.Sequence.{Sequence, SequenceStatus, num_prompt_tokens}
use paged_llm.BlockManager.Invariant.{SameShape-refl}
use paged_llm.BlockManager.Private.{Tame-refl}
use paged_llm.Scheduler.Exclusive.{Exclusive-away}
use paged_llm.Scheduler.{Scheduler, write, add, clamp_params}
use paged_llm.Scheduler.Invariant.{IsWell, tables_absent}

-- A request as the engine makes it: not queued yet, and nothing computed.
pub record IsNew (s : Scheduler) (id : ℕ) : Type 0 where
  pub not_running : count id s.running ≡ 0
  pub not_waiting : count id s.waiting ≡ 0
  pub prompt_only : (s.seqs id).token_ids ≡ (s.seqs id).prompt_token_ids
  pub some_prompt : 0 < num_prompt_tokens (s.seqs id)
  pub no_blocks : (s.seqs id).block_table ≡ []
  pub no_computed : (s.seqs id).num_computed_tokens ≡ 0

-- Why `add` refuses a request.
abbrev pub TooLong : Scheduler → ℕ → Type 0
TooLong s id =
    (s.config.max_model_len ≤ num_prompt_tokens (s.seqs id))
    ⊎ ((s.config.enable_chunked_prefill ≡ false)
        × (s.config.max_num_batched_tokens < num_prompt_tokens (s.seqs id)))

-- The budget of tokens of the request, after the clamp.
abbrev pub max_tokens_of : Scheduler → ℕ → ℕ
max_tokens_of s id = (s.params (s.seqs id).sampling_params).max_tokens

-- The scheduler with the request at the end of the waiting queue.
abbrev pub queued : Scheduler → ℕ → Scheduler
queued s id = record s {
  params = clamp_params s (s.seqs id);
  seqs = write s.seqs id (record (s.seqs id) { status = SequenceStatus.waiting });
  waiting = s.waiting ++ id ∷ [];
}

pub queued-IsWell :
    (s : Scheduler) (id : ℕ)
    → IsWell s []
    → IsNew s id
    → num_prompt_tokens (s.seqs id) < s.config.max_model_len
    → IsWell (queued s id) []
queued-IsWell s id w new short = record {
  valid =
      rw
        (tables_absent s.seqs id (record (s.seqs id) { status = SequenceStatus.waiting }) s.running
          new.not_running)
        w.valid;
  distinct = λ j.
      ground
        (arith, w.distinct j, new.not_running, new.not_waiting, count-append j s.waiting (id ∷ []));
  running_ok = λ j h.
      let other : (id == j) ≡ false = ground (arith, new.not_running) in
      rw other (w.running_ok j h);
  waiting_ok = λ j h. elim (Bool-cases (id == j)) [
    | inl e ↦ rw e (record {
      status_waiting = refl;
      no_blocks = new.no_blocks;
      no_computed = new.no_computed;
      nonempty = omega (arith, ap length new.prompt_only, new.some_prompt);
      short = omega (arith, ap length new.prompt_only);
    })
    | inr e ↦ rw e (w.waiting_ok j (ground (arith, count-append j s.waiting (id ∷ []))))
  ];
  items_ok = tt;
  exclusive =
      Exclusive-away s.seqs s.running w.exclusive (Tame-refl s.bm) (SameShape-refl s.bm) id
        (record (s.seqs id) { status = SequenceStatus.waiting }) s.running
        (λ j h. (ground (arith, new.not_running), h));
  capacity = w.capacity;
}

-- With chunked prefills, a prompt shorter than the model's length is queued.
pub add-queued :
    (s : Scheduler) (id : ℕ)
    → num_prompt_tokens (s.seqs id) < s.config.max_model_len
    → s.config.enable_chunked_prefill ≡ true
    → add s id ≡ ok (queued s id)
unfolding add
add-queued s id short chunks =
    let fits : leb s.config.max_model_len (num_prompt_tokens (s.seqs id)) ≡ false = ground arith in
    rw (fits, chunks)

-- On a well-formed scheduler and for a new request (in no queue, with a prompt that is not empty,
-- no blocks and nothing computed), `add` raises ValueError for a prompt that is too long. Otherwise
-- the prompt is not too long, the scheduler is well-formed with the request at the end of the
-- waiting queue and the running queue as it was, and the prompt with `max_tokens` is within the
-- model's length.
pub add_total :
    (s : Scheduler) (id : ℕ)
    → IsWell s []
    → IsNew s id
    → (TooLong s id × (add s id ≡ raise value_error))
      ⊎ ((s' : Scheduler) × (add s id ≡ ok s')
          × (¬ TooLong s id)
          × IsWell s' []
          × (s'.waiting ≡ s.waiting ++ id ∷ [])
          × (s'.running ≡ s.running)
          × (num_prompt_tokens (s'.seqs id) + max_tokens_of s' id ≤ s.config.max_model_len))
unfolding add
add_total s id w new =
    let prompt = num_prompt_tokens (s.seqs id) in
    elim (Bool-cases (leb s.config.max_model_len prompt)) [
      | inl long ↦ inl (inl (ground arith), rw long)
      | inr fits ↦
          elim (Bool-cases
            (not s.config.enable_chunked_prefill && ltb s.config.max_num_batched_tokens prompt)) [
              | inl long ↦ inl (inr (ground arith), rw (fits, long))
              | inr goes ↦ inr (
                queued s id,
                rw (fits, goes),
                λ t. ground arith,
                queued-IsWell s id w new (ground arith),
                refl,
                refl,
                clamped s id (ground arith),
              )
            ]
    ]
  where
    clamped :
        (s : Scheduler) (id : ℕ)
        → num_prompt_tokens (s.seqs id) < s.config.max_model_len
        → num_prompt_tokens ((queued s id).seqs id) + max_tokens_of (queued s id) id
          ≤ s.config.max_model_len
    clamped s id h =
        let self : (id == id) ≡ true = eq→== id id refl in
        let self' : ((s.seqs id).sampling_params == (s.seqs id).sampling_params) ≡ true =
          eq→== _ _ refl in
        rw self (ground (arith, self'))

module _ {s : Scheduler} (w : IsWell s []) (id : ℕ) where
  -- The sequence as `abort` leaves it.
  abbrev aborted : Sequence
  aborted = record (s.seqs id) { block_table = []; status = SequenceStatus.finished_aborted }
