-- ===== src/Engine/Adding.antt =====
-- pagedllm/engine.py: `add_request` and the first loop of `generate`.
use paged_llm.Base.{
  ℕ, ◌+◌, ◌<◌, ◌≤◌, ◌≡◌, refl, sym, ap, ◌∙◌, List, [], ◌∷◌, ◌++◌, append_assoc, append-nil, map,
  length, count, count-append, true, false, ◌==◌, eq→==, Result, ok, arith,
}
use paged_llm.Sequence.{Sequence, SequenceStatus, new_sequence}
use paged_llm.BlockManager.{range_from}
use paged_llm.BlockManager.Invariant.{SameShape-refl}
use paged_llm.BlockManager.Private.{Tame-refl}
use paged_llm.Scheduler.{Scheduler, write}
use paged_llm.Scheduler.Exclusive.{Exclusive-away}
use paged_llm.Scheduler.Invariant.{IsWell, tables_absent}
use paged_llm.Scheduler.Requests.{IsNew, queued, queued-IsWell, add-queued}
use paged_llm.Scheduler.Order.{line}
use paged_llm.Engine.{Engine, add_request, add_requests}

-- The object that the constructor makes.
abbrev pub made : List ℕ → ℕ → Sequence
made prompt params = record {
  prompt_token_ids = prompt;
  sampling_params = params;
  token_ids = prompt;
  status = SequenceStatus.waiting;
  num_computed_tokens = 0;
  block_table = [];
  num_cached_tokens = 0;
  num_preemptions = 0;
}

write_fresh-IsWell :
    (s : Scheduler) (id : ℕ) (x : Sequence)
    → IsWell s []
    → count id (line s) ≡ 0
    → IsWell (record s { seqs = write s.seqs id x }) []
write_fresh-IsWell s id x w absent =
    let none_of : count id s.running + count id s.waiting ≡ 0 =
      omega (arith, absent, count-append id s.running s.waiting) in
    record {
      valid = rw (tables_absent s.seqs id x s.running (omega arith)) w.valid;
      distinct = w.distinct;
      running_ok =
          λ j h. let other : (id == j) ≡ false = ground arith in rw other (w.running_ok j h);
      waiting_ok =
          λ j h. let other : (id == j) ≡ false = ground arith in rw other (w.waiting_ok j h);
      items_ok = tt;
      exclusive =
          Exclusive-away s.seqs s.running w.exclusive (Tame-refl s.bm) (SameShape-refl s.bm) id x
            s.running (λ j h. (ground arith, h));
      capacity = w.capacity;
    }

-- Prompts that `add_request` takes.
abbrev pub Servable : ℕ → List (List ℕ × ℕ) → Type 0
Servable n [] = Unit {0}
Servable n ((prompt, params) ∷ pairs) = (0 < length prompt) × (length prompt < n) × Servable n pairs

module _ {W : Type 0} where
  -- The ids that the counter will give are not used: no request of such an id is in line or known to
  -- the engine.
  abbrev pub Fresh : Engine W → Type 0
  Fresh e = (j : ℕ) → e.next_id ≤ j → count j (line e.scheduler) + count j e.requests ≡ 0

  abbrev pub prompt_of : Engine W → ℕ → List ℕ
  prompt_of e j = (e.scheduler.seqs j).prompt_token_ids

  -- What `add_request` makes of the engine.
  abbrev added : Engine W → List ℕ → ℕ → Engine W
  added e prompt params = record e {
    scheduler =
        queued (record e.scheduler { seqs = write e.scheduler.seqs e.next_id (made prompt params) })
          e.next_id;
    requests = e.requests ++ e.next_id ∷ [];
    next_id = e.next_id + 1;
  }

  pub record Added (e e' : Engine W) (ids : List ℕ) : Type 0 where
    pub well : IsWell e'.scheduler []
    pub fresh : Fresh e'
    pub same_config : e'.scheduler.config ≡ e.scheduler.config
    pub same_bm : e'.scheduler.bm ≡ e.scheduler.bm
    pub in_line : line e'.scheduler ≡ line e.scheduler ++ ids
    pub requests : e'.requests ≡ e.requests ++ ids
    pub next : e'.next_id ≡ e.next_id + length ids
    pub older : (j : ℕ) → j < e.next_id → prompt_of e' j ≡ prompt_of e j

  added-Added :
      (e : Engine W) (prompt : List ℕ) (params : ℕ)
      → IsWell e.scheduler []
      → Fresh e
      → 0 < length prompt
      → length prompt < e.scheduler.config.max_model_len
      → Added e (added e prompt params) (e.next_id ∷ [])
  added-Added e prompt params w fresh some_prompt short =
      let id = e.next_id in
      let s = e.scheduler in
      let s1 = record s { seqs = write s.seqs id (made prompt params) } in
      let self : (id == id) ≡ true = eq→== id id refl in
      let mine : write s.seqs id (made prompt params) id ≡ made prompt params = rw self refl in
      let absent : count id (line s) ≡ 0 = omega (arith, fresh id) in
      let apart : count id s.running + count id s.waiting ≡ 0 =
        omega (arith, absent, count-append id s.running s.waiting) in
      let w1 = write_fresh-IsWell s id (made prompt params) w absent in
      let new : IsNew s1 id = record {
        not_running = omega arith;
        not_waiting = omega arith;
        prompt_only = rw mine refl;
        some_prompt = rw mine some_prompt;
        no_blocks = rw mine refl;
        no_computed = rw mine refl;
      } in
      let in_line : s.running ++ (s.waiting ++ id ∷ []) ≡ line s ++ id ∷ [] =
        sym (append_assoc s.running s.waiting (id ∷ [])) in
      record {
        well = queued-IsWell s1 id w1 new (rw mine short);
        fresh = λ j h. ground (
          arith,
          fresh j,
          ap (count j) in_line,
          count-append j (line s) (id ∷ []),
          count-append j e.requests (id ∷ []),
        );
        same_config = refl;
        same_bm = refl;
        in_line = in_line;
        requests = refl;
        next = omega arith;
        older = λ j h. let other : (id == j) ≡ false = ground arith in rw (prompt_of, other);
      }

  add_request_lem :
      (e : Engine W) (prompt : List ℕ) (params : ℕ)
      → 0 < length prompt
      → length prompt < e.scheduler.config.max_model_len
      → e.scheduler.config.enable_chunked_prefill ≡ true
      → add_request e prompt params ≡ ok (e.next_id, added e prompt params)
  unfolding add_request new_sequence
  add_request_lem e [] params some_prompt short chunks = absurd (omega arith)
  add_request_lem e (t ∷ ts) params some_prompt short chunks =
      let s = e.scheduler in
      let id = e.next_id in
      let s1 = record s { seqs = write s.seqs id (made (t ∷ ts) params) } in
      let mine : write s.seqs id (made (t ∷ ts) params) id ≡ made (t ∷ ts) params =
        rw (eq→== id id refl) refl in
      rw (add-queued s1 id (rw mine short) chunks)

  Added-nil : (e : Engine W) → IsWell e.scheduler [] → Fresh e → Added e e []
  Added-nil e w fresh = record {
    well = w;
    fresh = fresh;
    same_config = refl;
    same_bm = refl;
    in_line = sym (append-nil (line e.scheduler));
    requests = sym (append-nil e.requests);
    next = omega arith;
    older = λ j h. refl;
  }

  Added-cons :
      {e e1 e2 : Engine W} (id : ℕ) (ids : List ℕ)
      → Added e e1 (id ∷ [])
      → Added e1 e2 ids
      → Added e e2 (id ∷ ids)
  Added-cons {e} id ids one rest = record {
    well = rest.well;
    fresh = rest.fresh;
    same_config = rest.same_config ∙ one.same_config;
    same_bm = rest.same_bm ∙ one.same_bm;
    in_line =
        rest.in_line
        ∙ ap (λ q. q ++ ids) one.in_line
        ∙ append_assoc (line e.scheduler) (id ∷ []) ids;
    requests =
        rest.requests ∙ ap (λ q. q ++ ids) one.requests ∙ append_assoc e.requests (id ∷ []) ids;
    next = omega (arith, one.next, rest.next);
    older = λ j h. rest.older j (omega (arith, one.next)) ∙ one.older j h;
  }

  abbrev pub AddsAll : Engine W → List (List ℕ × ℕ) → Result (List ℕ × Engine W) → Type 0
  AddsAll e pairs r =
      (ids : List ℕ) × (e' : Engine W) × (r ≡ ok (ids, e'))
      × Added e e' ids
      × (ids ≡ range_from e.next_id (length pairs))
      × (map (prompt_of e') ids ≡ map (λ p. p.0) pairs)

  pub add_requests_lem :
      (e : Engine W) (pairs : List (List ℕ × ℕ))
      → IsWell e.scheduler []
      → Fresh e
      → e.scheduler.config.enable_chunked_prefill ≡ true
      → Servable e.scheduler.config.max_model_len pairs
      → AddsAll e pairs (add_requests e pairs)
  unfolding add_requests range_from
  add_requests_lem e [] w fresh chunks fit = ([], e, refl, Added-nil e w fresh, refl, refl)
  add_requests_lem e ((prompt, params) ∷ pairs) w fresh chunks fit =
      let (some_prompt, short, others_fit) = fit in
      let id = e.next_id in
      let e1 = added e prompt params in
      let one = added-Added e prompt params w fresh some_prompt short in
      let (ids, e2, eq, rest, ids_eq, prompts) =
        add_requests_lem e1 pairs one.well one.fresh chunks others_fit in
      let mine : prompt_of e2 id ≡ prompt =
        rest.older id (omega arith) ∙ rw (prompt_of, eq→== id id refl) in
      (
        id ∷ ids,
        e2,
        rw (add_request_lem e prompt params some_prompt short chunks, eq),
        Added-cons id ids one rest,
        ap (◌∷◌ id) ids_eq,
        ap (λ p. p ∷ map (prompt_of e2) ids) mine ∙ ap (◌∷◌ prompt) prompts,
      )
