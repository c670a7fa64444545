-- ===== src/Scheduler/Cramped.antt =====
-- pagedllm/scheduler.py: an allocation fails for a sequence that runs alone only if the pool is too
-- small for it.
use paged_llm.Base.{
  ℕ, ◌+◌, ◌-◌, ◌*◌, ◌/◌, ◌<◌, ◌≤◌, ◌≡◌, refl, ap, ◌∙◌, List, [], ◌∷◌, append-nil, length, count,
  eq→==, arith, ceil_tight, mul_mono, ceil_covers, mul-div_cancel, sym,
}
use paged_llm.Sequence.{Sequence, num_tokens}
use paged_llm.BlockManager.{BlockManager}
use paged_llm.BlockManager.Slots.{num_blocks_needed}
use paged_llm.BlockManager.Invariant.{IsValid, SameShape}
use paged_llm.BlockManager.Loops.{unreferenced}
use paged_llm.BlockManager.Conservation.{conservation}
use paged_llm.BlockManager.Grants.{needed}
use paged_llm.Scheduler.{Scheduler, ScheduledSequence}
use paged_llm.Scheduler.Invariant.{IsWell, planned, tables}

-- The pool has not one block more than the tokens of the sequence take.
abbrev pub Cramped : Scheduler → ℕ → Type 0
Cramped s id = s.bm.num_blocks * s.bm.block_size < num_tokens (s.seqs id) + s.bm.block_size

blocks_short :
    (blocks free table c bs tokens : ℕ)
    → 0 < bs
    → c ≤ tokens
    → free ≤ (c + bs - 1) / bs - table
    → blocks ≤ free + table
    → table * bs < tokens + bs
    → blocks * bs < tokens + bs
blocks_short blocks free table c bs tokens pos le short all tight =
    grind
      (arith, ceil_tight c bs pos, mul_mono blocks ((c + bs - 1) / bs) bs, mul_mono blocks table bs)

needed_no_hits :
    (bm : BlockManager) (seq : Sequence) (n : ℕ)
    → needed bm seq n []
      ≡ (seq.num_computed_tokens + n + bm.block_size - 1) / bm.block_size - length seq.block_table
unfolding num_blocks_needed
needed_no_hits bm seq n =
    let none_cached : length {A = ℕ} [] * bm.block_size ≡ 0 = omega arith in
    let no_block : 0 / bm.block_size ≡ 0 = grind arith in
    let first : seq.num_computed_tokens + 0 ≡ seq.num_computed_tokens = omega arith in
    rw (none_cached, no_block, first) (omega arith)

pub Cramped-alone :
    {s : Scheduler} {items : List ScheduledSequence} (id n : ℕ)
    → IsWell s items
    → s.running ≡ id ∷ []
    → planned id items ≡ 0
    → (s.seqs id).num_computed_tokens + n ≤ num_tokens (s.seqs id)
    → length s.bm.free ≤ needed s.bm (s.seqs id) n []
    → Cramped s id
Cramped-alone {s} {items} id n w run fresh fits short =
    let seq = s.seqs id in
    let bs = s.bm.block_size in
    let ok = w.running_ok id (ground (arith, ap (count id) run, eq→== id id refl)) in
    let held : tables s.seqs s.running ≡ seq.block_table =
      ap (tables s.seqs) run ∙ append-nil seq.block_table in
    let all : s.bm.num_blocks ≤ length s.bm.free + length seq.block_table =
      omega (arith, (conservation s.bm (tables s.seqs s.running) w.valid).1, ap length held) in
    blocks_short s.bm.num_blocks (length s.bm.free) (length seq.block_table)
      (seq.num_computed_tokens + n) bs (num_tokens seq) w.valid.size_pos fits
      (omega (arith, short, needed_no_hits s.bm seq n)) all (omega (arith, ok.tight, ok.unfinished))

unreferenced-le : (bm : BlockManager) (bs : List ℕ) → unreferenced bm bs ≤ length bs
unreferenced-le bm [] = omega arith
unreferenced-le bm (b ∷ bs) = ground (arith, unreferenced-le bm bs)

blocks_short_hits :
    (blocks hits unref n bs tokens : ℕ)
    → 0 < bs
    → unref ≤ hits
    → hits * bs + n ≤ tokens
    → blocks ≤ (hits * bs + n + bs - 1) / bs - hits + unref
    → blocks * bs < tokens + bs
blocks_short_hits blocks hits unref n bs tokens pos le fits all =
    let c = (hits * bs + n + bs - 1) / bs in
    let enough : hits ≤ c = grind (arith, ceil_covers (hits * bs + n) bs pos) in
    omega (arith, ceil_tight (hits * bs + n) bs pos, mul_mono blocks c bs (omega (arith, enough)))

needed_fresh :
    (bm : BlockManager) (seq : Sequence) (n : ℕ) (hits : List ℕ)
    → 0 < bm.block_size
    → seq.num_computed_tokens ≡ 0
    → seq.block_table ≡ []
    → needed bm seq n hits
      ≡ (length hits * bm.block_size + n + bm.block_size - 1) / bm.block_size - length hits
unfolding num_blocks_needed
needed_fresh bm seq n hits pos computed table =
    let whole : length hits * bm.block_size / bm.block_size ≡ length hits =
      mul-div_cancel (length hits) bm.block_size pos in
    let first : 0 + length hits * bm.block_size ≡ length hits * bm.block_size = omega arith in
    rw (computed, table, whole, first) (omega arith)

-- The same for a sequence that is to be admitted, with none running: `bm` is the pool with the hits.
pub Cramped-empty :
    (s : Scheduler) (bm : BlockManager) (id n : ℕ) (hits : List ℕ)
    → IsValid bm (tables s.seqs s.running)
    → SameShape s.bm bm
    → s.running ≡ []
    → (s.seqs id).num_computed_tokens ≡ 0
    → (s.seqs id).block_table ≡ []
    → length hits * bm.block_size + n ≤ num_tokens (s.seqs id)
    → length bm.free ≤ needed bm (s.seqs id) n hits + unreferenced bm hits
    → Cramped s id
Cramped-empty s bm id n hits v shape run computed table fits short =
    let nothing : length (tables s.seqs s.running) ≡ 0 = ap (λ r. length (tables s.seqs r)) run in
    rw (sym shape.same_blocks, sym shape.same_size)
      (blocks_short_hits bm.num_blocks (length hits) (unreferenced bm hits) n bm.block_size
        (num_tokens (s.seqs id)) v.size_pos (unreferenced-le bm hits) fits
        (omega (
          arith,
          short,
          needed_fresh bm (s.seqs id) n hits v.size_pos computed table,
          (conservation bm (tables s.seqs s.running) v).1,
          nothing,
        )))
