-- ===== src/KvCache/Windows.antt =====
-- pagedllm/kv_cache.py: what one write leaves for a sequence whose slots are a window of those written.
use paged_llm.Base.{
  ℕ, ◌+◌, ◌-◌, ◌*◌, ◌/◌, ◌%◌, ◌<◌, ◌≤◌, ◌≡◌, inl, inr, sym, ap, ◌∙◌, List, ◌++◌, length,
  length-append, get_elem?, get_elem?_in_range, get_elem?-append_left, get_elem?-append_right,
  list_ext, count, AllBelow, some, Bool-cases, ltb, slot_block, arith,
}
use paged_llm.BlockManager.{BlockManager}
use paged_llm.KvCache.{Tensors, gather}
use paged_llm.KvCache.Laws.{Laws}
use paged_llm.KvCache.Gather.{length-gather, gather_at}
use paged_llm.KvCache.Parts.{Part, IsOwner}

module _ {T Row : Type 0} (ops : Tensors T Row) (row : T → ℕ → Row) (bm : BlockManager)
    (laws : Laws ops row bm.num_blocks bm.block_size) (all : List ℕ) (pos : 0 < bm.block_size) where
  abbrev bs : ℕ
  bs = bm.block_size

  -- The whole batch: all slots and all rows.
  pub record IsWrite (slots : List ℕ) (rows : List Row) : Type 0 where
    pub in_range : AllBelow (bm.num_blocks * bs) slots
    pub distinct : (i j x : ℕ) → get_elem? slots i ≡ some x → get_elem? slots j ≡ some x → i ≡ j
    pub size : length rows ≡ length slots

  -- A window of it: the slots and rows of one sequence, from index `off` on.
  pub record Window (slots : List ℕ) (rows : List Row) (g : Part) (mine : List Row) (off : ℕ)
      : Type 0 where
    pub owner : IsOwner bm all g
    pub mine_size : length mine ≡ g.num
    pub slot :
        (k : ℕ)
        → k < g.num
        → (b : ℕ) × (get_elem? g.seq.block_table ((g.start + k) / bs) ≡ some b)
          × (get_elem? slots (off + k) ≡ some (b * bs + (g.start + k) % bs))
    pub value : (k : ℕ) → k < g.num → get_elem? rows (off + k) ≡ get_elem? mine k
    pub early :
        (p b : ℕ)
        → p < g.start
        → get_elem? g.seq.block_table (p / bs) ≡ some b
        → count (b * bs + p % bs) slots ≡ 0

  module _ (t : T) (slots : List ℕ) (rows : List Row) (whole : IsWrite slots rows) where
    -- Each position of the table: an earlier one as it was, and a new one as it is written.
    pub gather-Window :
        (g : Part) (mine : List Row) (off : ℕ)
        → Window slots rows g mine off
        → gather ops bs (ops.index_copy t slots rows) g.seq.block_table (g.start + g.num)
          ≡ gather ops bs t g.seq.block_table g.start ++ mine
    gather-Window g mine off w =
        let t' = ops.index_copy t slots rows in
        let table = g.seq.block_table in
        let start = g.start in
        let n = g.num in
        let below = w.owner.below in
        let covers = w.owner.covers in
        let old = gather ops bs t table start in
        let covers' : start ≤ length table * bs = omega (arith, covers) in
        let old_size =
          length-gather ops row bm.num_blocks bs laws t table start pos below covers' in
        let new_size =
          length-gather ops row bm.num_blocks bs laws t' table (start + n) pos below covers in
        let full : length (old ++ mine) ≡ start + n =
          omega (arith, length-append old mine, old_size, w.mine_size) in
        list_ext (gather ops bs t' table (start + n)) (old ++ mine) (new_size ∙ sym full) (λ p lt.
          elim (Bool-cases (ltb p start)) [
            | inl before ↦
                let early : p < start = ground (arith, before) in
                let (b, at_p) =
                  get_elem?_in_range table (p / bs)
                    (slot_block p (length table) bs (omega (arith, covers', early))) in
                gather_at ops row bm.num_blocks bs laws t' table (start + n) pos below covers p b
                  (omega (arith, early)) at_p
                ∙ ap some (
                    laws.not_copied t slots rows (b * bs + p % bs) whole.in_range whole.size
                      (w.early p b early at_p))
                ∙ sym (
                    gather_at ops row bm.num_blocks bs laws t table start pos below covers' p b
                      early at_p)
                ∙ sym (get_elem?-append_left old mine p (omega (arith, old_size, early)))
            | inr behind ↦
                let k = p - start in
                let this : start + k ≡ p = ground (arith, behind) in
                let this' : length old + k ≡ p = omega (arith, this, old_size) in
                let k_lt : k < n = omega (arith, this, full, lt) in
                let (r, at_k) = get_elem?_in_range mine k (omega (arith, w.mine_size, k_lt)) in
                let (b, at_b, slot) = w.slot k k_lt in
                ap (get_elem? (gather ops bs t' table (start + n))) (sym this)
                ∙ gather_at ops row bm.num_blocks bs laws t' table (start + n) pos below covers
                    (start + k) b (omega (arith, k_lt)) at_b
                ∙ ap some (
                    laws.copied t slots rows (off + k) (b * bs + (start + k) % bs) r whole.in_range
                      whole.distinct whole.size slot (w.value k k_lt ∙ at_k))
                ∙ sym at_k
                ∙ sym (get_elem?-append_right old mine k)
                ∙ ap (get_elem? (old ++ mine)) this'
          ])
