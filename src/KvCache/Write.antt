-- ===== src/KvCache/Write.antt =====
-- pagedllm/kv_cache.py and pagedllm/attention/reference.py: what is written for the new tokens of a
-- sequence is read back behind what was there.
use paged_llm.Base.{
  ℕ, suc, ◌+◌, ◌*◌, ◌/◌, ◌%◌, ◌<◌, ◌≤◌, ◌≡◌, ◌≢◌, inl, inr, refl, sym, ap, ◌∙◌, List, ◌++◌, length,
  get_elem?, get_elem?_bound, set, get_elem?-set_self, get_elem?-set_ne, Result, count,
  count-get_elem?, AllBelow, AllBelow-of_count, index_of_count, mul_mono, ◌==◌, below_of_AllBelow,
  some, ok, Bool-cases, slot_injective, arith,
}
use paged_llm.Sequence.{Sequence}
use paged_llm.BlockManager.{BlockManager}
use paged_llm.BlockManager.Slots.{slot_mapping}
use paged_llm.BlockManager.Sequences.{SlotAt, slot_mapping_total}
use paged_llm.BlockManager.Disjoint.{slot_mapping_disjoint, count_unique, same_position}
use paged_llm.KvCache.{Tensors, KvCache, write_cache, gather, gather_kv}
use paged_llm.KvCache.Laws.{Laws}
use paged_llm.KvCache.Parts.{Part, IsOwner}
use paged_llm.KvCache.Windows.{gather-Window}

module _ {T Row : Type 0} (ops : Tensors T Row) (row : T → ℕ → Row) (bm : BlockManager)
    (laws : Laws ops row bm.num_blocks bm.block_size) where
  abbrev bs : ℕ
  bs = bm.block_size

  -- What is known of the slots of the `n` tokens from `start` on.
  pub record Mapped (seq : Sequence) (start n : ℕ) (slots : List ℕ) : Type 0 where
    pub size : length slots ≡ n
    pub distinct : (i j x : ℕ) → get_elem? slots i ≡ some x → get_elem? slots j ≡ some x → i ≡ j
    pub each : (i : ℕ) → i < n → SlotAt bm seq slots start i

  pub slots_Mapped :
      (seq : Sequence) (start n : ℕ)
      → 0 < bs
      → start + n ≤ length seq.block_table * bs
      → ((b : ℕ) → count b seq.block_table ≤ 1)
      → (slots : List ℕ) × (slot_mapping bm seq start n ≡ ok slots) × Mapped seq start n slots
  slots_Mapped seq start n pos covers once =
      let (slots, e, size, each) = slot_mapping_total bm seq start n pos covers in
      let (slots2, e2, distinct) = slot_mapping_disjoint bm seq start n pos covers once in
      let same : slots2 ≡ slots = ok_injective (sym e2 ∙ e) in
      (slots, e, record { size = size; distinct = rw same at distinct; each = each })
    where
      ok_injective : {xs ys : List ℕ} → ok xs ≡ ok ys → xs ≡ ys
      ok_injective e = cc

  module _ (seq : Sequence) (start n : ℕ) (slots : List ℕ) (pos : 0 < bs)
      (once : (b : ℕ) → count b seq.block_table ≤ 1)
      (below : AllBelow bm.num_blocks seq.block_table) (mapped : Mapped seq start n slots) where
    pub slot_at :
        (x : ℕ)
        → 0 < count x slots
        → (i b : ℕ) × (i < n)
          × (get_elem? seq.block_table ((start + i) / bs) ≡ some b)
          × (x ≡ b * bs + (start + i) % bs)
    slot_at x here =
        let (i, at_i) = index_of_count x slots here in
        let lt : i < n = omega (arith, get_elem?_bound slots i at_i, mapped.size) in
        let (b, at_b, slot) = mapped.each i lt in (i, b, lt, at_b, some_injective (sym at_i ∙ slot))
      where
        some_injective : {a b : ℕ} → some a ≡ some b → a ≡ b
        some_injective e = cc

    pub in_range : AllBelow (bm.num_blocks * bs) slots
    in_range = AllBelow-of_count (bm.num_blocks * bs) slots (λ x here.
        let (i, b, lt, at_b, slot) = slot_at x here in
        let b_below : b < bm.num_blocks =
          below_of_AllBelow bm.num_blocks b seq.block_table below
            (count-get_elem? seq.block_table _ b at_b) in
        let room : suc b * bs ≤ bm.num_blocks * bs =
          mul_mono (suc b) bm.num_blocks bs (omega arith) in
        omega (arith, slot, room))

    -- The slot of an earlier position is not mapped.
    not_mapped :
        (p b : ℕ)
        → p < start
        → get_elem? seq.block_table (p / bs) ≡ some b
        → count (b * bs + p % bs) slots ≡ 0
    not_mapped p b before at_p = elim (Bool-cases (count (b * bs + p % bs) slots == 0)) [
      | inl none_of ↦ ground arith
      | inr some_of ↦
          let (i, c, lt, at_c, slot) = slot_at (b * bs + p % bs) (ground arith) in
          let (same_block, same_offset) =
            slot_injective b c (p % bs) ((start + i) % bs) bs (omega arith) (omega arith) slot in
          let same_index : p / bs ≡ (start + i) / bs =
            count_unique seq.block_table _ _ c (at_p ∙ ap some same_block) at_c (once c) in
          absurd (omega (arith, same_position p (start + i) bs pos same_index same_offset))
    ]

    -- The sequence as a part of a batch of its own.
    abbrev part : Part
    part = record { seq = seq; start = start; num = n }

    part-IsOwner : start + n ≤ length seq.block_table * bs → IsOwner bm seq.block_table part
    part-IsOwner covers = record {
      below = below;
      covers = covers;
      alone = λ i b le at_b. omega (arith, once b, count-get_elem? seq.block_table i b at_b);
    }

    -- Every position of the table: an earlier one as it was, and a new one as it is written.
    pub read_back :
        (t : T) (rows : List Row)
        → length rows ≡ n
        → start + n ≤ length seq.block_table * bs
        → gather ops bs (ops.index_copy t slots rows) seq.block_table (start + n)
          ≡ gather ops bs t seq.block_table start ++ rows
    read_back t rows size covers =
        gather-Window ops row bm laws seq.block_table pos t slots rows
          (record {
            in_range = in_range;
            distinct = mapped.distinct;
            size = size ∙ sym mapped.size;
          })
          part rows 0
          (record {
            owner = part-IsOwner covers;
            mine_size = size;
            slot = λ k lt.
                let (b, at_b, slot) = mapped.each k lt in
                (b, at_b, ap (get_elem? slots) (omega arith) ∙ slot);
            value = λ k lt. ap (get_elem? rows) (omega arith);
            early = not_mapped;
          })

  -- The tensors of a layer after a write.
  abbrev pub ReadsBack :
      KvCache T → T → T → ℕ → Sequence → ℕ → List Row → List Row → Result (KvCache T) → Type 0
  ReadsBack c kc vc layer seq start k v r =
      (c' : KvCache T) × (kc' vc' : T) × (r ≡ ok c')
      × (get_elem? c'.k_caches layer ≡ some kc')
      × (get_elem? c'.v_caches layer ≡ some vc')
      × (gather_kv ops bs kc' vc' seq.block_table (start + length k) ≡ (
        gather ops bs kc seq.block_table start ++ k,
        gather ops bs vc seq.block_table start ++ v,
      ))
      × ((l : ℕ)
          → layer ≢ l
          → (get_elem? c'.k_caches l ≡ get_elem? c.k_caches l)
            × (get_elem? c'.v_caches l ≡ get_elem? c.v_caches l))

  -- The paged cache is read as if it were contiguous, for tensors that keep the laws. For a
  -- positive block size, new tokens that the table covers, one row of keys and one of values for
  -- each, a table that names blocks of the pool and none twice, and a layer that has tensors:
  -- `slot_mapping` returns slots, `write` to these does not raise, and `gather_kv` of the layer
  -- over all tokens returns the rows of the earlier tokens as they were before and behind them the
  -- written ones; the other layers are as they were.
  pub write_cache-gather_kv :
      (c : KvCache T) (kc vc : T) (layer : ℕ) (seq : Sequence) (start : ℕ) (k v : List Row)
      → 0 < bs
      → start + length k ≤ length seq.block_table * bs
      → length v ≡ length k
      → ((b : ℕ) → count b seq.block_table ≤ 1)
      → AllBelow bm.num_blocks seq.block_table
      → get_elem? c.k_caches layer ≡ some kc
      → get_elem? c.v_caches layer ≡ some vc
      → (slots : List ℕ) × (slot_mapping bm seq start (length k) ≡ ok slots)
        × ReadsBack c kc vc layer seq start k v (write_cache ops c layer k v slots)
  unfolding write_cache
  write_cache-gather_kv c kc vc layer seq start k v pos covers same once below at_k at_v =
      let (slots, e, mapped) = slots_Mapped seq start (length k) pos covers once in
      let read_k = read_back seq start (length k) slots pos once below mapped kc k refl covers in
      let read_v = read_back seq start (length k) slots pos once below mapped vc v same covers in
      (
        slots,
        e,
        (
          record c {
            k_caches = set c.k_caches layer (ops.index_copy kc slots k);
            v_caches = set c.v_caches layer (ops.index_copy vc slots v);
          },
          ops.index_copy kc slots k,
          ops.index_copy vc slots v,
          rw (at_k, at_v),
          get_elem?-set_self c.k_caches layer _ (get_elem?_bound c.k_caches layer at_k),
          get_elem?-set_self c.v_caches layer _ (get_elem?_bound c.v_caches layer at_v),
          rw (read_k, read_v),
          λ l other. (
            get_elem?-set_ne c.k_caches layer l _ other,
            get_elem?-set_ne c.v_caches layer l _ other,
          ),
        ),
      )
