-- ===== src/KvCache/Isolation.antt =====
-- pagedllm/kv_cache.py: what is written for one sequence is not seen by another.
use paged_llm.Base.{
  ℕ, ◌+◌, ◌*◌, ◌/◌, ◌%◌, ◌<◌, ◌≤◌, ◌≡◌, inl, inr, refl, sym, ◌∙◌, List, length, set, get_elem?,
  get_elem?_bound, get_elem?-set_self, count, count-get_elem?, AllBelow, Result, some, ok,
  Bool-cases, ◌==◌, div_mono, slot_injective, arith,
}
use paged_llm.Sequence.{Sequence}
use paged_llm.BlockManager.{BlockManager}
use paged_llm.BlockManager.Slots.{slot_mapping}
use paged_llm.KvCache.{Tensors, KvCache, write_cache, gather, gather_kv}
use paged_llm.KvCache.Laws.{Laws}
use paged_llm.KvCache.Write.{Mapped, slots_Mapped, slot_at, in_range}
use paged_llm.KvCache.Gather.{gather_same}

module _ {T Row : Type 0} (ops : Tensors T Row) (row : T → ℕ → Row) (bm : BlockManager)
    (laws : Laws ops row bm.num_blocks bm.block_size) where
  module _ (seq u : Sequence) (start n : ℕ) (pos : 0 < bm.block_size)
      (once : (b : ℕ) → count b seq.block_table ≤ 1)
      (below : AllBelow bm.num_blocks seq.block_table)
      (below_u : AllBelow bm.num_blocks u.block_table)
      (apart : (i b : ℕ)
        → start / bm.block_size ≤ i
        → get_elem? seq.block_table i ≡ some b
        → count b u.block_table ≡ 0) where
    -- No slot of the other sequence is mapped.
    other_slot :
        (slots : List ℕ)
        → Mapped ops row bm laws seq start n slots
        → (i b o : ℕ) → get_elem? u.block_table i ≡ some b
        → o < bm.block_size
        → count (b * bm.block_size + o) slots ≡ 0
    other_slot slots mapped i b o at_b lt =
        let bs = bm.block_size in
        elim (Bool-cases (count (b * bs + o) slots == 0)) [
          | inl none_of ↦ ground arith
          | inr some_of ↦
              let (k, c, less, at_c, slot) =
                slot_at ops row bm laws seq start n slots pos once below mapped (b * bs + o)
                  (ground arith) in
              let (same, offset) =
                slot_injective b c o ((start + k) % bs) bs lt (omega arith) slot in
              let gone : count c u.block_table ≡ 0 =
                apart ((start + k) / bs) c (div_mono start (start + k) bs (omega arith)) at_c in
              let here : 0 < count b u.block_table = count-get_elem? u.block_table i b at_b in
              absurd (ground (arith, same, gone, here))
        ]

    unseen :
        (slots : List ℕ) (t : T) (rows : List Row) (len : ℕ)
        → Mapped ops row bm laws seq start n slots
        → length rows ≡ n
        → len ≤ length u.block_table * bm.block_size
        → gather ops bm.block_size (ops.index_copy t slots rows) u.block_table len
          ≡ gather ops bm.block_size t u.block_table len
    unseen slots t rows len mapped size covers =
        gather_same ops row bm.num_blocks bm.block_size laws t (ops.index_copy t slots rows)
          u.block_table u.block_table len pos below_u below_u refl covers
          (λ i b o at_b lt. (
            b,
            at_b,
            laws.not_copied t slots rows (b * bm.block_size + o)
                (in_range ops row bm laws seq start n slots pos once below mapped)
                (size ∙ sym mapped.size) (other_slot slots mapped i b o at_b lt),
          ))

  -- What another sequence reads after a write.
  abbrev pub Unseen : KvCache T → T → T → ℕ → Sequence → ℕ → Result (KvCache T) → Type 0
  Unseen c kc vc layer u len r =
      (c' : KvCache T) × (kc' vc' : T) × (r ≡ ok c')
      × (get_elem? c'.k_caches layer ≡ some kc')
      × (get_elem? c'.v_caches layer ≡ some vc')
      × (gather_kv ops bm.block_size kc' vc' u.block_table len
          ≡ gather_kv ops bm.block_size kc vc u.block_table len)

  -- What is written for a sequence is not seen by another, for tensors that keep the laws. Under
  -- the conditions of a positive block size, new tokens that the table covers, one row of keys and
  -- one of values for each, tables that name blocks of the pool, the first none twice, and a layer
  -- that has tensors: if no block of the first table from that of the first new token on is in the
  -- other table, then `slot_mapping` returns slots, `write` to these does not raise, and
  -- `gather_kv` of the layer for the other table returns what it did before, for any number of
  -- tokens that it covers.
  pub write_cache-Unseen :
      (c : KvCache T) (kc vc : T) (layer : ℕ) (seq u : Sequence) (start len : ℕ) (k v : List Row)
      → 0 < bm.block_size
      → start + length k ≤ length seq.block_table * bm.block_size
      → len ≤ length u.block_table * bm.block_size
      → length v ≡ length k
      → ((b : ℕ) → count b seq.block_table ≤ 1)
      → AllBelow bm.num_blocks seq.block_table
      → AllBelow bm.num_blocks u.block_table
      → ((i b : ℕ)
          → start / bm.block_size ≤ i
          → get_elem? seq.block_table i ≡ some b
          → count b u.block_table ≡ 0)
      → get_elem? c.k_caches layer ≡ some kc
      → get_elem? c.v_caches layer ≡ some vc
      → (slots : List ℕ) × (slot_mapping bm seq start (length k) ≡ ok slots)
        × Unseen c kc vc layer u len (write_cache ops c layer k v slots)
  unfolding write_cache
  write_cache-Unseen c kc vc layer seq u start len k v pos covers covers_u same once below below_u
        apart at_k at_v =
      let (slots, e, mapped) = slots_Mapped ops row bm laws seq start (length k) pos covers once in
      let unseen_by : (t : T) (rows : List Row)
          → length rows ≡ length k
          → gather ops bm.block_size (ops.index_copy t slots rows) u.block_table len
            ≡ gather ops bm.block_size t u.block_table len =
        λ t rows size.
          unseen seq u start (length k) pos once below below_u apart slots t rows len mapped size
            covers_u in
      (
        slots,
        e,
        (
          record c {
            k_caches = set c.k_caches layer (ops.index_copy kc slots k);
            v_caches = set c.v_caches layer (ops.index_copy vc slots v);
          },
          ops.index_copy kc slots k,
          ops.index_copy vc slots v,
          rw (at_k, at_v),
          get_elem?-set_self c.k_caches layer _ (get_elem?_bound c.k_caches layer at_k),
          get_elem?-set_self c.v_caches layer _ (get_elem?_bound c.v_caches layer at_v),
          rw (unseen_by kc k refl, unseen_by vc v same),
        ),
      )
