-- ===== src/KvCache/Gather.antt =====
-- pagedllm/attention/reference.py: `gather_kv` returns the rows of a sequence in order.
use paged_llm.Base.{
  ℕ, zero, suc, ◌+◌, ◌*◌, ◌/◌, ◌%◌, ◌<◌, ◌≤◌, ◌≡◌, ◌∙◌, List, [], ◌∷◌, length, take, get_elem?,
  some, AllBelow, length-take, get_elem?_in_range, list_ext, sym, ap, get_elem?-take, ceil_covers,
  ceil_fits, slot_block, arith,
}
use paged_llm.BlockManager.{num_blocks_for_tokens}
use paged_llm.KvCache.{Tensors, gather}
use paged_llm.KvCache.Laws.{Laws}

AllBelow-take : (n k : ℕ) (xs : List ℕ) → AllBelow n xs → AllBelow n (take k xs)
AllBelow-take n zero xs h = tt
AllBelow-take n (suc k) [] h = tt
AllBelow-take n (suc k) (x ∷ xs) h = (h.0, AllBelow-take n k xs h.1)

module _ {T Row : Type 0} (ops : Tensors T Row) (row : T → ℕ → Row) (num_blocks bs : ℕ)
    (laws : Laws ops row num_blocks bs) where
  module _ (t : T) (table : List ℕ) (len : ℕ) (pos : 0 < bs) (below : AllBelow num_blocks table)
      (covers : len ≤ length table * bs) where
    abbrev blocks : List ℕ
    blocks = take (num_blocks_for_tokens len bs) table

    length-blocks : length blocks ≡ num_blocks_for_tokens len bs
    length-blocks = length-take _ table (ceil_fits len (length table) bs pos covers)

    below_blocks : AllBelow num_blocks blocks
    below_blocks = AllBelow-take num_blocks _ table below

    pub length-gather : length (gather ops bs t table len) ≡ len
    unfolding gather
    length-gather =
        let all : len ≤ length blocks * bs = rw length-blocks (ceil_covers len bs pos) in
        length-take len (ops.reshape (ops.select t blocks))
          (omega (arith, laws.selected_length t blocks below_blocks, all))

    -- Position `p` is in the block that the table names for it.
    pub gather_at :
        (p b : ℕ)
        → p < len
        → get_elem? table (p / bs) ≡ some b
        → get_elem? (gather ops bs t table len) p ≡ some (row t (b * bs + p % bs))
    unfolding gather
    gather_at p b lt at_p =
        let within : p / bs < num_blocks_for_tokens len bs =
          slot_block p (num_blocks_for_tokens len bs) bs (omega (arith, ceil_covers len bs pos)) in
        get_elem?-take len p (ops.reshape (ops.select t blocks)) lt
        ∙ laws.selected t blocks p b below_blocks
            (get_elem?-take (num_blocks_for_tokens len bs) (p / bs) table within ∙ at_p)

  -- Two tensors, and for each a table, with the same rows in the blocks.
  pub gather_same :
      (t t' : T) (old new : List ℕ) (len : ℕ)
      → 0 < bs
      → AllBelow num_blocks old
      → AllBelow num_blocks new
      → length new ≡ length old
      → len ≤ length old * bs
      → ((i b o : ℕ)
          → get_elem? old i ≡ some b
          → o < bs
          → (d : ℕ) × (get_elem? new i ≡ some d) × (row t' (d * bs + o) ≡ row t (b * bs + o)))
      → gather ops bs t' new len ≡ gather ops bs t old len
  gather_same t t' old new len pos below below' size covers same =
      let covers' : len ≤ length new * bs = rw size covers in
      let old_size = length-gather t old len pos below covers in
      let new_size = length-gather t' new len pos below' covers' in
      list_ext (gather ops bs t' new len) (gather ops bs t old len) (new_size ∙ sym old_size)
        (λ p lt.
          let lt' : p < len = omega (arith, old_size) in
          let (b, at_b) =
            get_elem?_in_range old (p / bs) (slot_block p (length old) bs (omega (arith, lt'))) in
          let (d, at_d, rows) = same (p / bs) b (p % bs) at_b (omega arith) in
          gather_at t' new len pos below' covers' p d lt' at_d
          ∙ ap some rows
          ∙ sym (gather_at t old len pos below covers p b lt' at_b))
