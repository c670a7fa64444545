-- ===== src/KvCache/Parts.antt =====
-- pagedllm/kv_cache.py: the slots of all sequences of a batch.
use paged_llm.Base.{
  ℕ, suc, ◌+◌, ◌*◌, ◌/◌, ◌%◌, ◌<◌, ◌≤◌, ◌≡◌, inl, inr, sym, ap, ◌∙◌, List, [], ◌∷◌, ◌++◌, length,
  get_elem?, get_elem?_bound, count, count-append, count-get_elem?, index_of_count, AllBelow,
  below_of_AllBelow, some, Bool-cases, ◌==◌, slot_injective, div_mono, arith,
}
use paged_llm.Sequence.{Sequence}
use paged_llm.BlockManager.{BlockManager}
use paged_llm.BlockManager.Sequences.{SlotAt}
use paged_llm.BlockManager.Disjoint.{count_unique, same_position}

-- A sequence with its `num` new tokens from `start` on.
pub record Part : Type 0 where
  pub seq : Sequence
  pub start : ℕ
  pub num : ℕ

-- The references of the sequences of a batch.
abbrev pub tables_of : List Part → List ℕ
tables_of [] = []
tables_of (g ∷ gs) = g.seq.block_table ++ tables_of gs

some_injective : {a b : ℕ} → some a ≡ some b → a ≡ b
some_injective e = cc

-- An element that has one index at most occurs once at most.
count_of_distinct :
    (xs : List ℕ)
    → ((i j x : ℕ) → get_elem? xs i ≡ some x → get_elem? xs j ≡ some x → i ≡ j)
    → (b : ℕ) → count b xs ≤ 1
count_of_distinct [] distinct b = omega arith
count_of_distinct (x ∷ xs) distinct b =
    let rest =
      count_of_distinct xs (λ i j y p q. omega (arith, distinct (suc i) (suc j) y p q)) b in
    elim (Bool-cases (x == b)) [
      | inr other ↦ ground (arith, rest, other)
      | inl here ↦ elim (Bool-cases (count b xs == 0)) [
        | inl none_of ↦ ground (arith, none_of)
        | inr some_of ↦
            let (i, at_i) = index_of_count b xs (ground (arith, some_of)) in
            let same : 0 ≡ suc i = distinct 0 (suc i) b (ground (arith, here)) at_i in
            absurd (omega (arith, same))
      ]
    ]

module _ (bm : BlockManager) where
  abbrev bs : ℕ
  bs = bm.block_size

  -- The blocks that are written are the sequence's alone.
  pub record IsOwner (all : List ℕ) (g : Part) : Type 0 where
    pub below : AllBelow bm.num_blocks g.seq.block_table
    pub covers : g.start + g.num ≤ length g.seq.block_table * bs
    pub alone :
        (i b : ℕ) → g.start / bs ≤ i → get_elem? g.seq.block_table i ≡ some b → count b all ≡ 1

  abbrev pub AllOwn : List ℕ → List Part → Type 0
  AllOwn all [] = Unit {0}
  AllOwn all (g ∷ gs) = IsOwner all g × AllOwn all gs

  -- The slots of the parts, one part behind the other.
  abbrev pub Placed : List Part → List ℕ → Type 0
  Placed [] slots = slots ≡ []
  Placed (g ∷ gs) slots =
      (own : List ℕ) × (rest : List ℕ) × (slots ≡ own ++ rest)
      × (length own ≡ g.num)
      × ((i : ℕ) → i < g.num → SlotAt bm g.seq own g.start i)
      × Placed gs rest

  -- What is known of a slot that is written.
  abbrev pub Hit : List ℕ → List ℕ → ℕ → Type 0
  Hit all tables x =
      (b o : ℕ) × (x ≡ b * bs + o)
      × (o < bs)
      × (count b all ≡ 1)
      × (0 < count b tables)
      × (b < bm.num_blocks)

  module _ (all : List ℕ) (pos : 0 < bs) where
    pub own_hit :
        (g : Part) (own : List ℕ) (x : ℕ)
        → IsOwner all g
        → length own ≡ g.num
        → ((i : ℕ) → i < g.num → SlotAt bm g.seq own g.start i)
        → 0 < count x own
        → (i b : ℕ) × (i < g.num)
          × (get_elem? g.seq.block_table ((g.start + i) / bs) ≡ some b)
          × (x ≡ b * bs + (g.start + i) % bs)
          × (count b all ≡ 1)
    own_hit g own x owner size each here =
        let (i, at_i) = index_of_count x own here in
        let lt : i < g.num = omega (arith, get_elem?_bound own i at_i, size) in
        let (b, at_b, slot) = each i lt in
        (
          i,
          b,
          lt,
          at_b,
          some_injective (sym at_i ∙ slot),
          owner.alone ((g.start + i) / bs) b (div_mono g.start (g.start + i) bs (omega arith)) at_b,
        )

    pub hit :
        (gs : List Part) (slots : List ℕ) (x : ℕ)
        → AllOwn all gs
        → Placed gs slots
        → 0 < count x slots
        → Hit all (tables_of gs) x
    hit [] slots x owners placed here = absurd (omega (arith, ap (count x) placed, here))
    hit (g ∷ gs) slots x (owner, owners) (own, rest, split, size, each, placed) here =
        let table = g.seq.block_table in
        elim (Bool-cases (count x own == 0)) [
          | inr mine ↦
              let (i, b, lt, at_b, slot, once) =
                own_hit g own x owner size each (ground (arith, mine)) in
              let held = count-get_elem? table _ b at_b in
              (
                b,
                (g.start + i) % bs,
                slot,
                omega arith,
                once,
                omega (arith, count-append b table (tables_of gs), held),
                below_of_AllBelow bm.num_blocks b table owner.below held,
              )
          | inl others ↦
              let (b, o, slot, lt, once, held, below) =
                hit gs rest x owners placed
                  (ground (arith, others, here, ap (count x) split, count-append x own rest)) in
              (
                b,
                o,
                slot,
                lt,
                once,
                omega (arith, count-append b table (tables_of gs), held),
                below,
              )
        ]

    -- The slots of one sequence are distinct.
    own_once :
        (g : Part) (own : List ℕ)
        → IsOwner all g
        → length own ≡ g.num
        → ((i : ℕ) → i < g.num → SlotAt bm g.seq own g.start i)
        → ((b : ℕ) → count b g.seq.block_table ≤ count b all)
        → (x : ℕ) → count x own ≤ 1
    own_once g own owner size each less = count_of_distinct own (λ i j x p q.
        let table = g.seq.block_table in
        let (b, at_b, slot_b) = each i (omega (arith, size, get_elem?_bound own i p)) in
        let (c, at_c, slot_c) = each j (omega (arith, size, get_elem?_bound own j q)) in
        let same_slot : b * bs + (g.start + i) % bs ≡ c * bs + (g.start + j) % bs =
          some_injective (sym slot_b ∙ p ∙ sym q ∙ slot_c) in
        let (same_block, same_offset) =
          slot_injective b c ((g.start + i) % bs) ((g.start + j) % bs) bs (omega arith)
            (omega arith) same_slot in
        let once =
          owner.alone ((g.start + j) / bs) c (div_mono g.start (g.start + j) bs (omega arith))
            at_c in
        let same_index : (g.start + i) / bs ≡ (g.start + j) / bs =
          count_unique table _ _ c (at_b ∙ ap some same_block) at_c (omega (arith, less c, once)) in
        omega (arith, same_position (g.start + i) (g.start + j) bs pos same_index same_offset))

    -- No slot is written twice.
    pub once :
        (gs : List Part) (slots : List ℕ)
        → AllOwn all gs
        → Placed gs slots
        → ((b : ℕ) → count b (tables_of gs) ≤ count b all)
        → (x : ℕ) → count x slots ≤ 1
    once [] slots owners placed less x = omega (arith, ap (count x) placed)
    once (g ∷ gs) slots (owner, owners) (own, rest, split, size, each, placed) less x =
        let table = g.seq.block_table in
        let both : (b : ℕ) → count b table + count b (tables_of gs) ≤ count b all =
          λ b. omega (arith, less b, count-append b table (tables_of gs)) in
        let mine = own_once g own owner size each (λ b. omega (arith, both b)) x in
        let theirs = once gs rest owners placed (λ b. omega (arith, both b)) x in
        let sum : count x slots ≡ count x own + count x rest =
          ap (count x) split ∙ count-append x own rest in
        elim (Bool-cases (count x own == 0)) [
          | inl not_mine ↦ ground (arith, not_mine, theirs, sum)
          | inr is_mine ↦ elim (Bool-cases (count x rest == 0)) [
            | inl not_theirs ↦ ground (arith, not_theirs, mine, sum)
            | inr is_theirs ↦
                let (i, b, lt, at_b, slot, once_b) =
                  own_hit g own x owner size each (ground (arith, is_mine)) in
                let (c, o, slot', lt', once_c, held, below) =
                  hit gs rest x owners placed (ground (arith, is_theirs)) in
                let (same, _) =
                  slot_injective c b o ((g.start + i) % bs) bs lt' (omega arith)
                    (sym slot' ∙ slot) in
                let here : 0 < count b table = count-get_elem? table _ b at_b in
                let there : 0 < count b (tables_of gs) = rw same at held in
                absurd (omega (arith, both b, once_b, here, there))
          ]
        ]
