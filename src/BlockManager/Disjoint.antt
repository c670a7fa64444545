-- ===== src/BlockManager/Disjoint.antt =====
-- pagedllm/block_manager.py: the slots of a sequence do not overlap.
use paged_llm.Base.{
  ℕ, zero, suc, ◌+◌, ◌*◌, ◌/◌, ◌%◌, ◌<◌, ◌≤◌, ◌≡◌, refl, sym, ap, ◌∙◌, List, [], ◌∷◌, Option, none,
  some, length, count, get_elem?, get_elem?_bound, count-get_elem?, slot_injective, ok, arith,
}
use paged_llm.Sequence.{Sequence}
use paged_llm.BlockManager.{BlockManager}
use paged_llm.BlockManager.Slots.{slot_mapping}
use paged_llm.BlockManager.Sequences.{slot_mapping_total}

abbrev value_or : Option ℕ → ℕ
value_or (some x) = x
value_or none = 0

-- An element that occurs once has one index.
pub count_unique :
    (xs : List ℕ) (i j b : ℕ)
    → get_elem? xs i ≡ some b
    → get_elem? xs j ≡ some b
    → count b xs ≤ 1
    → i ≡ j
count_unique [] i j b p q h = absurd (cc)
count_unique (x ∷ xs) zero zero b p q h = refl
count_unique (x ∷ xs) zero (suc j) b p q h = absurd (ground (arith, count-get_elem? xs j b q))
count_unique (x ∷ xs) (suc i) zero b p q h = absurd (ground (arith, count-get_elem? xs i b p))
count_unique (x ∷ xs) (suc i) (suc j) b p q h = ap suc (count_unique xs i j b p q (ground arith))

pub same_position : (a b bs : ℕ) → 0 < bs → a / bs ≡ b / bs → a % bs ≡ b % bs → a ≡ b
same_position a b bs pos q r = grind arith

-- For a positive block size, positions that the table covers and a table that names no block twice,
-- `slot_mapping` does not raise, and no two positions get one slot.
pub slot_mapping_disjoint :
    (bm : BlockManager) (seq : Sequence) (start n : ℕ)
    → 0 < bm.block_size
    → start + n ≤ length seq.block_table * bm.block_size
    → ((b : ℕ) → count b seq.block_table ≤ 1)
    → (slots : List ℕ) × (slot_mapping bm seq start n ≡ ok slots)
      × ((i j x : ℕ) → get_elem? slots i ≡ some x → get_elem? slots j ≡ some x → i ≡ j)
slot_mapping_disjoint bm seq start n pos covers once =
    let (slots, e, size, each) = slot_mapping_total bm seq start n pos covers in
    (
      slots,
      e,
      λ i j x p q.
          let (b, at_b, slot_b) = each i (omega (arith, size, get_elem?_bound slots i p)) in
          let (c, at_c, slot_c) = each j (omega (arith, size, get_elem?_bound slots j q)) in
          let same_slot : b * bm.block_size + (start + i) % bm.block_size
              ≡ c * bm.block_size + (start + j) % bm.block_size =
            ap value_or (sym slot_b ∙ (p ∙ (sym q ∙ slot_c))) in
          let (same_block, same_offset) =
            slot_injective b c ((start + i) % bm.block_size) ((start + j) % bm.block_size)
              bm.block_size (omega arith) (omega arith) same_slot in
          let same_index : (start + i) / bm.block_size ≡ (start + j) / bm.block_size =
            count_unique seq.block_table _ _ c (at_b ∙ ap some same_block) at_c (once c) in
          omega
            (arith, same_position (start + i) (start + j) bm.block_size pos same_index same_offset),
    )
