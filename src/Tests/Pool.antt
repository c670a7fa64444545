-- ===== src/Tests/Pool.antt =====
-- The theorems on the block manager, at concrete pools.
use paged_llm.Base.{
  get_elem?, some, ℕ, AllBelow, ◌*◌, ◌<◌, ◌≤◌, ◌≡◌, ◌⊎◌, refl, List, [], ◌∷◌, length, count, ok,
  arith,
}
use paged_llm.Sequence.{Sequence}
use paged_llm.BlockManager.{BlockManager}
use paged_llm.BlockManager.Slots.{allocate_slots, free, fork, slot_mapping}
use paged_llm.BlockManager.PrefixCache.{get_computed_blocks, cache_full_blocks}
use paged_llm.BlockManager.Invariant.{IsValid, SameShape, refs}
use paged_llm.BlockManager.Grants.{Refused, Grants, allocate_slots_total}
use paged_llm.BlockManager.Availability.{Foretold, can_allocate-allocate_slots}
use paged_llm.BlockManager.Sequences.{free_total, fork_total, slot_mapping_total, SlotAt}
use paged_llm.BlockManager.Disjoint.{slot_mapping_disjoint}
use paged_llm.BlockManager.Sharing.{free-fork}
use paged_llm.BlockManager.Caching.{get_computed_blocks_lem, cache_full_blocks_total}
use paged_llm.Tests.Data.{demo_hash, pool2, pool2-IsValid, decoding, fresh}

allocate_slots_example :
    Refused decoding 3 [] [] pool2 (allocate_slots pool2 decoding 3 [])
    ⊎ Grants decoding 3 [] [] pool2 (allocate_slots pool2 decoding 3 [])
allocate_slots_example = allocate_slots_total decoding 3 [] [] pool2-IsValid tt

free_example :
    (bm' : BlockManager) × (free pool2 decoding ≡ ok (record decoding { block_table = [] }, bm'))
    × IsValid bm' []
    × SameShape pool2 bm'
    × (2 ≤ length bm'.free)
free_example = free_total decoding [] pool2-IsValid

fork_example :
    (bm' : BlockManager) × (fork pool2 decoding fresh
      ≡ ok (record fresh { block_table = 0 ∷ 1 ∷ []; num_computed_tokens = 4 }, bm'))
    × IsValid bm' (0 ∷ 1 ∷ 0 ∷ 1 ∷ [])
    × SameShape pool2 bm'
fork_example = fork_total decoding fresh [] pool2-IsValid refl

slot_mapping_example :
    (slots : List ℕ) × (slot_mapping pool2 decoding 1 3 ≡ ok slots)
    × (length slots ≡ 3)
    × ((i : ℕ) → i < 3 → SlotAt pool2 decoding slots 1 i)
slot_mapping_example = slot_mapping_total pool2 decoding 1 3 (omega arith) (omega arith)

free-fork_example :
    (child : Sequence) × (bm1 : BlockManager) × (bm2 : BlockManager) × (fork pool2 decoding fresh
      ≡ ok (child, bm1))
    × (free bm1 child ≡ ok (record child { block_table = [] }, bm2))
    × IsValid bm2 (0 ∷ 1 ∷ [])
    × ((b : ℕ) → (refs bm2 b ≡ refs pool2 b) × (count b bm2.free ≡ count b pool2.free))
free-fork_example = free-fork decoding fresh [] pool2-IsValid refl

slot_mapping_disjoint_example :
    (slots : List ℕ) × (slot_mapping pool2 decoding 0 4 ≡ ok slots)
    × ((i j x : ℕ) → get_elem? slots i ≡ some x → get_elem? slots j ≡ some x → i ≡ j)
slot_mapping_disjoint_example =
    slot_mapping_disjoint pool2 decoding 0 4 (omega arith) (omega arith) (λ b. ground arith)

get_computed_blocks_example :
    let (hits, cached, bm') = get_computed_blocks demo_hash pool2 fresh in
    AllBelow 4 hits
    × (cached ≡ length hits * 2)
    × (cached < 3)
    × IsValid bm' (0 ∷ 1 ∷ [])
    × SameShape pool2 bm'
get_computed_blocks_example =
    get_computed_blocks_lem demo_hash pool2 fresh (0 ∷ 1 ∷ []) pool2-IsValid (omega arith)

cache_full_blocks_example :
    (bm' : BlockManager) × (cache_full_blocks demo_hash pool2 decoding 0 4 ≡ ok bm')
    × IsValid bm' (0 ∷ 1 ∷ [])
    × SameShape pool2 bm'
cache_full_blocks_example =
    cache_full_blocks_total demo_hash decoding 0 4 [] pool2-IsValid (omega arith) (omega arith)

-- The slots of positions 1 to 3, in the blocks 0 and 1.
slot_mapping_runs : slot_mapping pool2 decoding 1 3 ≡ ok (1 ∷ 2 ∷ 3 ∷ [])
unfolding slot_mapping
slot_mapping_runs = refl

can_allocate-allocate_slots_example : Foretold pool2 decoding 3 [] []
can_allocate-allocate_slots_example =
    can_allocate-allocate_slots pool2 decoding 3 [] [] pool2-IsValid tt
