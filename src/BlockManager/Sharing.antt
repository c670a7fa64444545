-- ===== src/BlockManager/Sharing.antt =====
-- pagedllm/block_manager.py: a sequence that shares the blocks of another gives them back.
use paged_llm.Base.{ℕ, ◌≡◌, List, [], ◌++◌, count, ok, arith}
use paged_llm.Sequence.{Sequence}
use paged_llm.BlockManager.{BlockManager}
use paged_llm.BlockManager.Slots.{free, fork}
use paged_llm.BlockManager.Invariant.{IsValid, SameShape, SameShape-trans, refs}
use paged_llm.BlockManager.Sequences.{free_total, fork_total}

-- Two valid managers of one shape with the same references have the same free blocks.
same_free :
    {bm bm' : BlockManager} {held : List ℕ}
    → IsValid bm held
    → IsValid bm' held
    → SameShape bm bm'
    → (b : ℕ) → (refs bm' b ≡ refs bm b) × (count b bm'.free ≡ count b bm.free)
same_free v v' s b = (
  omega (arith, v.held_count b, v'.held_count b),
  ground (arith, v.held_count b, v'.held_count b, v.free_count b, v'.free_count b, s.same_blocks),
)

-- On a valid pool and for a child without blocks, neither `fork` nor the `free` of the forked child
-- raises, and after both the pool is valid for the old references: each block has the reference
-- count that it had, and the same blocks are free.
pub free-fork :
    (parent child : Sequence) (rest : List ℕ) {bm : BlockManager}
    → IsValid bm (parent.block_table ++ rest)
    → child.block_table ≡ []
    → (child' : Sequence) × (bm1 : BlockManager) × (bm2 : BlockManager) × (fork bm parent child
        ≡ ok (child', bm1))
      × (free bm1 child' ≡ ok (record child' { block_table = [] }, bm2))
      × IsValid bm2 (parent.block_table ++ rest)
      × ((b : ℕ) → (refs bm2 b ≡ refs bm b) × (count b bm2.free ≡ count b bm.free))
free-fork parent child rest v empty =
    let (bm1, e1, v1, s1) = fork_total parent child rest v empty in
    let child' : Sequence = record child {
      block_table = parent.block_table;
      num_computed_tokens = parent.num_computed_tokens;
    } in
    let (bm2, e2, v2, s2, _) = free_total child' (parent.block_table ++ rest) v1 in
    (child', bm1, bm2, e1, e2, v2, same_free v v2 (SameShape-trans s1 s2))
