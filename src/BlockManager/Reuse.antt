-- ===== src/BlockManager/Reuse.antt =====
-- pagedllm/block_manager.py: which block `_allocate_block` reuses, and what the cache forgets.
use paged_llm.Base.{
  ℕ, ◌≡◌, ◌≢◌, ◌↔◌, refl, List, ◌∷◌, Option, none, some, ◌==◌, inl, inr, Bool-cases, lookup, ok,
  arith,
}
use paged_llm.BlockManager.{BlockManager, KvBlock, allocate_block}
use paged_llm.BlockManager.Invariant.{IsValid}
use paged_llm.BlockManager.Pool.{head_unused, taken, taken-IsValid, lookup-evict, without}

some-without : (id b : ℕ) (m : Option ℕ) → (without id m ≡ some b) ↔ ((m ≡ some b) × (b ≢ id))
some-without id b none = (λ e. cc, λ p. cc)
some-without id b (some c) =
    (λ e. (ground (arith, e), λ same. ground (arith, e, same)), λ p. ground (arith, p.0, p.1))

-- The oldest free block is reused, and the cache forgets it and nothing else. On a valid pool with
-- a free block, `allocate_block` does not raise, returns the head of the free queue and leaves the
-- rest; the pool is valid with one more reference, to that block. Afterwards a hash finds a block
-- exactly if it found it before and the block is not the one that was taken; the other blocks are
-- as they were.
pub allocate_block-evict :
    (bm : BlockManager) (held rest : List ℕ) (id : ℕ)
    → IsValid bm held
    → bm.free ≡ id ∷ rest
    → (k : KvBlock) × (bm' : BlockManager) × (allocate_block bm ≡ ok (k, bm'))
      × (k.block_id ≡ id)
      × (bm'.free ≡ rest)
      × IsValid bm' (id ∷ held)
      × ((h b : ℕ) → (lookup h bm'.cached ≡ some b) ↔ ((lookup h bm.cached ≡ some b) × (b ≢ id)))
      × ((b : ℕ) → b ≢ id → bm'.blocks b ≡ bm.blocks b)
unfolding allocate_block
allocate_block-evict bm held rest id v e =
    let (lt, unused, gone, new) = head_unused v id rest e in
    (
      record (bm.blocks id) { ref_count = 1; block_hash = none },
      taken v id rest,
      ground (arith, e),
      v.ids id lt,
      refl,
      taken-IsValid v id rest e,
      λ h b. rw (lookup-evict v id h lt) (some-without id b (lookup h bm.cached)),
      λ b other. elim (Bool-cases (id == b)) [
        | inl same ↦ absurd (other (ground (arith, same)))
        | inr apart ↦ rw apart refl
      ],
    )
