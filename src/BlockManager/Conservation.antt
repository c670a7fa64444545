-- ===== src/BlockManager/Conservation.antt =====
-- pagedllm/block_manager.py: counting the blocks of a pool.
use paged_llm.Base.{
  ℕ, zero, suc, ◌+◌, ◌<◌, ◌≤◌, ◌≡◌, refl, List, [], ◌∷◌, if◌then◌else◌, ltb, ◌==◌, length, count,
  AllBelow, AllBelow-of_count, arith,
}
use paged_llm.BlockManager.{BlockManager}
use paged_llm.BlockManager.Invariant.{IsValid}

-- The sum of `f` over the block ids below `n`.
total : ℕ → (ℕ → ℕ) → ℕ
total zero f = 0
total (suc n) f = f n + total n f

total-add : (n : ℕ) (f g : ℕ → ℕ) → total n (λ b. f b + g b) ≡ total n f + total n g
unfolding total
total-add zero f g = omega arith
total-add (suc n) f g = omega (arith, total-add n f g)

total-ge : (n : ℕ) (f : ℕ → ℕ) → ((b : ℕ) → b < n → 1 ≤ f b) → n ≤ total n f
unfolding total
total-ge zero f h = omega arith
total-ge (suc n) f h = omega (arith, h n (omega arith), total-ge n f (λ b lt. h b (omega arith)))

total-le : (n : ℕ) (f : ℕ → ℕ) → ((b : ℕ) → f b ≤ 1) → total n f ≤ n
unfolding total
total-le zero f h = omega arith
total-le (suc n) f h = omega (arith, h n, total-le n f h)

-- One id is counted once, if it is below `n`.
total_one : (n x : ℕ) → total n (λ b. if x == b then 1 else 0) ≡ (if ltb x n then 1 else 0)
unfolding total
total_one zero x = ground arith
total_one (suc n) x = ground (arith, total_one n x)

total_none : (n : ℕ) → total n (λ b. 0) ≡ 0
unfolding total
total_none zero = refl
total_none (suc n) = omega (arith, total_none n)

total_count-le : (n : ℕ) (xs : List ℕ) → total n (λ b. count b xs) ≤ length xs
total_count-le n [] = omega (arith, total_none n)
total_count-le n (x ∷ xs) = ground (
  arith,
  total-add n (λ b. if x == b then 1 else 0) (λ b. count b xs),
  total_one n x,
  total_count-le n xs,
)

total_count : (n : ℕ) (xs : List ℕ) → AllBelow n xs → total n (λ b. count b xs) ≡ length xs
total_count n [] below = total_none n
total_count n (x ∷ xs) below = ground (
  arith,
  total-add n (λ b. if x == b then 1 else 0) (λ b. count b xs),
  total_one n x,
  total_count n xs below.1,
)

-- The bounds on the free blocks of a valid pool.
pub conservation :
    (bm : BlockManager) (held : List ℕ)
    → IsValid bm held
    → (length bm.free ≤ bm.num_blocks) × (bm.num_blocks ≤ length bm.free + length held)
conservation bm held v =
    let n = bm.num_blocks in
    let below : AllBelow n bm.free =
      AllBelow-of_count n bm.free (λ b p. ground (arith, v.free_count b)) in
    let all_counted : n ≤ total n (λ b. count b bm.free + count b held) =
      total-ge n (λ b. count b bm.free + count b held)
        (λ b lt. ground (arith, v.free_count b, v.held_count b)) in
    (
      omega (
        arith,
        total_count n bm.free below,
        total-le n (λ b. count b bm.free) (λ b. ground (arith, v.free_count b)),
      ),
      omega (
        arith,
        all_counted,
        total-add n (λ b. count b bm.free) (λ b. count b held),
        total_count-le n bm.free,
        total_count-le n held,
      ),
    )
