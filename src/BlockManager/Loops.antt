-- ===== src/BlockManager/Loops.antt =====
-- pagedllm/block_manager.py: the loops over the pool operations, as `allocate_slots`, `free` and
-- `fork` run them.
use paged_llm.Base.{
  ℕ, zero, suc, ◌+◌, ◌<◌, ◌≤◌, ◌≡◌, refl, List, [], ◌∷◌, ◌++◌, if◌then◌else◌, ◌==◌, length, count,
  count-append, AllBelow, ok, arith,
}
use paged_llm.BlockManager.{BlockManager, touch_all, release_all, allocate_all}
use paged_llm.BlockManager.Slots.{count_unreferenced}
use paged_llm.BlockManager.Invariant.{
  IsValid, SameShape, SameCount, refs, SameShape-refl, SameShape-trans, IsValid-of_SameCount,
}
use paged_llm.BlockManager.Pool.{touch_lem, release_lem, allocate_block_lem}

-- How many ids of the list have no reference.
abbrev pub unreferenced : BlockManager → List ℕ → ℕ
unreferenced bm [] = 0
unreferenced bm (b ∷ bs) = (if refs bm b == 0 then 1 else 0) + unreferenced bm bs

pub count_unreferenced_lem :
    (bm : BlockManager) (bs : List ℕ)
    → AllBelow bm.num_blocks bs
    → count_unreferenced bm bs ≡ ok (unreferenced bm bs)
unfolding count_unreferenced
count_unreferenced_lem bm [] h = refl
count_unreferenced_lem bm (b ∷ bs) h = ground (arith, count_unreferenced_lem bm bs h.1)

unreferenced_mono :
    (bm bm' : BlockManager) (bs : List ℕ)
    → ((b : ℕ) → refs bm b ≤ refs bm' b)
    → unreferenced bm' bs ≤ unreferenced bm bs
unreferenced_mono bm bm' [] h = omega arith
unreferenced_mono bm bm' (b ∷ bs) h = ground (arith, h b, unreferenced_mono bm bm' bs h)

-- Touching takes a reference on each block, and no more free blocks than had no reference.
pub touch_all_lem :
    (bs : List ℕ) {bm : BlockManager} {held : List ℕ}
    → IsValid bm held
    → AllBelow bm.num_blocks bs
    → (bm' : BlockManager) × (touch_all bm bs ≡ ok bm')
      × IsValid bm' (bs ++ held)
      × SameShape bm bm'
      × (length bm.free ≤ unreferenced bm bs + length bm'.free)
unfolding touch_all
touch_all_lem [] {bm} v h = (bm, refl, v, SameShape-refl bm, omega arith)
touch_all_lem (b ∷ bs) {bm} {held} v h =
    let (bm1, e1, v1, s1, f1) = touch_lem v b h.0 in
    let (bm2, e2, v2, s2, f2) = touch_all_lem bs v1 (rw s1.same_blocks h.1) in
    let fewer : unreferenced bm1 bs ≤ unreferenced bm bs =
      unreferenced_mono bm bm1 bs (λ c. omega (arith, v.held_count c, v1.held_count c)) in
    (
      bm2,
      rw (e1, e2),
      IsValid-of_SameCount v2
          (λ c. omega (arith, count-append c bs (b ∷ held), count-append c bs held)),
      SameShape-trans s1 s2,
      ground arith,
    )

-- References that are held are given back.
pub release_all_lem :
    (bs rest : List ℕ) {bm : BlockManager} {held : List ℕ}
    → IsValid bm held
    → SameCount held (bs ++ rest)
    → (bm' : BlockManager) × (release_all bm bs ≡ ok bm')
      × IsValid bm' rest
      × SameShape bm bm'
      × (length bm.free ≤ length bm'.free)
unfolding release_all
release_all_lem [] rest {bm} v e =
    (bm, refl, IsValid-of_SameCount v e, SameShape-refl bm, omega arith)
release_all_lem (b ∷ bs) rest v e =
    let (bm1, e1, v1, s1, f1) = release_lem v b (bs ++ rest) e in
    let (bm2, e2, v2, s2, f2) = release_all_lem bs rest v1 (λ c. refl) in
    (bm2, rw (e1, e2), v2, SameShape-trans s1 s2, omega arith)

-- Each id of the list stands there once, and is not held.
abbrev pub Fresh : List ℕ → List ℕ → Type 0
Fresh ids held = (b : ℕ) → 0 < count b ids → (count b ids ≡ 1) × (count b held ≡ 0)

-- As many blocks as are free are handed out, all different and held by nobody.
pub allocate_all_lem :
    (n : ℕ) {bm : BlockManager} {held : List ℕ}
    → IsValid bm held
    → n ≤ length bm.free
    → (ids : List ℕ) × (bm' : BlockManager) × (allocate_all bm n ≡ ok (ids, bm'))
      × IsValid bm' (ids ++ held)
      × SameShape bm bm'
      × (length bm.free ≡ n + length bm'.free)
      × (length ids ≡ n)
      × Fresh ids held
unfolding allocate_all
allocate_all_lem zero {bm} v h =
    ([], bm, refl, v, SameShape-refl bm, omega arith, refl, λ b p. absurd (omega arith))
allocate_all_lem (suc n) {bm} {held} v h =
    let (k, bm1, e1, v1, s1, f1, new) = allocate_block_lem v (omega arith) in
    let (ids, bm2, e2, v2, s2, f2, size, fresh) = allocate_all_lem n v1 (omega arith) in
    let b0 = k.block_id in
    (
      b0 ∷ ids,
      bm2,
      rw (e1, e2),
      IsValid-of_SameCount v2
          (λ c. omega (arith, count-append c ids (b0 ∷ held), count-append c ids held)),
      SameShape-trans s1 s2,
      omega arith,
      omega arith,
      λ b p. ground (arith, fresh b),
    )
