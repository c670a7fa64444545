-- ===== src/Llama/Padding.antt =====
-- pagedllm/attention/reference.py: the zeros behind a block table are not read.
use paged_llm.Base.{
  ℕ, zero, suc, ◌+◌, ◌*◌, ◌-◌, ◌<◌, ◌≤◌, ◌≡◌, refl, ap, List, [], ◌∷◌, ◌++◌, map, Bool, length,
  take, ceil_fits, arith,
}
use paged_llm.BlockManager.{BlockManager, num_blocks_for_tokens}
use paged_llm.KvCache.{Tensors, gather}
use paged_llm.KvCache.Parts.{Part, AllOwn}
use paged_llm.Attention.Segments.{each_alone, total_q}
use paged_llm.Runner.{pad, zeros}
use paged_llm.Llama.Layer.{segment, padded}

take_front : {A : Type 0} (n : ℕ) (xs ys : List A) → n ≤ length xs → take n (xs ++ ys) ≡ take n xs
take_front zero xs ys le = refl
take_front (suc n) [] ys le = absurd (omega arith)
take_front (suc n) (x ∷ xs) ys le = ap (λ q. x ∷ q) (take_front n xs ys (omega arith))

module _ {T Row : Type 0} (ops : Tensors T Row) (bm : BlockManager) (all : List ℕ)
    (pos : 0 < bm.block_size) where
  gather-pad :
      (t : T) (table : List ℕ) (width len : ℕ)
      → len ≤ length table * bm.block_size
      → gather ops bm.block_size t (pad width table) len ≡ gather ops bm.block_size t table len
  unfolding gather
  gather-pad t table width len covers =
      let few : num_blocks_for_tokens len bm.block_size ≤ length table =
        ceil_fits len (length table) bm.block_size pos covers in
      rw
        (take_front (num_blocks_for_tokens len bm.block_size) table (zeros (width - length table))
          few)
        refl

  pub each_alone-padded :
      {Query : Type 0} (attend : List Query → List Row → List Row → (ℕ → ℕ → Bool) → List Query)
      (kc vc : T) (q : List Query) (width start : ℕ) (gs : List Part)
      → AllOwn bm all gs
      → each_alone ops attend bm.block_size kc vc q start (map (padded width) gs)
        ≡ each_alone ops attend bm.block_size kc vc q start (map segment gs)
  each_alone-padded attend kc vc q width start [] owners = refl
  each_alone-padded attend kc vc q width start (g ∷ gs) (owner, owners) = rw (
    gather-pad kc g.seq.block_table width (g.start + g.num) owner.covers,
    gather-pad vc g.seq.block_table width (g.start + g.num) owner.covers,
    each_alone-padded attend kc vc q width (start + g.num) gs owners,
  )

  pub total_q-padded :
      (width : ℕ) (gs : List Part) → total_q (map (padded width) gs) ≡ total_q (map segment gs)
  total_q-padded width [] = refl
  total_q-padded width (g ∷ gs) = ap (λ n. g.num + n) (total_q-padded width gs)
