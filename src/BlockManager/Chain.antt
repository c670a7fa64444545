-- ===== src/BlockManager/Chain.antt =====
-- pagedllm/block_manager.py: the chain of hashes along a list of tokens, and what it says of them.
use paged_llm.Base.{
  ℕ, zero, suc, ◌+◌, ◌-◌, ◌*◌, ◌<◌, ◌≤◌, ◌≡◌, ◌≢◌, ◌⊎◌, inl, inr, refl, sym, ap, ◌∙◌, List, [], ◌∷◌,
  ◌++◌, ◌==◌, Bool-cases, Option, none, some, take, drop, take_split, drop-take, take-take, arith,
}
use paged_llm.BlockManager.PrefixCache.{block_tokens}

block_tokens_behind :
    (bs n : ℕ) (tokens : List ℕ) → block_tokens bs tokens n ≡ take bs (drop (n * bs) tokens)
block_tokens_behind bs n tokens =
    let width : (n + 1) * bs - n * bs ≡ bs = omega arith in rw width refl

take_block :
    (bs n : ℕ) (tokens : List ℕ)
    → take (suc n * bs) tokens ≡ take (n * bs) tokens ++ block_tokens bs tokens n
take_block bs n tokens =
    let sum : suc n * bs ≡ n * bs + bs = omega arith in
    rw (block_tokens_behind bs n tokens) (take_split (n * bs) bs (suc n * bs) tokens sum)

List-same : (xs ys : List ℕ) → (xs ≡ ys) ⊎ (xs ≢ ys)
List-same [] [] = inl refl
List-same [] (y ∷ ys) = inr (λ e. cc)
List-same (x ∷ xs) [] = inr (λ e. cc)
List-same (x ∷ xs) (y ∷ ys) = elim (Bool-cases (x == y)) [
  | inr other ↦ inr (λ e. ground (arith, other, e))
  | inl same ↦
      let head : x ≡ y = ground (arith, same) in
      elim (List-same xs ys) [
        | inl tail ↦ inl (rw (head, tail) refl)
        | inr differ ↦ inr (λ e. differ (tail_of e))
      ]
]
  where
    tail_of : {a b : ℕ} {us vs : List ℕ} → a ∷ us ≡ b ∷ vs → us ≡ vs
    tail_of e = cc

Option-same : (p q : Option ℕ) → (p ≡ q) ⊎ (p ≢ q)
Option-same none none = inl refl
Option-same none (some h) = inr (λ e. cc)
Option-same (some h) none = inr (λ e. cc)
Option-same (some g) (some h) = elim (Bool-cases (g == h)) [
  | inl same ↦ inl (ap some (ground (arith, same)))
  | inr other ↦ inr (λ e. ground (arith, other, e))
]

module _ (hash : Option ℕ → List ℕ → ℕ) where
  -- The hash of the block before the `n`-th, which stands for the first `n` blocks of the tokens.
  abbrev pub chain : ℕ → List ℕ → ℕ → Option ℕ
  chain bs tokens zero = none
  chain bs tokens (suc n) = some (hash (chain bs tokens n) (block_tokens bs tokens n))

  -- The hash of the `n`-th block.
  abbrev pub link : ℕ → List ℕ → ℕ → ℕ
  link bs tokens n = hash (chain bs tokens n) (block_tokens bs tokens n)

  -- Lists with the same first blocks have the same chain.
  pub chain-cong :
      (bs n : ℕ) (s t : List ℕ) → take (n * bs) s ≡ take (n * bs) t → chain bs s n ≡ chain bs t n
  chain-cong bs zero s t same = refl
  chain-cong bs (suc n) s t same =
      let sum : suc n * bs ≡ n * bs + bs = omega arith in
      let less : n * bs ≤ suc n * bs = omega arith in
      let before : take (n * bs) s ≡ take (n * bs) t =
        sym (take-take (n * bs) (suc n * bs) s less)
        ∙ ap (take (n * bs)) same
        ∙ take-take (n * bs) (suc n * bs) t less in
      let last : block_tokens bs s n ≡ block_tokens bs t n =
        block_tokens_behind bs n s
        ∙ sym (drop-take (n * bs) bs (suc n * bs) s sum)
        ∙ ap (drop (n * bs)) same
        ∙ drop-take (n * bs) bs (suc n * bs) t sum
        ∙ sym (block_tokens_behind bs n t) in
      rw (chain-cong bs n s t before, last) refl

  -- The hash takes one value at two different arguments: at one of the first `i` blocks of `s` and
  -- one of the first `j` blocks of `t`, which have different tokens or hashes before them.
  abbrev pub Collides : (bs i j : ℕ) → List ℕ → List ℕ → Type 0
  Collides bs i j s t =
      (m : ℕ) × (n : ℕ) × (m < i)
      × (n < j)
      × (link bs s m ≡ link bs t n)
      × ((chain bs s m ≢ chain bs t n) ⊎ (block_tokens bs s m ≢ block_tokens bs t n))

  -- The same link tells of the same number of blocks, with the same tokens, unless the hash
  -- collides in these blocks.
  pub chain_tells :
      (bs m n : ℕ) (s t : List ℕ)
      → chain bs s m ≡ chain bs t n
      → Collides bs m n s t ⊎ ((m ≡ n) × (take (m * bs) s ≡ take (m * bs) t))
  chain_tells bs zero zero s t e =
      let none_of : 0 * bs ≡ 0 = omega arith in inr (refl, rw none_of refl)
  chain_tells bs zero (suc n) s t e = cc
  chain_tells bs (suc m) zero s t e = cc
  chain_tells bs (suc m) (suc n) s t e =
      let hashed : link bs s m ≡ link bs t n = some_injective e in
      elim (Option-same (chain bs s m) (chain bs t n)) [
        | inr differ ↦ inl (m, n, omega arith, omega arith, hashed, inl differ)
        | inl prev ↦ elim (List-same (block_tokens bs s m) (block_tokens bs t n)) [
          | inr differ ↦ inl (m, n, omega arith, omega arith, hashed, inr differ)
          | inl last ↦ elim (chain_tells bs m n s t prev) [
            | inl (k, l, less, less', collide, why) ↦
                inl (k, l, omega arith, omega arith, collide, why)
            | inr (same, before) ↦
                let last' : block_tokens bs s m ≡ block_tokens bs t m =
                  last ∙ ap (block_tokens bs t) (sym same) in
                inr (
                  ap suc same,
                  take_block bs m s ∙ rw (before, last') refl ∙ sym (take_block bs m t),
                )
          ]
        ]
      ]
    where
      some_injective : {a b : ℕ} → some a ≡ some b → a ≡ b
      some_injective e = cc
