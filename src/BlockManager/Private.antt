-- ===== src/BlockManager/Private.antt =====
-- pagedllm/block_manager.py: a block that is not cached is not shared. The pool operations keep this, as
-- long as no sequence is forked, and they give no block a hash.
use paged_llm.Base.{
  ℕ, zero, suc, ◌+◌, ◌-◌, ◌<◌, set, ◌≤◌, ◌≡◌, ◌≢◌, refl, ap, sym, subst, ◌∙◌, get_elem?,
  get_elem?-append_left, get_elem?-append_right, get_elem?-set_self, get_elem?-set_ne,
  get_elem?_bound, All, bind_inversion, ◌>>=◌, List, [], ◌∷◌, ◌++◌, All-mono, Option, none, some,
  ltb, ◌==◌, length, Bool-cases, List-cases, inl, inr, ok, arith,
}
use paged_llm.BlockManager.{
  BlockManager, KvBlock, block, allocate_block, touch, release, released, touch_all, release_all,
  allocate_all,
}
use paged_llm.BlockManager.Invariant.{refs}

abbrev pub hash_of : BlockManager → ℕ → Option ℕ
hash_of bm b = (bm.blocks b).block_hash

-- A block without a hash has one reference at most.
abbrev pub Single : BlockManager → Type 0
Single bm = (b : ℕ) → hash_of bm b ≡ none → refs bm b ≤ 1

-- No block gets a hash, and none without one gets a second reference.
pub record Tame (bm bm' : BlockManager) : Type 0 where
  pub single : Single bm → Single bm'
  pub unhashed : (b : ℕ) → hash_of bm b ≡ none → hash_of bm' b ≡ none

pub Tame-refl : (bm : BlockManager) → Tame bm bm
Tame-refl bm = record { single = λ s. s; unhashed = λ b e. e }

pub Tame-trans : {a b c : BlockManager} → Tame a b → Tame b c → Tame a c
Tame-trans s t = record {
  single = λ h. t.single (s.single h);
  unhashed = λ b e. t.unhashed b (s.unhashed b e);
}

pub release-Tame : (bm bm' : BlockManager) (b : ℕ) → release bm b ≡ ok bm' → Tame bm bm'
unfolding release released block
release-Tame bm bm' b e = record {
  single = λ s c h. ground (arith, s c);
  unhashed = λ c h. ground arith;
}

-- Each block of the pool knows its index.
abbrev pub Indexed : BlockManager → Type 0
Indexed bm = (b : ℕ) → b < bm.num_blocks → (bm.blocks b).block_id ≡ b

-- The block that is handed out has no hash, and one reference.
pub allocate_block-Tame :
    (bm bm' : BlockManager) (k : KvBlock)
    → Indexed bm
    → allocate_block bm ≡ ok (k, bm')
    → Tame bm bm' × Indexed bm' × (hash_of bm' k.block_id ≡ none)
unfolding allocate_block block
allocate_block-Tame bm bm' k ids e = elim (List-cases bm.free) [
  | inl none_free ↦ absurd (ground (arith, none_free))
  | inr (id, rest, some_free) ↦ (
    record {
      single = λ s c h. ground (arith, s c, ids id, some_free);
      unhashed = λ c h. ground (arith, ids id, some_free);
    },
    λ c lt. ground (arith, ids c, ids id, some_free),
    ground (arith, ids id, some_free),
  )
]

pub release_all-Tame :
    (bs : List ℕ) (bm bm' : BlockManager) → release_all bm bs ≡ ok bm' → Tame bm bm'
unfolding release_all
release_all-Tame [] bm bm' e = let same : bm ≡ bm' = cc in subst (Tame bm) same (Tame-refl bm)
release_all-Tame (b ∷ bs) bm bm' e =
    let (bm1, e1, e2) = bind_inversion (release bm b) (λ q. release_all q bs) bm' e in
    Tame-trans (release-Tame bm bm1 b e1) (release_all-Tame bs bm1 bm' e2)

pub touch-Tame :
    (bm bm' : BlockManager) (b : ℕ)
    → Indexed bm
    → hash_of bm b ≢ none
    → touch bm b ≡ ok bm'
    → Tame bm bm' × Indexed bm' × ((c : ℕ) → hash_of bm' c ≡ hash_of bm c)
unfolding touch block
touch-Tame bm bm' b ids hashed e = (
  record { single = λ s c h. ground (arith, s c); unhashed = λ c h. ground arith },
  λ c lt. ground (arith, ids c),
  λ c. ground arith,
)

pub touch_all-Tame :
    (bs : List ℕ) (bm bm' : BlockManager)
    → Indexed bm
    → All (λ b. hash_of bm b ≢ none) bs
    → touch_all bm bs ≡ ok bm'
    → Tame bm bm' × Indexed bm' × ((c : ℕ) → hash_of bm' c ≡ hash_of bm c)
unfolding touch_all
touch_all-Tame [] bm bm' ids hashed e =
    let same : bm ≡ bm' = cc in
    subst (λ q. Tame bm q × Indexed q × ((c : ℕ) → hash_of q c ≡ hash_of bm c)) same
      (Tame-refl bm, ids, λ c. refl)
touch_all-Tame (b ∷ bs) bm bm' ids (h, hs) e =
    let (bm1, e1, e2) = bind_inversion (touch bm b) (λ q. touch_all q bs) bm' e in
    let (tame1, ids1, same1) = touch-Tame bm bm1 b ids h e1 in
    let (tame2, ids2, same2) =
      touch_all-Tame bs bm1 bm' ids1 (All-mono bs (λ c g p. g (sym (same1 c) ∙ p)) hs) e2 in
    (Tame-trans tame1 tame2, ids2, λ c. same2 c ∙ same1 c)

abbrev pub AllUnhashed : BlockManager → List ℕ → Type 0
AllUnhashed bm = All (λ b. hash_of bm b ≡ none)

pub allocate_all-Tame :
    (n : ℕ) (bm bm' : BlockManager) (new : List ℕ)
    → Indexed bm
    → allocate_all bm n ≡ ok (new, bm')
    → Tame bm bm' × Indexed bm' × AllUnhashed bm' new
unfolding allocate_all
allocate_all-Tame zero bm bm' new ids e =
    let same : bm ≡ bm' = cc in
    let empty : [] ≡ new = cc in
    subst (λ q. Tame bm q × Indexed q × AllUnhashed q new) same
      (Tame-refl bm, ids, subst (AllUnhashed bm) empty tt)
allocate_all-Tame (suc n) bm bm' new ids e =
    let ((k, bm1), e1, e2) =
      bind_inversion (allocate_block bm)
        (λ (k, bm1). allocate_all bm1 n >>= (λ (ids, bm2). ok (k.block_id ∷ ids, bm2))) (new, bm')
        e in
    let ((rest, bm2), e3, e4) =
      bind_inversion (allocate_all bm1 n) (λ (ids, bm2). ok (k.block_id ∷ ids, bm2)) (new, bm')
        e2 in
    let (tame1, ids1, clean1) = allocate_block-Tame bm bm1 k ids e1 in
    let (tame2, ids2, clean2) = allocate_all-Tame n bm1 bm2 rest ids1 e3 in
    let same : bm2 ≡ bm' = cc in
    let split : k.block_id ∷ rest ≡ new = cc in
    subst (λ q. Tame bm q × Indexed q × AllUnhashed q new) same
      (
        Tame-trans tame1 tame2,
        ids2,
        subst (AllUnhashed bm2) split (tame2.unhashed k.block_id clean1, clean2),
      )

-- From an index on, no block of a table has a hash.
abbrev pub Clean : BlockManager → List ℕ → ℕ → Type 0
Clean bm table from = (i b : ℕ) → from ≤ i → get_elem? table i ≡ some b → hash_of bm b ≡ none

pub Clean-mono :
    {bm bm' : BlockManager} (table : List ℕ) (from : ℕ)
    → Tame bm bm'
    → Clean bm table from
    → Clean bm' table from
Clean-mono table from tame clean i b le at_i = tame.unhashed b (clean i b le at_i)

pub unhashed_member :
    (bm : BlockManager) (bs : List ℕ) (i b : ℕ)
    → AllUnhashed bm bs
    → get_elem? bs i ≡ some b
    → hash_of bm b ≡ none
unhashed_member bm [] i b clean at_i = absurd cc
unhashed_member bm (x ∷ xs) zero b (c, cs) at_i =
    let same : x ≡ b = cc in subst (λ q. hash_of bm q ≡ none) same c
unhashed_member bm (x ∷ xs) (suc i) b (c, cs) at_i = unhashed_member bm xs i b cs at_i

pub Clean-append :
    (bm : BlockManager) (old new : List ℕ) (from : ℕ)
    → Clean bm old from
    → AllUnhashed bm new
    → Clean bm (old ++ new) from
Clean-append bm old new from clean fresh i b le at_i = elim (Bool-cases (ltb i (length old))) [
  | inl lt ↦ clean i b le (sym (get_elem?-append_left old new i (ground (arith, lt))) ∙ at_i)
  | inr ge ↦
      let j = i - length old in
      let e : i ≡ length old + j = ground (arith, ge) in
      unhashed_member bm new j b fresh (sym (get_elem?-append_right old new j) ∙ rw (← e) at_i)
]

pub Clean-set :
    (bm : BlockManager) (table : List ℕ) (from idx f x : ℕ)
    → Clean bm table from
    → get_elem? table idx ≡ some x
    → hash_of bm f ≡ none
    → Clean bm (set table idx f) from
Clean-set bm table from idx f x clean at_idx fresh i b le at_i = elim (Bool-cases (idx == i)) [
  | inl e ↦
      let here : some f ≡ some b =
        sym (get_elem?-set_self table idx f (get_elem?_bound table idx at_idx))
        ∙ ap (get_elem? (set table idx f)) (ground (arith, e))
        ∙ at_i in
      let same : f ≡ b = cc in subst (λ q. hash_of bm q ≡ none) same fresh
  | inr e ↦ clean i b le (sym (get_elem?-set_ne table idx i f (ground (arith, e))) ∙ at_i)
]

-- What `allocate_slots` leaves: the blocks of the table from an index on have no hash, if they had
-- none.
abbrev pub Grows : BlockManager → BlockManager → List ℕ → List ℕ → ℕ → Type 0
Grows bm bm' old table from = Tame bm bm' × (Clean bm old from → Clean bm' table from)
