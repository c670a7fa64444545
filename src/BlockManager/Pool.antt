-- ===== src/BlockManager/Pool.antt =====
-- pagedllm/block_manager.py: the pool operations `_allocate_block`, `_touch` and `_release` keep
-- the invariant and never raise where the references are accounted for.
use paged_llm.Base.{
  ℕ, suc, ◌+◌, ◌-◌, ◌<◌, ◌≤◌, ◌≡◌, refl, ap, sym, subst, List, [], ◌∷◌, false, Option, none, some,
  if◌then◌else◌, ◌==◌, length, count, lookup, ok, arith, Bool-cases, Option-cases, List-cases, inl,
  inr, erase, remove_present, count-erase, length-erase, key_error, put_key_new, count-append,
  length-append, lookup-delete,
}
use paged_llm.BlockManager.{
  BlockManager, KvBlock, update, evict, allocate_block, touch, release, released,
}
use paged_llm.BlockManager.Invariant.{IsValid, SameShape, SameCount, refs}

-- An id or nothing, but not `id`.
abbrev pub without : ℕ → Option ℕ → Option ℕ
without id none = none
without id (some b) = if b == id then none else some b

module _ {bm : BlockManager} {held : List ℕ} (v : IsValid bm held) where
  -- Who is at the head of the free queue.
  pub head_unused :
      (id : ℕ) (rest : List ℕ)
      → bm.free ≡ id ∷ rest
      → (id < bm.num_blocks)
        × ((bm.blocks id).ref_count ≡ 0)
        × (count id rest ≡ 0)
        × (count id held ≡ 0)
  head_unused id rest e = ground (arith, v.free_count id, v.held_count id)

  -- Eviction forgets the block, and no other entry.
  pub lookup-evict :
      (id j : ℕ)
      → id < bm.num_blocks
      → lookup j (evict (bm.blocks id).block_hash id bm.cached) ≡ without id (lookup j bm.cached)
  unfolding evict
  lookup-evict id j h = elim (Option-cases (bm.blocks id).block_hash) [
    | inl e ↦ rw e (ground (arith, v.hash_of_cached j id))
    | inr (hh, e) ↦
        rw (e, evict)
          (ground (
            arith,
            lookup-delete j hh bm.cached,
            v.hash_of_cached j id,
            v.hash_of_cached hh id,
            v.cached_of_hash hh id h e,
          ))
  ]

  -- The manager when the head `id` of the free queue has been handed out.
  abbrev pub taken : ℕ → List ℕ → BlockManager
  taken id rest = record bm {
    free = rest;
    cached = evict (bm.blocks id).block_hash id bm.cached;
    blocks = update bm.blocks id (record (bm.blocks id) { ref_count = 1; block_hash = none });
  }

  pub taken-IsValid :
      (id : ℕ) (rest : List ℕ) → bm.free ≡ id ∷ rest → IsValid (taken id rest) (id ∷ held)
  taken-IsValid id rest e =
      let (lt, unused, gone, new) = head_unused id rest e in
      record {
        size_pos = v.size_pos;
        ids = λ b l. ground (arith, v.ids b);
        free_count = λ b. ground (arith, v.free_count b);
        held_count = λ b. ground (arith, v.held_count b);
        cached_of_hash =
            λ h b l p. rw (lookup-evict id h lt) (ground (arith, v.cached_of_hash h b));
        hash_of_cached = λ h b p.
            let q : without id (lookup h bm.cached) ≡ some b = rw (lookup-evict id h lt) at p in
            ground (arith, v.hash_of_cached h b);
        disabled = λ off h. rw (lookup-evict id h lt) (ground (arith, v.disabled off h));
      }

  -- On a valid pool with a free block, `allocate_block` does not raise. The block that it returns
  -- had no reference and now has one, the pool is valid and of the same shape, and one block fewer
  -- is free.
  pub allocate_block_lem :
      0 < length bm.free
      → (k : KvBlock) × (bm' : BlockManager) × (allocate_block bm ≡ ok (k, bm'))
        × IsValid bm' (k.block_id ∷ held)
        × SameShape bm bm'
        × (length bm.free ≡ suc (length bm'.free))
        × (count k.block_id held ≡ 0)
  unfolding allocate_block
  allocate_block_lem h = elim (List-cases bm.free) [
    | inl e ↦ absurd (omega (arith, ap length e))
    | inr (id, rest, e) ↦
        let (lt, unused, gone, new) = head_unused id rest e in
        (
          record (bm.blocks id) { ref_count = 1; block_hash = none },
          taken id rest,
          ground (arith, e),
          subst (λ x. IsValid (taken id rest) (x ∷ held)) (sym (v.ids id lt))
              (taken-IsValid id rest e),
          record { same_blocks = refl; same_size = refl; same_caching = refl },
          ap length e,
          rw (v.ids id lt) new,
        )
  ]

  -- The manager when `b` has one reference more and `free` is what is left of the queue.
  abbrev touched : ℕ → List ℕ → BlockManager
  touched b free = record bm {
    free = free;
    blocks = update bm.blocks b (record (bm.blocks b) { ref_count = (bm.blocks b).ref_count + 1 });
  }

  touched-IsValid :
      (b : ℕ) (free : List ℕ)
      → b < bm.num_blocks
      → ((c : ℕ)
          → count c bm.free
            ≡ (if (bm.blocks b).ref_count == 0 then (if b == c then 1 else 0) else 0)
              + count c free)
      → IsValid (touched b free) (b ∷ held)
  touched-IsValid b free lt split = record {
    size_pos = v.size_pos;
    ids = λ c l. ground (arith, v.ids c);
    free_count = λ c. ground (arith, v.free_count c, split c);
    held_count = λ c. ground (arith, v.held_count c);
    cached_of_hash = λ h c l p. ground (arith, v.cached_of_hash h c);
    hash_of_cached = λ h c p. ground (arith, v.hash_of_cached h c);
    disabled = v.disabled;
  }

  -- On a valid pool, `touch` of a block of the pool does not raise. The pool is valid with one more
  -- reference to the block and of the same shape, and the block is taken from the free ones exactly
  -- if it had no reference.
  pub touch_lem :
      (b : ℕ)
      → b < bm.num_blocks
      → (bm' : BlockManager) × (touch bm b ≡ ok bm')
        × IsValid bm' (b ∷ held)
        × SameShape bm bm'
        × (length bm.free ≡ (if (bm.blocks b).ref_count == 0 then 1 else 0) + length bm'.free)
  unfolding touch
  touch_lem b lt = elim (Bool-cases ((bm.blocks b).ref_count == 0)) [
    | inl unused ↦
        let here : 0 < count b bm.free = ground (arith, v.free_count b) in
        let free = erase b bm.free in
        (
          touched b free,
          ground (arith, remove_present key_error b bm.free here),
          touched-IsValid b free lt (λ c. ground (arith, count-erase c b bm.free here)),
          record { same_blocks = refl; same_size = refl; same_caching = refl },
          ground (arith, length-erase b bm.free here),
        )
    | inr used ↦ (
      touched b bm.free,
      ground arith,
      touched-IsValid b bm.free lt (λ c. ground arith),
      record { same_blocks = refl; same_size = refl; same_caching = refl },
      ground arith,
    )
  ]

  -- A reference that is held is given back; the last one returns the block to the free queue.
  released-IsValid :
      (b : ℕ) (rest : List ℕ)
      → b < bm.num_blocks
      → 0 < (bm.blocks b).ref_count
      → SameCount held (b ∷ rest)
      → IsValid
          (released bm b (record (bm.blocks b) { ref_count = (bm.blocks b).ref_count - 1 }))
          rest
  unfolding released
  released-IsValid b rest lt pos e =
      let out = put_key_new b bm.free (ground (arith, v.free_count b)) in
      record {
        size_pos = ground (arith, v.size_pos);
        ids = λ c l. ground (arith, v.ids c);
        free_count = λ c. ground (arith, v.free_count c, out, count-append c bm.free (b ∷ []));
        held_count = λ c. ground (arith, v.held_count c, e c);
        cached_of_hash = λ h c l p. ground (arith, v.cached_of_hash h c);
        hash_of_cached = λ h c p.
            let off : bm.enable_prefix_caching ≡ false → lookup h bm.cached ≡ none =
              λ q. v.disabled q h in
            ground (arith, v.hash_of_cached h c);
        disabled = ground (arith, v.disabled);
      }

  -- On a valid pool, `release` of a block that is held does not raise. The pool is valid with that
  -- reference given back and of the same shape, and no fewer blocks are free.
  pub release_lem :
      (b : ℕ) (rest : List ℕ)
      → SameCount held (b ∷ rest)
      → (bm' : BlockManager) × (release bm b ≡ ok bm')
        × IsValid bm' rest
        × SameShape bm bm'
        × (length bm.free ≤ length bm'.free)
  unfolding release released
  release_lem b rest e =
      let pos : 0 < refs bm b = ground (arith, v.held_count b, e b) in
      (
        released bm b (record (bm.blocks b) { ref_count = (bm.blocks b).ref_count - 1 }),
        ground arith,
        released-IsValid b rest (ground arith) (ground arith) e,
        ground arith,
        ground (arith, put_key_new b bm.free, v.free_count b, length-append bm.free (b ∷ [])),
      )
