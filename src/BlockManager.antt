-- ===== src/BlockManager.antt =====
-- pagedllm/block_manager.py: the state of the block manager and its pool operations.
-- `blocks` is the list of the `num_blocks` block objects, as a function of the index; an index
-- out of range raises. `free` holds the keys of the ordered dictionary `_free`, the least recently
-- freed first. Block sizes are positive: with 0 every `//` of the program raises.
pub mod Slots
pub mod PrefixCache
pub mod Invariant
pub mod Pool
pub mod Reuse
pub mod Loops
pub mod Copies
pub mod Allocation
pub mod Grants
pub mod Availability
pub mod Sequences
pub mod Disjoint
pub mod Sharing
pub mod Conservation
pub mod Caching
pub mod Chain
pub mod Labels
pub mod Private
pub mod Growth
pub mod Hashed
pub mod Hits
use paged_llm.Base.{
  ℕ, zero, suc, ◌+◌, ◌-◌, ◌/◌, List, [], ◌∷◌, Bool, true, false, Option, none, some, if◌then◌else◌,
  ltb, ◌==◌, length, Dict, remove, put_key, lookup, delete, Result, ok, raise, key_error,
  index_error, assertion_error, value_error, guard, ◌>>=◌, ◌>>◌,
}
use paged_llm.Sequence.{Sequence}

pub record KvBlock : Type 0 where
  pub block_id : ℕ
  pub ref_count : ℕ
  pub block_hash : Option ℕ

-- A physical copy that the model runner performs before the next forward.
pub record CopyOnWrite : Type 0 where
  pub src_block : ℕ
  pub dst_block : ℕ

pub record BlockManager : Type 0 where
  pub num_blocks : ℕ
  pub block_size : ℕ
  pub enable_prefix_caching : Bool
  pub blocks : ℕ → KvBlock
  pub free : List ℕ
  pub cached : Dict
  pub pending_cow : List CopyOnWrite
  pub num_cache_queries : ℕ
  pub num_cache_hits : ℕ

-- `i, i + 1, …`, `n` numbers.
unfoldable pub range_from : ℕ → ℕ → List ℕ
range_from i zero = []
range_from i (suc n) = i ∷ range_from (i + 1) n

-- What the constructor builds.
abbrev pub initial : ℕ → ℕ → Bool → BlockManager
unfolding range_from
initial num_blocks block_size enable = record {
  num_blocks = num_blocks;
  block_size = block_size;
  enable_prefix_caching = enable;
  blocks = λ i. record { block_id = i; ref_count = 0; block_hash = none };
  free = range_from 0 num_blocks;
  cached = [];
  pending_cow = [];
  num_cache_queries = 0;
  num_cache_hits = 0;
}

unfoldable pub init : ℕ → ℕ → Bool → Result BlockManager
unfolding range_from
init num_blocks block_size enable =
    if num_blocks == 0 then raise value_error else ok (initial num_blocks block_size enable)

abbrev pub num_free_blocks : BlockManager → ℕ
num_free_blocks bm = length bm.free

abbrev pub num_cached_blocks : BlockManager → ℕ
num_cached_blocks bm = length bm.cached

abbrev pub num_blocks_for_tokens : ℕ → ℕ → ℕ
num_blocks_for_tokens num_tokens block_size = (num_tokens + block_size - 1) / block_size

-- `self.blocks[b]`
unfoldable pub block : BlockManager → ℕ → Result KvBlock
block bm b = if ltb b bm.num_blocks then ok (bm.blocks b) else raise index_error

-- The object at index `b`, mutated in place.
abbrev pub update : (ℕ → KvBlock) → ℕ → KvBlock → ℕ → KvBlock
update blocks b k c = if b == c then k else blocks c

-- Drops the cache entry of a block that is about to be reused.
unfoldable pub evict : Option ℕ → ℕ → Dict → Dict
evict none id cached = cached
evict (some h) id cached = elim (lookup h cached) [
  | none ↦ cached
  | some b ↦ if b == id then delete h cached else cached
]

unfoldable pub allocate_block : BlockManager → Result (KvBlock × BlockManager)
unfolding block evict
allocate_block bm = elim bm.free [
  | [] ↦ raise key_error
  | id ∷ rest ↦ do
    k ← block bm id
    guard (k.ref_count == 0) assertion_error
    let k' : KvBlock = record k { ref_count = 1; block_hash = none }
    ok (
      k',
      record bm {
        free = rest;
        cached = evict k.block_hash id bm.cached;
        blocks = update bm.blocks id k';
      },
    )
]

unfoldable pub touch : BlockManager → ℕ → Result BlockManager
unfolding block
touch bm b = do
  k ← block bm b
  free ← if k.ref_count == 0 then remove key_error b bm.free else ok bm.free
  ok (record bm {
    free = free;
    blocks = update bm.blocks b (record k { ref_count = k.ref_count + 1 });
  })

-- The end of `_release`: the count is down to `k.ref_count`.
unfoldable pub released : BlockManager → ℕ → KvBlock → BlockManager
released bm b k =
    if k.ref_count == 0
    then record bm {
      blocks =
          update bm.blocks b
            (if bm.enable_prefix_caching then k else record k { block_hash = none });
      free = put_key b bm.free;
    }
    else record bm { blocks = update bm.blocks b k }

unfoldable pub release : BlockManager → ℕ → Result BlockManager
unfolding block released
release bm b = do
  k ← block bm b
  guard (ltb 0 k.ref_count) assertion_error
  ok (released bm b (record k { ref_count = k.ref_count - 1 }))

-- The loops `for b in bs: self._touch(b)` and `for b in bs: self._release(b)`.
unfoldable pub touch_all : BlockManager → List ℕ → Result BlockManager
unfolding touch
touch_all bm [] = ok bm
touch_all bm (b ∷ bs) = do bm' ← touch bm b; touch_all bm' bs

unfoldable pub release_all : BlockManager → List ℕ → Result BlockManager
unfolding release
release_all bm [] = ok bm
release_all bm (b ∷ bs) = do bm' ← release bm b; release_all bm' bs

-- `[self._allocate_block().block_id for _ in range(n)]`
unfoldable pub allocate_all : BlockManager → ℕ → Result (List ℕ × BlockManager)
unfolding allocate_block
allocate_all bm zero = ok ([], bm)
allocate_all bm (suc n) = do
  (k, bm1) ← allocate_block bm
  (ids, bm2) ← allocate_all bm1 n
  ok (k.block_id ∷ ids, bm2)
