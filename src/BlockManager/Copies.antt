-- ===== src/BlockManager/Copies.antt =====
-- pagedllm/block_manager.py: the copy-on-write part of `allocate_slots`.
use paged_llm.Base.{
  ℕ, ◌+◌, ◌-◌, ◌/◌, ◌%◌, ◌<◌, ◌≤◌, ◌≡◌, refl, List, [], ◌∷◌, ◌++◌, length, count, set, get_elem?,
  count-append, count-set, ok, arith, some, none, take_append_length, count-get_elem?, sym, ◌∙◌,
  ◌≢◌, get_elem?-append_right, get_elem?-append_left, get_elem?_bound, get_elem?-set_self,
  get_elem?-set_ne, length-set,
}
use paged_llm.Sequence.{Sequence}
use paged_llm.BlockManager.{BlockManager, CopyOnWrite}
use paged_llm.BlockManager.Slots.{roll_back, copy_block}
use paged_llm.BlockManager.Invariant.{
  IsValid, SameShape, SameCount, refs, SameShape-refl, SameShape-trans, IsValid-of_SameCount,
}
use paged_llm.BlockManager.Pool.{release_lem, allocate_block_lem}
use paged_llm.BlockManager.Loops.{release_all_lem, Fresh}

-- The queue of copies plays no part in the accounting.
pub IsValid-pending :
    {bm : BlockManager} {held : List ℕ} (ops : List CopyOnWrite)
    → IsValid bm held
    → IsValid (record bm { pending_cow = ops }) held
IsValid-pending ops v = record {
  size_pos = v.size_pos;
  ids = v.ids;
  free_count = v.free_count;
  held_count = v.held_count;
  cached_of_hash = v.cached_of_hash;
  hash_of_cached = v.hash_of_cached;
  disabled = v.disabled;
}

-- The rollback gives back all that the call took: the sequence is as it was.
pub roll_back_lem :
    (seq : Sequence) (computed new rest : List ℕ) {bm : BlockManager} {held : List ℕ}
    → IsValid bm held
    → SameCount held (((seq.block_table ++ computed) ++ new) ++ rest)
    → (bm' : BlockManager) × (roll_back bm
          (record seq { block_table = (seq.block_table ++ computed) ++ new })
          computed
          new
        ≡ ok (none, seq, bm'))
      × IsValid bm' (seq.block_table ++ rest)
      × SameShape bm bm'
unfolding roll_back
roll_back_lem seq computed new rest v e =
    let t = seq.block_table in
    let (bm1, e1, v1, s1, f1) = release_all_lem new ((t ++ computed) ++ rest) v (λ c. omega (
      arith,
      e c,
      count-append c ((t ++ computed) ++ new) rest,
      count-append c (t ++ computed) new,
      count-append c new ((t ++ computed) ++ rest),
      count-append c (t ++ computed) rest,
    )) in
    let (bm2, e2, v2, s2, f2) = release_all_lem computed (t ++ rest) v1 (λ c. omega (
      arith,
      count-append c (t ++ computed) rest,
      count-append c t computed,
      count-append c computed (t ++ rest),
      count-append c t rest,
    )) in
    (
      bm2,
      rw (e1, take_append_length (t ++ computed) new, e2, take_append_length t computed),
      v2,
      SameShape-trans s1 s2,
    )

-- The copy takes the place of the shared block in this sequence's table only.
pub copy_block_lem :
    (seq : Sequence) (idx b : ℕ) (new rest : List ℕ) {bm : BlockManager} {held : List ℕ}
    → IsValid bm held
    → SameCount held (seq.block_table ++ rest)
    → get_elem? seq.block_table idx ≡ some b
    → 0 < length bm.free
    → (f : ℕ) × (bm' : BlockManager) × (copy_block bm seq idx (bm.blocks b) new
        ≡ ok (some (new ++ f ∷ []), record seq { block_table = set seq.block_table idx f }, bm'))
      × IsValid bm' (set seq.block_table idx f ++ rest)
      × SameShape bm bm'
      × (count f held ≡ 0)
unfolding copy_block
copy_block_lem seq idx b new rest {bm} {held} v e at_idx room =
    let t = seq.block_table in
    let (k, bm1, e1, v1, s1, f1, unheld) = allocate_block_lem v room in
    let f = k.block_id in
    let here : 0 < count b held =
      omega (arith, count-get_elem? t idx b at_idx, e b, count-append b t rest) in
    let id : (bm.blocks b).block_id ≡ b = v.ids b (ground (arith, v.held_count b)) in
    let copy : CopyOnWrite = record { src_block = (bm.blocks b).block_id; dst_block = f } in
    let (bm2, e2, v2, s2, f2) =
      release_lem (IsValid-pending (bm1.pending_cow ++ copy ∷ []) v1) (bm.blocks b).block_id
        (set t idx f ++ rest)
        (λ c. ground (
          arith,
          e c,
          id,
          count-append c t rest,
          count-append c (set t idx f) rest,
          count-set c t idx b f at_idx,
        )) in
    (
      f,
      bm2,
      rw (e1, e2),
      v2,
      SameShape-trans s1 (record {
        same_blocks = s2.same_blocks;
        same_size = s2.same_size;
        same_caching = s2.same_caching;
      }),
      unheld,
    )

-- A block of the new part of a table is referenced once.
new_alone :
    (old new rest : List ℕ) (i b : ℕ)
    → Fresh new (old ++ rest)
    → length old ≤ i
    → get_elem? (old ++ new) i ≡ some b
    → (count b ((old ++ new) ++ rest) ≡ 1) × (count b old ≡ 0)
new_alone old new rest i b fresh h e =
    let j = i - length old in
    let e' : i ≡ length old + j = omega arith in
    let here : get_elem? new j ≡ some b = sym (get_elem?-append_right old new j) ∙ rw (← e') e in
    let (once, apart) = fresh b (count-get_elem? new j b here) in
    let counts = count-append b (old ++ new) rest in
    let counts' = count-append b old new in
    let counts'' = count-append b old rest in (omega arith, omega arith)

-- What the copy-on-write part leaves when it goes through: `table` is the new block table.
pub record Settled (bm bm' : BlockManager) (old new rest table : List ℕ) (num_new first_write : ℕ)
    : Type 0 where
  pub valid : IsValid bm' (table ++ rest)
  pub shape : SameShape bm bm'
  pub size : length table ≡ length (old ++ new)
  pub kept :
      (i : ℕ) → i ≢ first_write / bm.block_size → get_elem? table i ≡ get_elem? (old ++ new) i
  pub new_once :
      (i b : ℕ) → length old ≤ i → get_elem? table i ≡ some b → count b (table ++ rest) ≡ 1
  pub written_once :
      (b : ℕ)
      → 0 < num_new
      → first_write / bm.block_size < length old
      → first_write % bm.block_size ≢ 0
      → get_elem? table (first_write / bm.block_size) ≡ some b
      → count b (table ++ rest) ≡ 1

module _ (seq : Sequence) (num_new first_write : ℕ) (computed new rest : List ℕ) {bm : BlockManager}
    {held : List ℕ} (v : IsValid bm held)
    (e : SameCount held (((seq.block_table ++ computed) ++ new) ++ rest))
    (fresh : Fresh new ((seq.block_table ++ computed) ++ rest)) where
  abbrev pub old : List ℕ
  old = seq.block_table ++ computed

  -- No copy is made where the block to write has one reference, or none is partly written.
  pub Settled-unchanged :
      ((b : ℕ)
        → 0 < num_new
        → first_write / bm.block_size < length old
        → first_write % bm.block_size ≢ 0
        → get_elem? (old ++ new) (first_write / bm.block_size) ≡ some b
        → refs bm b ≤ 1)
      → Settled bm bm old new rest (old ++ new) num_new first_write
  Settled-unchanged alone = record {
    valid = IsValid-of_SameCount v e;
    shape = SameShape-refl bm;
    size = refl;
    kept = λ i h. refl;
    new_once = λ i b h at_i. (new_alone old new rest i b fresh h at_i).0;
    written_once = λ b h1 h2 h3 at_idx. omega (
      arith,
      alone b h1 h2 h3 at_idx,
      v.held_count b,
      e b,
      count-get_elem? (old ++ new) (first_write / bm.block_size) b at_idx,
      count-append b (old ++ new) rest,
    );
  }

  -- A copy puts a block of one reference where the shared one stood.
  pub Settled-copied :
      (bm' : BlockManager) (x f : ℕ)
      → first_write / bm.block_size < length old
      → get_elem? (old ++ new) (first_write / bm.block_size) ≡ some x
      → count f held ≡ 0
      → SameShape bm bm'
      → IsValid bm' (set (old ++ new) (first_write / bm.block_size) f ++ rest)
      → Settled bm bm' old new rest
          (set (old ++ new) (first_write / bm.block_size) f)
          num_new
          first_write
  Settled-copied bm' x f lt at_idx unheld s v' =
      let idx = first_write / bm.block_size in
      let all = old ++ new in
      let x_held : 0 < count x held =
        omega (arith, e x, count-append x all rest, count-get_elem? all idx x at_idx) in
      let x_old : 0 < count x old =
        count-get_elem? old idx x (sym (get_elem?-append_left old new idx lt) ∙ at_idx) in
      record {
        valid = v';
        shape = s;
        size = length-set all idx f;
        kept = λ i h. get_elem?-set_ne all idx i f (λ p. h (sym p));
        new_once = λ i b h at_i.
            let at_i' : get_elem? all i ≡ some b =
              sym (get_elem?-set_ne all idx i f (omega arith)) ∙ at_i in
            let (once, apart) = new_alone old new rest i b fresh h at_i' in
            ground (
              arith,
              once,
              apart,
              x_old,
              unheld,
              e b,
              count-append b all rest,
              count-append b (set all idx f) rest,
              count-set b all idx x f at_idx,
            );
        written_once = λ b h1 h2 h3 at_b.
            let is_f : some f ≡ some b =
              sym (get_elem?-set_self all idx f (get_elem?_bound all idx at_idx)) ∙ at_b in
            ground (
              arith,
              is_f,
              x_held,
              unheld,
              e b,
              count-append b all rest,
              count-append b (set all idx f) rest,
              count-set b all idx x f at_idx,
            );
      }
