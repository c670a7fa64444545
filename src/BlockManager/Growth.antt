-- ===== src/BlockManager/Growth.antt =====
-- pagedllm/block_manager.py: `allocate_slots` and `free` on a pool where a block that is not cached is
-- not shared.
use paged_llm.Base.{
  ℕ, ◌+◌, ◌*◌, ◌/◌, ◌%◌, set, ◌≡◌, ◌≢◌, sym, subst, get_elem?, All, bind_inversion, ◌>>=◌, List, [],
  ◌∷◌, ◌++◌, reverse, Option, Option-cases, none, some, if◌then◌else◌, ltb, ◌==◌, ◌&&◌, not, length,
  Bool-cases, inl, inr, Result, ok, arith,
}
use paged_llm.Sequence.{Sequence}
use paged_llm.BlockManager.{
  BlockManager, KvBlock, CopyOnWrite, block, allocate_block, release, release_all, touch_all,
  allocate_all,
}
use paged_llm.BlockManager.Slots.{
  Allocation, roll_back, copy_block, copy_on_write, take_slots, allocate_slots, num_blocks_needed,
  count_unreferenced, free, drop_last,
}
use paged_llm.BlockManager.Private.{
  hash_of, Tame, Tame-refl, Tame-trans, Clean, Clean-mono, Clean-append, Clean-set, Indexed,
  release-Tame, release_all-Tame, touch_all-Tame, allocate_all-Tame, allocate_block-Tame,
}

-- What an allocation leaves: if no block of the old table has a hash from an index on, then none of
-- the new one.
abbrev pub Grown : BlockManager → BlockManager → List ℕ → Option (List ℕ) → Sequence → ℕ → Type 0
Grown bm bm' old new seq' from =
    Tame bm bm' × (new ≢ none → Clean bm old from → Clean bm' seq'.block_table from)

-- A call that returned one triple returned no other.
returned : (a b : Allocation) → ok a ≡ ok b → (a.0 ≡ b.0) × (a.1 ≡ b.1) × (a.2 ≡ b.2)
returned a b e = (cc, cc, cc)

pub free-Tame :
    (bm bm' : BlockManager) (seq seq' : Sequence) → free bm seq ≡ ok (seq', bm') → Tame bm bm'
unfolding free
free-Tame bm bm' seq seq' e =
    let (bm1, e1, e2) =
      bind_inversion (release_all bm (reverse seq.block_table))
        (λ q. ok (record seq { block_table = [] }, q)) (seq', bm') e in
    let same : bm1 ≡ bm' = cc in
    subst (Tame bm) same (release_all-Tame (reverse seq.block_table) bm bm1 e1)

roll_back-Grown :
    (bm bm' : BlockManager) (seq seq' : Sequence) (computed new : List ℕ) (r : Option (List ℕ))
    (from : ℕ)
    → roll_back bm seq computed new ≡ ok (r, seq', bm')
    → Grown bm bm' seq.block_table r seq' from
unfolding roll_back
roll_back-Grown bm bm' seq seq' computed new r from e =
    let seq1 = drop_last seq (length new) in
    let (bm1, e1, e2) =
      bind_inversion (release_all bm new)
        (λ q. release_all q computed >>= (λ p. ok (none, drop_last seq1 (length computed), p)))
        (r, seq', bm') e in
    let (bm2, e3, e4) =
      bind_inversion (release_all bm1 computed)
        (λ p. ok (none, drop_last seq1 (length computed), p)) (r, seq', bm') e2 in
    let (nothing, back, same) = returned _ _ e4 in
    (
      subst (Tame bm) same
          (Tame-trans (release_all-Tame new bm bm1 e1) (release_all-Tame computed bm1 bm2 e3)),
      λ something. absurd (something (sym nothing)),
    )

copy_block-Grown :
    (bm bm' : BlockManager) (seq seq' : Sequence) (idx x : ℕ) (shared : KvBlock) (new : List ℕ)
    (r : Option (List ℕ)) (from : ℕ)
    → Indexed bm
    → get_elem? seq.block_table idx ≡ some x
    → copy_block bm seq idx shared new ≡ ok (r, seq', bm')
    → Grown bm bm' seq.block_table r seq' from
unfolding copy_block
copy_block-Grown bm bm' seq seq' idx x shared new r from ids at_idx e =
    let ((k, bm1), e1, e2) =
      bind_inversion (allocate_block bm)
        (λ (k, bm1).
          let copy : CopyOnWrite = record { src_block = shared.block_id; dst_block = k.block_id } in
          release (record bm1 { pending_cow = bm1.pending_cow ++ copy ∷ [] }) shared.block_id
          >>= (λ q. ok (
            some (new ++ k.block_id ∷ []),
            record seq { block_table = set seq.block_table idx k.block_id },
            q,
          )))
        (r, seq', bm') e in
    let copy : CopyOnWrite = record { src_block = shared.block_id; dst_block = k.block_id } in
    let (bm2, e3, e4) =
      bind_inversion
        (release (record bm1 { pending_cow = bm1.pending_cow ++ copy ∷ [] }) shared.block_id)
        (λ q. ok (
          some (new ++ k.block_id ∷ []),
          record seq { block_table = set seq.block_table idx k.block_id },
          q,
        ))
        (r, seq', bm') e2 in
    let (some_new, grown, same) = returned _ _ e4 in
    let (tame1, ids1, fresh) = allocate_block-Tame bm bm1 k ids e1 in
    let step =
      release-Tame (record bm1 { pending_cow = bm1.pending_cow ++ copy ∷ [] }) bm2 shared.block_id
        e3 in
    let tame2 : Tame bm1 bm2 = record { single = step.single; unhashed = step.unhashed } in
    let tame = Tame-trans tame1 tame2 in
    subst (λ q. Grown bm q seq.block_table r seq' from) same
      (
        tame,
        λ something clean.
            subst (λ (q : Sequence). Clean bm2 q.block_table from) grown
              (Clean-set bm2 seq.block_table from idx k.block_id x
                (Clean-mono seq.block_table from tame clean) at_idx
                (tame2.unhashed k.block_id fresh)),
      )

abbrev result : Option (List ℕ) → Sequence → BlockManager → Result Allocation
result r seq bm = ok (r, seq, bm)

unchanged-Grown :
    (bm bm' : BlockManager) (seq seq' : Sequence) (new r : Option (List ℕ)) (from : ℕ)
    → result new seq bm ≡ result r seq' bm'
    → Grown bm bm' seq.block_table r seq' from
unchanged-Grown bm bm' seq seq' new r from e =
    let (some_new, same_seq, same) = returned (new, seq, bm) (r, seq', bm') e in
    subst (λ q. Grown bm q seq.block_table r seq' from) same
      (
        Tame-refl bm,
        λ something clean. subst (λ (q : Sequence). Clean bm q.block_table from) same_seq clean,
      )

copy_on_write-Grown :
    (bm bm' : BlockManager) (seq seq' : Sequence) (num_new first_write : ℕ) (computed new : List ℕ)
    (r : Option (List ℕ)) (from : ℕ)
    → Indexed bm
    → copy_on_write bm seq num_new first_write computed new ≡ ok (r, seq', bm')
    → Grown bm bm' seq.block_table r seq' from
unfolding copy_on_write block
copy_on_write-Grown bm bm' seq seq' num_new first_write computed new r from ids e =
    let idx = first_write / bm.block_size in
    let size = length seq.block_table in
    elim (Bool-cases (ltb 0 num_new && ltb idx size && ltb (idx + length new) size)) [
      | inr idle ↦ unchanged-Grown bm bm' seq seq' (some new) r from (rw idle at e)
      | inl writes ↦ elim (Option-cases (get_elem? seq.block_table idx)) [
        | inl missing ↦ absurd (ground (arith, rw (writes, missing) at e))
        | inr (x, at_idx) ↦ elim (Bool-cases (ltb x bm.num_blocks)) [
          | inr unknown ↦ absurd (ground (arith, rw (writes, at_idx, unknown) at e))
          | inl known ↦
              elim (Bool-cases
                (ltb 1 (bm.blocks x).ref_count && not (first_write % bm.block_size == 0))) [
                  | inr alone ↦
                      unchanged-Grown bm bm' seq seq' (some new) r from
                        (rw (writes, at_idx, known, alone) at e)
                  | inl shared ↦ elim (Bool-cases (length bm.free == 0)) [
                    | inl full ↦
                        roll_back-Grown bm bm' seq seq' computed new r from
                          (rw (writes, at_idx, known, shared, full) at e)
                    | inr room ↦
                        copy_block-Grown bm bm' seq seq' idx x (bm.blocks x) new r from ids at_idx
                          (rw (writes, at_idx, known, shared, room) at e)
                  ]
                ]
        ]
      ]
    ]

take_slots-Grown :
    (bm bm' : BlockManager) (seq seq' : Sequence) (num_new need : ℕ) (computed : List ℕ)
    (r : Option (List ℕ)) (from : ℕ)
    → Indexed bm
    → All (λ b. hash_of bm b ≢ none) computed
    → take_slots bm seq num_new computed need ≡ ok (r, seq', bm')
    → Grown bm bm' (seq.block_table ++ computed) r seq' from
unfolding take_slots
take_slots-Grown bm bm' seq seq' num_new need computed r from ids hashed e =
    let first_write = seq.num_computed_tokens + length computed * bm.block_size in
    let with_new : List ℕ → Sequence =
      λ new. record seq { block_table = (seq.block_table ++ computed) ++ new } in
    let (bm1, e1, e2) =
      bind_inversion (touch_all bm computed)
        (λ q.
          allocate_all q need
          >>= (λ (new, p). copy_on_write p (with_new new) num_new first_write computed new))
        (r, seq', bm') e in
    let ((new, bm2), e3, e4) =
      bind_inversion (allocate_all bm1 need)
        (λ (new, p). copy_on_write p (with_new new) num_new first_write computed new) (r, seq', bm')
        e2 in
    let (tame1, ids1, same1) = touch_all-Tame computed bm bm1 ids hashed e1 in
    let (tame2, ids2, fresh) = allocate_all-Tame need bm1 bm2 new ids1 e3 in
    let (tame3, grows) =
      copy_on_write-Grown bm2 bm' (with_new new) seq' num_new first_write computed new r from ids2
        e4 in
    (
      Tame-trans tame1 (Tame-trans tame2 tame3),
      λ something clean. grows something (
          Clean-append bm2 (seq.block_table ++ computed) new from
            (Clean-mono (seq.block_table ++ computed) from (Tame-trans tame1 tame2) clean) fresh),
    )

pub allocate_slots-Grown :
    (bm bm' : BlockManager) (seq seq' : Sequence) (num_new : ℕ) (computed : List ℕ)
    (r : Option (List ℕ)) (from : ℕ)
    → Indexed bm
    → All (λ b. hash_of bm b ≢ none) computed
    → allocate_slots bm seq num_new computed ≡ ok (r, seq', bm')
    → Grown bm bm' (seq.block_table ++ computed) r seq' from
unfolding allocate_slots
allocate_slots-Grown bm bm' seq seq' num_new computed r from ids hashed e =
    let need = num_blocks_needed bm seq num_new (length computed * bm.block_size) in
    let (unreferenced, e1, e2) =
      bind_inversion (count_unreferenced bm computed)
        (λ u.
          if ltb (length bm.free) (need + u)
          then result none seq bm
          else take_slots bm seq num_new computed need)
        (r, seq', bm') e in
    elim (Bool-cases (ltb (length bm.free) (need + unreferenced))) [
      | inl short ↦
          let (nothing, same_seq, same) =
            returned (none, seq, bm) (r, seq', bm') (rw short at e2) in
          (subst (Tame bm) same (Tame-refl bm), λ something. absurd (something (sym nothing)))
      | inr enough ↦
          take_slots-Grown bm bm' seq seq' num_new need computed r from ids hashed (rw enough at e2)
    ]
