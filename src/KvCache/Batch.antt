-- ===== src/KvCache/Batch.antt =====
-- pagedllm/kv_cache.py: what one write for all sequences of a batch leaves for each of them.
use paged_llm.Base.{
  ℕ, suc, ◌+◌, ◌*◌, ◌/◌, ◌%◌, ◌<◌, ◌≤◌, ◌≡◌, inl, inr, refl, sym, ap, ◌∙◌, List, [], ◌∷◌, ◌++◌,
  append_assoc, append-nil, map, concat_map, length, length-append, get_elem?,
  get_elem?-append_left, get_elem?-append_right, count, count-append, count-get_elem?,
  AllBelow-of_count, mul_mono, some, Bool-cases, ◌==◌, slot_injective, arith,
}
use paged_llm.BlockManager.{BlockManager}
use paged_llm.BlockManager.Sequences.{SlotAt}
use paged_llm.BlockManager.Disjoint.{count_unique, same_position}
use paged_llm.KvCache.{Tensors, gather}
use paged_llm.KvCache.Laws.{Laws}
use paged_llm.KvCache.Windows.{IsWrite, Window, gather-Window}
use paged_llm.KvCache.Parts.{Part, tables_of, IsOwner, AllOwn, Placed, hit, own_hit, once}

module _ {T Row : Type 0} (ops : Tensors T Row) (row : T → ℕ → Row) (bm : BlockManager)
    (laws : Laws ops row bm.num_blocks bm.block_size) (all : List ℕ) (pos : 0 < bm.block_size) where
  abbrev bs : ℕ
  bs = bm.block_size

  -- The sequences of a batch are given as a list of any type, with the part of each and its rows.
  module _ {A : Type 0} (part : A → Part) (mine : A → List Row) where
    abbrev pub Sized : List A → Type 0
    Sized [] = Unit {0}
    Sized (a ∷ xs) = (length (mine a) ≡ (part a).num) × Sized xs

    -- Each sequence reads what it read before and behind it its own rows.
    abbrev pub ReadsOwn : T → T → List A → Type 0
    ReadsOwn t t' [] = Unit {0}
    ReadsOwn t t' (a ∷ xs) =
        (gather ops bs t' (part a).seq.block_table ((part a).start + (part a).num)
          ≡ gather ops bs t (part a).seq.block_table (part a).start ++ mine a)
        × ReadsOwn t t' xs

    length-rows :
        (xs : List A) (slots : List ℕ)
        → Placed bm (map part xs) slots
        → Sized xs
        → length (concat_map mine xs) ≡ length slots
    length-rows [] slots placed sized = sym (ap length placed)
    length-rows (a ∷ xs) slots (own, rest, split, size, each, placed) (sized, others) = omega (
      arith,
      ap length split,
      length-append own rest,
      length-append (mine a) (concat_map mine xs),
      length-rows xs rest placed others,
      size,
      sized,
    )

    -- No slot of a block of the table is among the slots of other sequences.
    free_of_others :
        (gs : List Part) (rest : List ℕ) (b o : ℕ)
        → AllOwn bm all gs
        → Placed bm gs rest
        → o < bs
        → count b (tables_of gs) < count b all
        → count (b * bs + o) rest ≡ 0
    free_of_others gs rest b o owners placed lt more =
        elim (Bool-cases (count (b * bs + o) rest == 0)) [
          | inl none_of ↦ ground (arith, none_of)
          | inr some_of ↦
              let (c, o', slot, lt', once_c, held, _) =
                hit bm all pos gs rest (b * bs + o) owners placed (ground (arith, some_of)) in
              let (same, _) = slot_injective b c o o' bs lt lt' slot in
              let held' : 0 < count b (tables_of gs) = rw same held in
              let once_b : count b all ≡ 1 = rw same once_c in
              absurd (omega (arith, held', once_b, more))
        ]

    -- Nor is the slot of an earlier position among those of the sequence itself.
    free_of_own :
        (g : Part) (own : List ℕ) (p b : ℕ)
        → IsOwner bm all g
        → length own ≡ g.num
        → ((i : ℕ) → i < g.num → SlotAt bm g.seq own g.start i)
        → ((c : ℕ) → count c g.seq.block_table ≤ count c all)
        → p < g.start
        → get_elem? g.seq.block_table (p / bs) ≡ some b
        → count (b * bs + p % bs) own ≡ 0
    free_of_own g own p b owner size each less early at_p =
        elim (Bool-cases (count (b * bs + p % bs) own == 0)) [
          | inl none_of ↦ ground (arith, none_of)
          | inr some_of ↦
              let (i, c, lt, at_c, slot, once_c) =
                own_hit bm all pos g own (b * bs + p % bs) owner size each
                  (ground (arith, some_of)) in
              let (same_block, same_offset) =
                slot_injective b c (p % bs) ((g.start + i) % bs) bs (omega arith) (omega arith)
                  slot in
              let same_index : p / bs ≡ (g.start + i) / bs =
                count_unique g.seq.block_table _ _ c (at_p ∙ ap some same_block) at_c
                  (omega (arith, less c, once_c)) in
              absurd
                (omega (arith, early, same_position p (g.start + i) bs pos same_index same_offset))
        ]

    module _ (t : T) (slots : List ℕ) (rows : List Row)
        (whole : IsWrite ops row bm laws all pos slots rows) where
      -- `s0` and `r0` are the slots and rows of the sequences in front.
      reads_from :
          (xs : List A) (s0 s1 : List ℕ) (r0 : List Row)
          → AllOwn bm all (map part xs)
          → Placed bm (map part xs) s1
          → Sized xs
          → slots ≡ s0 ++ s1
          → rows ≡ r0 ++ concat_map mine xs
          → length r0 ≡ length s0
          → ((b : ℕ) → count b (tables_of (map part xs)) ≤ count b all)
          → ((b o : ℕ) → o < bs → 0 < count b (tables_of (map part xs)) → count (b * bs + o) s0 ≡ 0)
          → ReadsOwn t (ops.index_copy t slots rows) xs
      reads_from [] s0 s1 r0 owners placed sized es er size less free = tt
      reads_from (a ∷ xs) s0 s1 r0 (owner, owners) (own, rest, split, own_size, each, placed)
            (sized, others) es er size less free =
          let g = part a in
          let table = g.seq.block_table in
          let behind = tables_of (map part xs) in
          let both : (b : ℕ) → count b table + count b behind ≤ count b all =
            λ b. omega (arith, less b, count-append b table behind) in
          let parts : slots ≡ s0 ++ (own ++ rest) = es ∙ ap (λ q. s0 ++ q) split in
          let window : Window ops row bm laws all pos slots rows g (mine a) (length s0) = record {
            owner = owner;
            mine_size = sized;
            slot = λ k lt.
                let (b, at_b, at_k) = each k lt in
                (
                  b,
                  at_b,
                  ap (λ q. get_elem? q (length s0 + k)) parts
                      ∙ get_elem?-append_right s0 (own ++ rest) k
                      ∙ get_elem?-append_left own rest k (omega (arith, lt, own_size))
                      ∙ at_k,
                );
            value = λ k lt.
                ap (λ q. get_elem? q (length s0 + k)) er
                ∙ ap (λ m. get_elem? (r0 ++ (mine a ++ concat_map mine xs)) (m + k)) (sym size)
                ∙ get_elem?-append_right r0 (mine a ++ concat_map mine xs) k
                ∙ get_elem?-append_left (mine a) (concat_map mine xs) k (omega (arith, lt, sized));
            early = λ p b lt at_p.
                let held : 0 < count b table = count-get_elem? table _ b at_p in
                let x = b * bs + p % bs in
                omega (
                  arith,
                  ap (count x) parts,
                  count-append x s0 (own ++ rest),
                  count-append x own rest,
                  free b (p % bs) (omega arith) (omega (arith, held, count-append b table behind)),
                  free_of_own g own p b owner own_size each (λ c. omega (arith, both c)) lt at_p,
                  free_of_others (map part xs) rest b (p % bs) owners placed (omega arith)
                      (omega (arith, both b, held)),
                );
          } in
          (
            gather-Window ops row bm laws all pos t slots rows whole g (mine a) (length s0) window,
            reads_from xs (s0 ++ own) rest (r0 ++ mine a) owners placed others
                (parts ∙ sym (append_assoc s0 own rest))
                (er ∙ sym (append_assoc r0 (mine a) (concat_map mine xs)))
                (omega
                  (arith, length-append s0 own, length-append r0 (mine a), size, own_size, sized))
                (λ b. omega (arith, both b))
                (λ b o lt held. omega (
                  arith,
                  count-append (b * bs + o) s0 own,
                  free b o lt (omega (arith, held, count-append b table behind)),
                  clear g own owner own_size each b o lt (omega (arith, both b, held)),
                )),
          )
        where
          clear :
              (g : Part) (own : List ℕ)
              → IsOwner bm all g
              → length own ≡ g.num
              → ((i : ℕ) → i < g.num → SlotAt bm g.seq own g.start i)
              → (b o : ℕ) → o < bs
              → count b g.seq.block_table < count b all
              → count (b * bs + o) own ≡ 0
          clear g own owner own_size each b o lt more =
              free_of_others (g ∷ []) own b o (owner, tt)
                (own, [], sym (append-nil own), own_size, each, refl) lt
                (omega (arith, count-append b g.seq.block_table [], more))

    -- One write for all sequences, each of which owns the blocks that it writes.
    pub reads_own :
        (xs : List A) (slots : List ℕ) (t : T)
        → AllOwn bm all (map part xs)
        → Placed bm (map part xs) slots
        → Sized xs
        → ((b : ℕ) → count b (tables_of (map part xs)) ≤ count b all)
        → ReadsOwn t (ops.index_copy t slots (concat_map mine xs)) xs
    reads_own xs slots t owners placed sized less =
        let whole : IsWrite ops row bm laws all pos slots (concat_map mine xs) = record {
          in_range = AllBelow-of_count (bm.num_blocks * bs) slots (λ x here.
              let (b, o, slot, lt, _, _, below) =
                hit bm all pos (map part xs) slots x owners placed here in
              let room : suc b * bs ≤ bm.num_blocks * bs =
                mul_mono (suc b) bm.num_blocks bs (omega (arith, below)) in
              omega (arith, slot, lt, room));
          distinct = λ i j x p q.
              count_unique slots i j x p q
                (once bm all pos (map part xs) slots owners placed less x);
          size = length-rows xs slots placed sized;
        } in
        reads_from t slots (concat_map mine xs) whole xs [] slots [] owners placed sized refl refl
          refl less (λ b o lt held. refl)
