-- ===== src/Runner/Layout.antt =====
-- pagedllm/engine.py: what the loop of `build_inputs` puts into its lists.
use paged_llm.Base.{
  ℕ, ◌+◌, ◌-◌, ◌<◌, ◌≡◌, refl, sym, List, [], ◌∷◌, ◌++◌, append_assoc, append-nil, some,
  if◌then◌else◌, map, concat_map, Bool, true, false, length, last?, last?-append, ap, ◌∙◌,
  length-append, get_elem?, get_elem?-append_right, ok, arith,
}
use paged_llm.BlockManager.PrefixCache.{slice}
use paged_llm.BlockManager.Sequences.{slot_mapping_total}
use paged_llm.Scheduler.{Scheduler, ScheduledSequence}
use paged_llm.KvCache.Parts.{Part, Placed}
use paged_llm.Attention.Segments.{IsBatch}
use paged_llm.Llama.Dense.{positions_of}
use paged_llm.Llama.Layer.{padded}
use paged_llm.Runner.{Batch, build_item, build_items, pad}
use paged_llm.Runner.Shapes.{Covered}

-- The part of an item: its sequence, with its new tokens.
abbrev pub part_for : Scheduler → ScheduledSequence → Part
part_for s i = record {
  seq = s.seqs i.seq;
  start = (s.seqs i.seq).num_computed_tokens;
  num = i.num_new_tokens;
}

abbrev pub parts : Scheduler → List ScheduledSequence → List Part
parts s = map (part_for s)

abbrev pub new_tokens : Part → List ℕ
new_tokens g = slice g.start (g.start + g.num) g.seq.token_ids

-- The offsets of the parts behind `off`.
abbrev pub ends : ℕ → List Part → List ℕ
ends off [] = []
ends off (g ∷ gs) = (off + g.num) ∷ ends (off + g.num) gs

-- The rows of the last tokens of the items that are sampled.
abbrev pub lasts : ℕ → List ScheduledSequence → List ℕ
lasts off [] = []
lasts off (i ∷ is) =
    if i.needs_sampling
    then (off + i.num_new_tokens - 1) ∷ lasts (off + i.num_new_tokens) is
    else lasts (off + i.num_new_tokens) is

module _ (s : Scheduler) where
  -- What the loop appends for some items.
  pub record Appended (b b' : Batch) (off : ℕ) (items : List ScheduledSequence) : Type 0 where
    pub input_ids : b'.input_ids ≡ b.input_ids ++ concat_map new_tokens (parts s items)
    pub positions : b'.positions ≡ b.positions ++ concat_map positions_of (parts s items)
    pub slots : List ℕ
    pub slots_behind : b'.slots ≡ b.slots ++ slots
    pub placed : Placed s.bm (parts s items) slots
    pub cu : b'.cu ≡ b.cu ++ ends off (parts s items)
    pub seq_lens : b'.seq_lens ≡ b.seq_lens ++ map (λ (g : Part). g.start + g.num) (parts s items)
    pub block_tables :
        b'.block_tables ≡ b.block_tables ++ map (λ (g : Part). g.seq.block_table) (parts s items)
    pub logits_idx : b'.logits_idx ≡ b.logits_idx ++ lasts off items

  Appended-nil : (b : Batch) (off : ℕ) → Appended b b off []
  Appended-nil b off = record {
    input_ids = sym (append-nil b.input_ids);
    positions = sym (append-nil b.positions);
    slots = [];
    slots_behind = sym (append-nil b.slots);
    placed = refl;
    cu = sym (append-nil b.cu);
    seq_lens = sym (append-nil b.seq_lens);
    block_tables = sym (append-nil b.block_tables);
    logits_idx = sym (append-nil b.logits_idx);
  }

  -- One more list in between.
  behind {ℓ} :
      {A : Type ℓ} {ys zs : List A} (xs a b : List A)
      → ys ≡ xs ++ a
      → zs ≡ ys ++ b
      → zs ≡ xs ++ (a ++ b)
  behind xs a b e f = f ∙ ap (λ q. q ++ b) e ∙ append_assoc xs a b

  one_more :
      (sampled : Bool) (xs : List ℕ) (x : ℕ) (ys : List ℕ)
      → (if sampled then xs ++ x ∷ [] else xs) ++ ys ≡ xs ++ (if sampled then x ∷ ys else ys)
  one_more true xs x ys = append_assoc xs (x ∷ []) ys
  one_more false xs x ys = refl

  pub build_items-Appended :
      (items : List ScheduledSequence) (b : Batch) (off : ℕ)
      → 0 < s.bm.block_size
      → last? b.cu ≡ some off
      → Covered s items
      → (b' : Batch) × (build_items s b items ≡ ok b') × Appended b b' off items
  unfolding build_items build_item
  build_items-Appended [] b off pos at c = (b, refl, Appended-nil b off)
  build_items-Appended (i ∷ is) b off pos at (within, covers, c) =
      let seq = s.seqs i.seq in
      let n = i.num_new_tokens in
      let start = seq.num_computed_tokens in
      let g = part_for s i in
      let (own, e, size, each) = slot_mapping_total s.bm seq start n pos covers in
      let b1 : Batch = record {
        input_ids = b.input_ids ++ new_tokens g;
        positions = b.positions ++ positions_of g;
        slots = b.slots ++ own;
        cu = b.cu ++ (off + n) ∷ [];
        seq_lens = b.seq_lens ++ (start + n) ∷ [];
        block_tables = b.block_tables ++ seq.block_table ∷ [];
        logits_idx = if i.needs_sampling then b.logits_idx ++ (off + n - 1) ∷ [] else b.logits_idx;
        params = if i.needs_sampling then b.params ++ seq.sampling_params ∷ [] else b.params;
      } in
      let (b2, e2, rest) =
        build_items-Appended is b1 (off + n) pos (last?-append b.cu (off + n)) c in
      (
        b2,
        rw (e, at) e2,
        record {
          input_ids = behind b.input_ids (new_tokens g) _ refl rest.input_ids;
          positions = behind b.positions (positions_of g) _ refl rest.positions;
          slots = own ++ rest.slots;
          slots_behind = behind b.slots own rest.slots refl rest.slots_behind;
          placed = (own, rest.slots, refl, size, each, rest.placed);
          cu = behind b.cu ((off + n) ∷ []) _ refl rest.cu;
          seq_lens = behind b.seq_lens ((start + n) ∷ []) _ refl rest.seq_lens;
          block_tables = behind b.block_tables (seq.block_table ∷ []) _ refl rest.block_tables;
          logits_idx =
              rest.logits_idx
              ∙ one_more i.needs_sampling b.logits_idx (off + n - 1) (lasts (off + n) is);
        },
      )

get_elem?-middle {ℓ} :
    {A : Type ℓ} (xs : List A) (y : A) (ys : List A) → get_elem? (xs ++ y ∷ ys) (length xs) ≡ some y
get_elem?-middle xs y ys =
    ap (get_elem? (xs ++ y ∷ ys)) (omega arith) ∙ get_elem?-append_right xs (y ∷ ys) 0

-- The lists of the parts, behind those of others, are a batch.
pub IsBatch-of_parts :
    (width : ℕ) (gs : List Part) (start : ℕ) (cu lens : List ℕ) (tables : List (List ℕ))
    → length lens ≡ length cu
    → length tables ≡ length cu
    → IsBatch
        (cu ++ start ∷ ends start gs)
        (lens ++ map (λ (g : Part). g.start + g.num) gs)
        (tables ++ map (λ (g : Part). pad width g.seq.block_table) gs)
        (length cu)
        start
        (map (padded width) gs)
IsBatch-of_parts width [] start cu lens tables same_lens same_tables = tt
IsBatch-of_parts width (g ∷ gs) start cu lens tables same_lens same_tables =
    let len = g.start + g.num in
    let row = pad width g.seq.block_table in
    let lens_behind = map (λ (p : Part). p.start + p.num) gs in
    let rows_behind = map (λ (p : Part). pad width p.seq.block_table) gs in
    let next = start + g.num in
    let cu1 = cu ++ start ∷ [] in
    let size : length cu1 ≡ length cu + 1 = length-append cu (start ∷ []) in
    let ih : IsBatch (cu1 ++ next ∷ ends next gs) ((lens ++ len ∷ []) ++ lens_behind)
        ((tables ++ row ∷ []) ++ rows_behind) (length cu1) next (map (padded width) gs) =
      IsBatch-of_parts width gs next cu1 (lens ++ len ∷ []) (tables ++ row ∷ [])
        (omega (arith, size, length-append lens (len ∷ []), same_lens))
        (omega (arith, size, length-append tables (row ∷ []), same_tables)) in
    let second : get_elem? (cu ++ start ∷ next ∷ ends next gs) (length cu + 1) ≡ some next =
      get_elem?-append_right cu (start ∷ next ∷ ends next gs) 1 in
    (
      get_elem?-middle cu start (ends start (g ∷ gs)),
      second,
      ap (get_elem? (lens ++ len ∷ lens_behind)) (sym same_lens)
          ∙ get_elem?-middle lens len lens_behind,
      ap (get_elem? (tables ++ row ∷ rows_behind)) (sym same_tables)
          ∙ get_elem?-middle tables row rows_behind,
      rw
          (
            append_assoc cu (start ∷ []) (next ∷ ends next gs),
            append_assoc lens (len ∷ []) lens_behind,
            append_assoc tables (row ∷ []) rows_behind,
            size,
          )
          at ih,
    )
