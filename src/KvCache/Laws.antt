-- ===== src/KvCache/Laws.antt =====
-- What the operations of torch do to the rows of a tensor of `num_blocks` blocks of `bs` rows, where
-- their indices are in range.
use paged_llm.Base.{ℕ, ◌+◌, ◌*◌, ◌/◌, ◌%◌, ◌<◌, ◌≡◌, List, length, count, get_elem?, some, AllBelow}
use paged_llm.KvCache.{Tensors}

-- `row t s` is the row at slot `s` of the tensor.
pub record Laws {T Row : Type 0} (ops : Tensors T Row) (row : T → ℕ → Row) (num_blocks bs : ℕ)
    : Type 0 where
  -- `index_copy_` for distinct indices, at these and elsewhere.
  pub copied :
      (t : T) (slots : List ℕ) (rows : List Row) (i s : ℕ) (r : Row)
      → AllBelow (num_blocks * bs) slots
      → ((i j x : ℕ) → get_elem? slots i ≡ some x → get_elem? slots j ≡ some x → i ≡ j)
      → length rows ≡ length slots
      → get_elem? slots i ≡ some s
      → get_elem? rows i ≡ some r
      → row (ops.index_copy t slots rows) s ≡ r
  pub not_copied :
      (t : T) (slots : List ℕ) (rows : List Row) (s : ℕ)
      → AllBelow (num_blocks * bs) slots
      → length rows ≡ length slots
      → count s slots ≡ 0
      → row (ops.index_copy t slots rows) s ≡ row t s
  -- The blocks that are selected, one behind the other.
  pub selected_length :
      (t : T) (blocks : List ℕ)
      → AllBelow num_blocks blocks
      → length (ops.reshape (ops.select t blocks)) ≡ length blocks * bs
  pub selected :
      (t : T) (blocks : List ℕ) (p b : ℕ)
      → AllBelow num_blocks blocks
      → get_elem? blocks (p / bs) ≡ some b
      → get_elem? (ops.reshape (ops.select t blocks)) p ≡ some (row t (b * bs + p % bs))
  -- Selected blocks that are put at distinct indices, at these and elsewhere.
  pub moved :
      (t : T) (src dst : List ℕ) (i b d o : ℕ)
      → AllBelow num_blocks src
      → AllBelow num_blocks dst
      → ((i j x : ℕ) → get_elem? dst i ≡ some x → get_elem? dst j ≡ some x → i ≡ j)
      → length src ≡ length dst
      → get_elem? src i ≡ some b
      → get_elem? dst i ≡ some d
      → o < bs
      → row (ops.put t dst (ops.select t src)) (d * bs + o) ≡ row t (b * bs + o)
  pub not_moved :
      (t : T) (src dst : List ℕ) (b o : ℕ)
      → AllBelow num_blocks src
      → AllBelow num_blocks dst
      → length src ≡ length dst
      → count b dst ≡ 0
      → o < bs
      → row (ops.put t dst (ops.select t src)) (b * bs + o) ≡ row t (b * bs + o)
