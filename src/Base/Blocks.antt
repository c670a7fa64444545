-- ===== src/Base/Blocks.antt =====
-- Token positions in blocks of a given size.
use Prim.Native.Nat.{ℕ, ◌+◌, ◌-◌, ◌*◌, ◌/◌, ◌%◌, ◌<◌, ◌≤◌}
use mathlib.Core.Path.{◌≡◌, sym, ap, ◌∙◌}
use mathlib.Core.Logic.{◌≢◌}
use native.Mathlib.Nat.{mul-add-div_right, div-eq_of_lt}
use native.Mathlib.Omega.{arith}

pub mul_mono : (a b c : ℕ) → a ≤ b → a * c ≤ b * c
mul_mono a b c h = grind arith

pub mul-div_cancel : (n bs : ℕ) → 0 < bs → (n * bs) / bs ≡ n
mul-div_cancel n bs h = grind arith

-- The blocks counted for some tokens hold them.
pub ceil_covers : (t bs : ℕ) → 0 < bs → t ≤ ((t + bs - 1) / bs) * bs
ceil_covers t bs h = omega arith

-- One block less would not.
pub ceil_tight : (t bs : ℕ) → 0 < bs → ((t + bs - 1) / bs) * bs < t + bs
ceil_tight t bs h = omega arith

-- Blocks that hold the tokens are at least as many as are counted.
pub ceil_fits : (t n bs : ℕ) → 0 < bs → t ≤ n * bs → (t + bs - 1) / bs ≤ n
ceil_fits t n bs pos h = grind (arith, ceil_tight t bs pos)

-- Of the blocks that hold `w` tokens with none to spare, only the last can take the next token,
-- and only if it is partly filled.
pub last_block :
    (n w i bs : ℕ) → 0 < bs → n * bs < w + bs → w / bs ≤ i → i < n → (i ≡ w / bs) × (w % bs ≢ 0)
last_block n w i bs pos tight le lt = grind arith

-- The block of a position within the blocks.
pub slot_block : (t n bs : ℕ) → t < n * bs → t / bs < n
slot_block t n bs h = grind arith

-- A slot determines its block and its offset.
pub slot_injective :
    (b c o p bs : ℕ) → o < bs → p < bs → b * bs + o ≡ c * bs + p → (b ≡ c) × (o ≡ p)
slot_injective b c o p bs ho hp e =
    let quotient : (x y : ℕ) → y < bs → (x * bs + y) / bs ≡ x =
      λ x y lt. omega (arith, mul-add-div_right {m = bs} (omega arith) x y, div-eq_of_lt lt) in
    let same : b ≡ c = sym (quotient b o ho) ∙ rw e (quotient c p hp) in
    (same, omega (arith, ap (λ (x : ℕ). x * bs) same))

pub div_mono : (a b bs : ℕ) → a ≤ b → a / bs ≤ b / bs
div_mono a b bs h = grind arith
