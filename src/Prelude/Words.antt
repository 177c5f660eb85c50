-- ===== src/Prelude/Words.antt =====
-- Machine words: `std::size_t` of 64 bits and `int` of 32, with their wrap-around.
use Prim.Native.Nat.{ℕ, ◌+◌, ◌-◌, ◌%◌, ◌^◌, ◌≤◌, ◌<◌}
use mathlib.Core.Path.{◌≡◌}
use native.Mathlib.Omega.{arith}

abbrev pub size_mod : ℕ
size_mod = 2 ^ 64

abbrev pub int_mod : ℕ
int_mod = 2 ^ 32

-- `std::size_t` addition and subtraction.
abbrev pub add_size : ℕ → ℕ → ℕ
add_size a b = (a + b) % size_mod

abbrev pub sub_size : ℕ → ℕ → ℕ
sub_size a b = (a + size_mod - b) % size_mod

-- `static_cast<int>`, as the bit pattern of the `int`.
abbrev pub to_int : ℕ → ℕ
to_int a = a % int_mod

pub add_size-eq : (a b : ℕ) → a + b < size_mod → add_size a b ≡ a + b
add_size-eq a b h = omega arith

pub sub_size-eq : (a b : ℕ) → b ≤ a → a < size_mod → sub_size a b ≡ a - b
sub_size-eq a b h k = omega arith
