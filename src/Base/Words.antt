-- ===== src/Base/Words.antt =====
-- Unsigned machine integers: `uint` has 32 bits and `size_t` 64; both wrap round.
use Prim.Native.Nat.{ℕ, ◌+◌, ◌-◌, ◌%◌, ◌^◌, ◌≤◌, ◌<◌}
use mathlib.Core.Path.{◌≡◌}
use native.Mathlib.Omega.{arith}

abbrev pub size_limit : ℕ
size_limit = 2 ^ 64

abbrev pub uint_limit : ℕ
uint_limit = 2 ^ 32

-- The conversion to `uint`.
unfoldable pub to_uint : ℕ → ℕ
to_uint n = n % uint_limit

-- `a += n` on a `uint`.
unfoldable pub uint_add : ℕ → ℕ → ℕ
uint_add a n = (a + n) % uint_limit

-- `a += n` on a `size_t`.
unfoldable pub size_add : ℕ → ℕ → ℕ
size_add a n = (a + n) % size_limit

-- `a -= n` on a `size_t`.
unfoldable pub size_sub : ℕ → ℕ → ℕ
size_sub a n = (a + (size_limit - n % size_limit)) % size_limit

pub size_add-exact : (a n : ℕ) → a + n < size_limit → size_add a n ≡ a + n
unfolding size_add
size_add-exact a n h = omega arith

pub size_sub-exact : (a n : ℕ) → n ≤ a → a < size_limit → size_sub a n ≡ a - n
unfolding size_sub
size_sub-exact a n h k = omega arith

pub size_sub-size_add : (a n : ℕ) → a < size_limit → size_sub (size_add a n) n ≡ a
unfolding size_sub size_add
size_sub-size_add a n h = omega arith

pub to_uint-exact : (n : ℕ) → n < uint_limit → to_uint n ≡ n
unfolding to_uint
to_uint-exact n h = omega arith

pub uint_add-lt : (a n : ℕ) → uint_add a n < uint_limit
unfolding uint_add
uint_add-lt a n = omega arith

pub uint_add_assoc : (a b c : ℕ) → uint_add (uint_add a b) c ≡ uint_add a (uint_add b c)
unfolding uint_add
uint_add_assoc a b c = omega arith
