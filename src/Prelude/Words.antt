-- ===== src/Prelude/Words.antt =====
-- Machine integers: the u128 balances, which saturate, and the u32 counters, which saturate or wrap.
use Prim.Native.Nat.{ℕ, ◌+◌, ◌-◌, ◌%◌, ◌^◌, min}

abbrev pub max_balance : ℕ
max_balance = 2 ^ 128 - 1

abbrev pub max_u32 : ℕ
max_u32 = 2 ^ 32 - 1

-- `u128::saturating_add`
abbrev pub saturating_add : ℕ → ℕ → ℕ
saturating_add a b = min (a + b) max_balance

-- `saturating_sub`, at every width
abbrev pub saturating_sub : ℕ → ℕ → ℕ
saturating_sub a b = a - b

-- `u32::saturating_add`
abbrev pub saturating_add_u32 : ℕ → ℕ → ℕ
saturating_add_u32 a b = min (a + b) max_u32

-- `a + b` and `a - b` on u32 in a build without overflow checks
abbrev pub add_u32 : ℕ → ℕ → ℕ
add_u32 a b = (a + b) % 2 ^ 32

abbrev pub sub_u32 : ℕ → ℕ → ℕ
sub_u32 a b = (a + 2 ^ 32 - b) % 2 ^ 32

abbrev pub max_u64 : ℕ
max_u64 = 2 ^ 64 - 1

-- the same on u64
abbrev pub add_u64 : ℕ → ℕ → ℕ
add_u64 a b = (a + b) % 2 ^ 64

abbrev pub sub_u64 : ℕ → ℕ → ℕ
sub_u64 a b = (a + 2 ^ 64 - b) % 2 ^ 64
