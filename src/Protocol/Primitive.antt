-- ===== src/Protocol/Primitive.antt =====
-- Hashes, addresses and byte strings (protocol/src/types/primitive.rs). A `Hash` is 32 bytes and
-- an `Address` is 20: each is the number that its bytes spell, the first byte the highest. The
-- programs only compare them and read the first byte of a hash.
use muta.Prelude.{Bool, List, ltb, ℕ, ◌%◌, ◌+◌, ◌-◌, ◌^◌}

abbrev pub Hash : Type 0
Hash = ℕ

abbrev pub Address : Type 0
Address = ℕ

abbrev pub Bytes : Type 0
Bytes = List ℕ

abbrev pub u32_mod : ℕ
u32_mod = 2 ^ 32

abbrev pub u64_mod : ℕ
u64_mod = 2 ^ 64

-- `u64::overflowing_add`: the wrapped sum, and whether it wrapped.
abbrev pub overflowing_add : ℕ → ℕ → ℕ × Bool
overflowing_add a b = ((a + b) % u64_mod, ltb (u64_mod - 1) (a + b))

-- `u64::overflowing_sub`: the wrapped difference, and whether it wrapped.
abbrev pub overflowing_sub : ℕ → ℕ → ℕ × Bool
overflowing_sub a b = ((a + u64_mod - b) % u64_mod, ltb a b)
