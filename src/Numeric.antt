-- ===== src/Numeric.antt =====
-- The rotations of libsledge/src/numeric_instructions.c, on words as bit patterns.
pub mod Bits
pub mod Rotations
mod Tests
use sledge_serverless_framew.Base.{
  ℕ, ◌+◌, ◌-◌, ◌*◌, ◌/◌, ◌%◌, ◌^◌, Bool, ◌&&◌, not, ltb, ◌==◌, if◌then◌else◌,
}
use Prim.Native.Nat.{bit_and, bit_or}

-- `n << c` and `n >> c` on words of `width` bits.
abbrev pub shl : ℕ → ℕ → ℕ → ℕ
shl width n c = n * 2 ^ c % 2 ^ width

abbrev pub shr : ℕ → ℕ → ℕ
shr n c = n / 2 ^ c

-- `-c` of an `unsigned int`
abbrev pub minus_u32 : ℕ → ℕ
minus_u32 c = (2 ^ 32 - c) % 2 ^ 32

-- The count of a rotation, and of the shift back.
abbrev count : ℕ → ℕ → ℕ
count width c = bit_and (c % width) (width - 1)

abbrev count_back : ℕ → ℕ → ℕ
count_back width c = bit_and (minus_u32 c) (width - 1)

unfoldable pub rotl_u32 : ℕ → ℕ → ℕ
rotl_u32 n c_u32 = let c = count 32 c_u32 in bit_or (shl 32 n c) (shr n (count_back 32 c))

unfoldable pub rotr_u32 : ℕ → ℕ → ℕ
rotr_u32 n c_u32 = let c = count 32 c_u32 in bit_or (shr n c) (shl 32 n (count_back 32 c))

unfoldable pub rotl_u64 : ℕ → ℕ → ℕ
rotl_u64 n c_u64 = let c = count 64 c_u64 in bit_or (shl 64 n c) (shr n (count_back 64 c))

unfoldable pub rotr_u64 : ℕ → ℕ → ℕ
rotr_u64 n c_u64 = let c = count 64 c_u64 in bit_or (shr n c) (shl 64 n (count_back 64 c))
