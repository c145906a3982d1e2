-- ===== src/Numeric/Tests.antt =====
-- Rotations of words (libsledge/src/numeric_instructions.c), and the theorems at them.
use sledge_serverless_framew.Base.{ℕ, ◌%◌, ◌≡◌, arith, refl}
use sledge_serverless_framew.Numeric
use sledge_serverless_framew.Numeric.Rotations.{rotated, rotl_correct, rotr-rotl}

abbrev pattern : ℕ
pattern = 0x80000001

by_four : Numeric.rotl_u32 pattern 36 ≡ 0x18
unfolding Numeric.rotl_u32
by_four = refl

abbrev wide_pattern : ℕ
wide_pattern = 0xC000000000000001

rotl_correct_example :
    (Numeric.rotl_u32 pattern 36 ≡ rotated 32 pattern (36 % 32))
    × (Numeric.rotl_u64 wide_pattern 36 ≡ rotated 64 wide_pattern (36 % 64))
rotl_correct_example = rotl_correct pattern wide_pattern 36 (ground arith) (ground arith)

rotr-rotl_example :
    (Numeric.rotr_u32 (Numeric.rotl_u32 pattern 36) 36 ≡ pattern)
    × (Numeric.rotr_u64 (Numeric.rotl_u64 wide_pattern 36) 36 ≡ wide_pattern)
rotr-rotl_example = rotr-rotl pattern wide_pattern 36 (ground arith) (ground arith)
