-- ===== src/Base/Word.antt =====
-- The C integers of 32 bits. A `uint32_t` is a number below 2 ^ 32; an `int` is kept as its
-- bit pattern, so that conversion between the two is the identity, as it is in the compiled code.
use file_server.Base.Tests.{ltb, leb, if◌then◌else◌}
use Prim.Native.Nat.{ℕ, ◌+◌, ◌-◌, ◌*◌, ◌/◌, ◌%◌, ◌^◌}
use mathlib.Core.Path.{◌≡◌, refl}
use mathlib.Core.Bool.{Bool, true, ◌&&◌}

abbrev pub add_word : ℕ → ℕ → ℕ
add_word a b = (a + b) % 2 ^ 32

abbrev pub sub_word : ℕ → ℕ → ℕ
sub_word a b = (a + 2 ^ 32 - b) % 2 ^ 32

abbrev pub mul_word : ℕ → ℕ → ℕ
mul_word a b = (a * b) % 2 ^ 32

-- `-1`
abbrev pub minus_one : ℕ
minus_one = 2 ^ 32 - 1

-- `(int)w < 0`
abbrev pub is_negative : ℕ → Bool
is_negative w = leb (2 ^ 31) w

-- `(int)w > 0`
abbrev pub is_positive : ℕ → Bool
is_positive w = ltb 0 w && ltb w (2 ^ 31)

-- The order of the integers is that of the patterns with the sign bit flipped.
abbrev pub bias : ℕ → ℕ
bias w = (w + 2 ^ 31) % 2 ^ 32

-- `(int)a < (int)b` and `(int)a >= (int)b`
abbrev pub lt_int : ℕ → ℕ → Bool
lt_int a b = ltb (bias a) (bias b)

abbrev pub ge_int : ℕ → ℕ → Bool
ge_int a b = leb (bias b) (bias a)

-- `(int)a / d` for a positive constant `d`: division rounds towards zero.
abbrev pub div_int : ℕ → ℕ → ℕ
div_int a d = if is_negative a then sub_word 0 ((2 ^ 32 - a) / d) else a / d

minus_one-is_negative : (is_negative minus_one && lt_int minus_one 0 && ge_int 3 minus_one) ≡ true
minus_one-is_negative = refl

div_int_rounds_towards_zero : div_int (sub_word 0 7) 2 ≡ sub_word 0 3
div_int_rounds_towards_zero = refl
