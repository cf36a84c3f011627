-- ===== src/Wrapping.antt =====
-- libsponge/wrapping_integers.{hh,cc}: 32-bit sequence numbers relative to an initial one.
-- A `WrappingInt32` is its raw value, a number below 2 ^ 32.
pub mod Unwrap
use cs144_lab.Base.{Bool, add32, add64, if◌then◌else◌, ltb, sub32, u32, ℕ, ◌+◌, ◌-◌, ◌==◌, ◌^◌}

-- `operator-`: the offset of `a` from `b`, as the bit pattern of an `int32_t`.
unfoldable pub difference : ℕ → ℕ → ℕ
difference a b = sub32 a b

-- `operator==`
unfoldable pub equal : ℕ → ℕ → Bool
equal a b = a == b

-- `operator+`: the point `b` steps past `a`.
unfoldable pub advance : ℕ → ℕ → ℕ
advance a b = add32 a b

-- `operator-` with a `uint32_t`: `a + -b`.
unfoldable pub retreat : ℕ → ℕ → ℕ
unfolding advance
retreat a b = advance a (sub32 0 b)

unfoldable pub wrap : ℕ → ℕ → ℕ
wrap n isn = u32 (add64 n isn)

-- The conversion of an `int32_t` to 64 bits repeats the sign bit.
abbrev pub sign_extend : ℕ → ℕ
sign_extend w = if ltb w (2 ^ 31) then w else w + (2 ^ 64 - 2 ^ 32)

-- `ans >= 0` reads `ans` as an `int64_t`.
unfoldable pub unwrap : ℕ → ℕ → ℕ → ℕ
unfolding wrap difference
unwrap n isn checkpoint =
    let ans = add64 checkpoint (sign_extend (difference n (wrap checkpoint isn))) in
    if ltb ans (2 ^ 63) then ans else add64 ans (2 ^ 32)
