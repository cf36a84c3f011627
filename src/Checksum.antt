-- ===== src/Checksum.antt =====
-- libsponge/util/util.{hh,cc}: `class InternetChecksum`.
pub mod Folding
pub mod Sums
use cs144_lab.Base.{
  Bool, List, [], add32, false, if◌then◌else◌, ltb, not, suc, true, zero, ℕ, ◌%◌, ◌*◌, ◌+◌, ◌-◌,
  ◌/◌, ◌^◌, ◌∷◌,
}

-- The running sum is a `uint32_t`.
pub record InternetChecksum : Type 0 where
  pub sum : ℕ
  pub parity : Bool

unfoldable pub new : ℕ → InternetChecksum
new initial_sum = record { sum = initial_sum; parity = false }

-- One round of the loop of `add`.
unfoldable pub add_byte : InternetChecksum → ℕ → InternetChecksum
add_byte c byte =
    let val = if not c.parity then byte % 2 ^ 8 * 2 ^ 8 else byte % 2 ^ 8 in
    record { sum = add32 c.sum val; parity = not c.parity }

unfoldable pub add : InternetChecksum → List ℕ → InternetChecksum
unfolding add_byte
add c [] = c
add c (byte ∷ bytes) = add (add_byte c byte) bytes

-- The loop of `value`.
unfoldable pub fold_carry : ℕ → ℕ → ℕ
fold_carry zero ret = ret
fold_carry (suc fuel) ret = elim (ltb 0xffff ret) [
  | true ↦ fold_carry fuel (ret / 2 ^ 16 + ret % 2 ^ 16)
  | false ↦ ret
]

-- Two rounds bring 32 bits down to 16; `~` flips the low 16 bits.
unfoldable pub value : InternetChecksum → ℕ
unfolding fold_carry
value c = 0xffff - fold_carry 3 c.sum
