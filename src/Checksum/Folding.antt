-- ===== src/Checksum/Folding.antt =====
-- The loop of `InternetChecksum::value`.
use cs144_lab.Base.{arith, refl, suc, zero, ℕ, ◌%◌, ◌+◌, ◌/◌, ◌<◌, ◌^◌, ◌≡◌}
use cs144_lab.Checksum.{fold_carry}

-- A sum of 16 bits is left alone.
pub fold_carry_small : (fuel ret : ℕ) → ret < 2 ^ 16 → fold_carry fuel ret ≡ ret
unfolding fold_carry
fold_carry_small zero ret h = refl
fold_carry_small (suc fuel) ret h = ground arith

-- For a sum of 32 bits, the loop of `InternetChecksum::value` with any fuel from 2 on gives what it
-- gives with 3: a number of 16 bits that leaves the same remainder modulo 0xffff as the sum.
pub fold_carry_lem :
    (fuel ret : ℕ)
    → ret < 2 ^ 32
    → (fold_carry (2 + fuel) ret ≡ fold_carry 3 ret)
      × (fold_carry 3 ret < 2 ^ 16)
      × (fold_carry 3 ret % 0xffff ≡ ret % 0xffff)
unfolding fold_carry
fold_carry_lem fuel ret h =
    let once = ret / 2 ^ 16 + ret % 2 ^ 16 in
    let twice = once / 2 ^ 16 + once % 2 ^ 16 in
    ground (
      arith,
      fold_carry_small (suc fuel) ret,
      fold_carry_small fuel once,
      fold_carry_small fuel twice,
    )
