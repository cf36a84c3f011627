-- ===== src/Checksum/Sums.antt =====
-- What `InternetChecksum` adds up, and when its value is 0.
use cs144_lab.Base.{
  <-cases, Bool, List, [], ap, arith, if◌then◌else◌, inl, inr, length, not, refl, ℕ, ◌%◌, ◌*◌, ◌++◌,
  ◌+◌, ◌-◌, ◌<◌, ◌^◌, ◌∙◌, ◌∷◌, ◌≡◌, ◌≤◌,
}
use cs144_lab.Checksum.{InternetChecksum, add_byte, add, fold_carry, value}
use cs144_lab.Checksum.Folding.{fold_carry_small, fold_carry_lem}

-- The sum of the 16-bit words of some bytes; `odd` when the first byte is the second of its word.
unfoldable pub word_sum : Bool → List ℕ → ℕ
word_sum odd [] = 0
word_sum odd (byte ∷ bytes) =
    (if not odd then byte % 2 ^ 8 * 2 ^ 8 else byte % 2 ^ 8) + word_sum (not odd) bytes

-- Whether the byte behind them is the second of its word.
unfoldable pub flipped : Bool → List ℕ → Bool
flipped odd [] = odd
flipped odd (byte ∷ bytes) = flipped (not odd) bytes

pub word_sum-append :
    (odd : Bool) (xs ys : List ℕ)
    → word_sum odd (xs ++ ys) ≡ word_sum odd xs + word_sum (flipped odd xs) ys
unfolding word_sum flipped
word_sum-append odd [] ys = omega arith
word_sum-append odd (x ∷ xs) ys = omega (arith, word_sum-append (not odd) xs ys)

pub word_sum-le : (odd : Bool) (bytes : List ℕ) → word_sum odd bytes ≤ 65280 * length bytes
unfolding word_sum
word_sum-le odd [] = omega arith
word_sum-le odd (byte ∷ bytes) = ground (arith, word_sum-le (not odd) bytes)

add_byte_lem :
    (c : InternetChecksum) (byte : ℕ)
    → let val = if not c.parity then byte % 2 ^ 8 * 2 ^ 8 else byte % 2 ^ 8 in
      c.sum + val < 2 ^ 32 → add_byte c byte ≡ record { sum = c.sum + val; parity = not c.parity }
unfolding add_byte
add_byte_lem c byte h = ap (λ n. record { sum = n; parity = not c.parity }) (omega arith)

-- As long as the sum fits 32 bits, `add` adds it.
pub add_lem :
    (c : InternetChecksum) (bytes : List ℕ)
    → c.sum + word_sum c.parity bytes < 2 ^ 32
    → add c bytes
      ≡ record { sum = c.sum + word_sum c.parity bytes; parity = flipped c.parity bytes }
unfolding add word_sum flipped
add_lem c [] h = ap (λ n. record { sum = n; parity = c.parity }) (omega arith)
add_lem c (byte ∷ bytes) h =
    let val = if not c.parity then byte % 2 ^ 8 * 2 ^ 8 else byte % 2 ^ 8 in
    let c' : InternetChecksum = record { sum = c.sum + val; parity = not c.parity } in
    ap (λ k. add k bytes) (add_byte_lem c byte (omega arith))
    ∙ add_lem c' bytes (omega arith)
    ∙ ap (λ n. record { sum = n; parity = flipped (not c.parity) bytes }) (omega arith)

pub add-append : (c : InternetChecksum) (xs ys : List ℕ) → add c (xs ++ ys) ≡ add (add c xs) ys
unfolding add
add-append c [] ys = refl
add-append c (x ∷ xs) ys = add-append (add_byte c x) xs ys

fold_carry-pos : (ret : ℕ) → ret < 2 ^ 32 → 0 < ret → 0 < fold_carry 3 ret
unfolding fold_carry
fold_carry-pos ret h k = ground arith

-- The value of a sum makes the sum right.
pub value_completes :
    (sum : ℕ) (odd odd' : Bool)
    → sum + 65535 < 2 ^ 32
    → value (record { sum = sum + value (record { sum = sum; parity = odd }); parity = odd' }) ≡ 0
unfolding value
value_completes sum odd odd' h =
    let folded = fold_carry 3 sum in
    let whole = sum + (0xffff - folded) in
    let pos : 0 < whole = elim (<-cases sum (2 ^ 16)) [
      | inl small ↦ omega (arith, fold_carry_small 3 sum small)
      | inr large ↦ omega arith
    ] in
    omega
      (arith, fold_carry_lem 1 sum, fold_carry_lem 1 whole, fold_carry-pos whole (omega arith) pos)

pub value-lt : (c : InternetChecksum) → value c < 2 ^ 16
unfolding value
value-lt c = omega arith
