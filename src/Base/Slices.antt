-- ===== src/Base/Slices.antt =====
-- Stretches of an infinite byte sequence, the reference against which received bytes are compared.
use Prim.Native.Nat.{ℕ, zero, suc, ◌+◌, ◌-◌, min}
use mathlib.Core.Path.{◌≡◌, refl, sym, ap, ap₂, ◌∙◌}
use mathlib.Core.List.{List, [], ◌∷◌, ◌++◌}
use native.Mathlib.Omega.{arith}
use cs144_lab.Base.Lists.{length, take, drop, substr}

module _ (S : ℕ → ℕ) where
  -- The `n` bytes from position `k` on.
  unfoldable pub slice : ℕ → ℕ → List ℕ
  slice k zero = []
  slice k (suc n) = S k ∷ slice (suc k) n

  pub slice_zero : (k : ℕ) → slice k 0 ≡ []
  unfolding slice
  slice_zero k = refl

  pub length-slice : (k n : ℕ) → length (slice k n) ≡ n
  unfolding slice
  length-slice k zero = refl
  length-slice k (suc n) = ap suc (length-slice (suc k) n)

  pub slice-add : (k n m : ℕ) → slice k (n + m) ≡ slice k n ++ slice (k + n) m
  unfolding slice
  slice-add k zero m = ap₂ slice (omega arith) (omega arith)
  slice-add k (suc n) m =
      ap (slice k) split
      ∙ ap (λ t. S k ∷ t)
          (slice-add (suc k) n m ∙ ap (λ p. slice (suc k) n ++ slice p m) (omega arith))
    where
      split : suc n + m ≡ suc (n + m)
      split = omega arith

  -- A beginning of the sequence goes on at its length.
  pub slice-append : (n m : ℕ) → slice 0 n ++ slice n m ≡ slice 0 (n + m)
  slice-append n m = ap (λ k. slice 0 n ++ slice k m) (omega arith) ∙ sym (slice-add 0 n m)

  pub take-slice : (c k n : ℕ) → take c (slice k n) ≡ slice k (min c n)
  unfolding slice
  take-slice zero k n = ap (slice k) zero_min
    where
      zero_min : zero ≡ min zero n
      zero_min = omega arith
  take-slice (suc c) k zero = ap (slice k) min_zero
    where
      min_zero : zero ≡ min (suc c) zero
      min_zero = omega arith
  take-slice (suc c) k (suc n) = ap (λ t. S k ∷ t) (take-slice c (suc k) n) ∙ ap (slice k) suc_min
    where
      suc_min : suc (min c n) ≡ min (suc c) (suc n)
      suc_min = omega arith

  pub drop-slice : (p k n : ℕ) → drop p (slice k n) ≡ slice (k + p) (n - p)
  unfolding slice
  drop-slice zero k n = ap₂ slice (omega arith) (omega arith)
  drop-slice (suc p) k zero = ap (slice (k + suc p)) none_left
    where
      none_left : zero ≡ zero - suc p
      none_left = omega arith
  drop-slice (suc p) k (suc n) = drop-slice p (suc k) n ∙ ap₂ slice (omega arith) (omega arith)

  -- A substring of a stretch is a stretch.
  pub substr-slice :
      (k n pos count : ℕ) → substr (slice k n) pos count ≡ slice (k + pos) (min count (n - pos))
  substr-slice k n pos count =
      ap (take count) (drop-slice pos k n) ∙ take-slice count (k + pos) (n - pos)

  -- So is a substring of a string that is one.
  pub substr_of_slice :
      (bytes : List ℕ) (k pos count : ℕ)
      → bytes ≡ slice k (length bytes)
      → substr bytes pos count ≡ slice (k + pos) (min count (length bytes - pos))
  substr_of_slice bytes k pos count h =
      ap (λ t. substr t pos count) h ∙ substr-slice k (length bytes) pos count

  pub length-substr_of_slice :
      (bytes : List ℕ) (k pos count : ℕ)
      → bytes ≡ slice k (length bytes)
      → length (substr bytes pos count) ≡ min count (length bytes - pos)
  length-substr_of_slice bytes k pos count h =
      ap length (substr_of_slice bytes k pos count h)
      ∙ length-slice (k + pos) (min count (length bytes - pos))
