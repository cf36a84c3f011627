-- ===== src/Segment/Wire/Padding.antt =====
-- Padding with zeros, by `std::string::resize`, and skipping it.
use cs144_lab.Base.{
  List, [], ap, arith, drop, drop-append, length, length-append, refl, suc, sym, zero, ℕ, ◌++◌, ◌-◌,
  ◌∙◌, ◌∷◌, ◌≡◌, ◌≤◌,
}
use cs144_lab.Parser.{remove_prefix}
use cs144_lab.Parser.RoundTrip.{at}
use cs144_lab.Segment.Wire.{resize}

abbrev pub zeros : ℕ → List ℕ
zeros zero = []
zeros (suc n) = 0 ∷ zeros n

pub resize_pad :
    (n : ℕ) (bytes : List ℕ) → length bytes ≤ n → resize n bytes ≡ bytes ++ zeros (n - length bytes)
unfolding resize
resize_pad zero [] h = refl
resize_pad zero (b ∷ bytes) h = absurd (omega arith)
resize_pad (suc n) [] h = ap (λ t. 0 ∷ t) (resize_pad n [] (omega arith)) ∙ sym (unfold_zeros n)
  where
    unfold_zeros : (n : ℕ) → zeros (suc n - 0) ≡ 0 ∷ zeros (n - 0)
    unfold_zeros n =
        let e : suc n - 0 ≡ suc n = omega arith in let e' : n - 0 ≡ n = omega arith in rw (e, e')
resize_pad (suc n) (b ∷ bytes) h =
    let e : n - length bytes ≡ suc n - suc (length bytes) = omega arith in
    ap (λ t. b ∷ t) (resize_pad n bytes (omega arith) ∙ ap (λ k. bytes ++ zeros k) e)

pub length-zeros : (n : ℕ) → length (zeros n) ≡ n
length-zeros zero = refl
length-zeros (suc n) = ap suc (length-zeros n)

pub skip_zeros : (n : ℕ) (rest : List ℕ) → remove_prefix (at (zeros n ++ rest)) n ≡ at rest
unfolding remove_prefix
skip_zeros n rest = ground (
  arith,
  length-append (zeros n) rest,
  length-zeros n,
  drop-append (zeros n) rest,
  ap (λ k. drop k (zeros n ++ rest)) (length-zeros n),
)
