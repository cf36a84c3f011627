-- ===== src/Reassembler/Extract.antt =====
-- `pop_unassembledString` takes the strings that go on from the end of the output.
use cs144_lab.Base.{
  List, [], ap, ap₂, arith, inl, inr, length, length-append, slice, slice-add, slice_zero, suc, sym,
  ulong_max, ℕ, ◌++◌, ◌+◌, ◌<◌, ◌||◌, ◌∙◌, ◌∷◌, ◌≡◌, ◌≤◌,
}
use cs144_lab.Reassembler.{Chunk, pop_unassembled_string}
use cs144_lab.Reassembler.Chunks.{within, within_empty, within_join, covers, total, AreChunks}

module _ (S : ℕ → ℕ) where
  -- Two stretches that meet make one.
  pub slices_meet :
      (k : ℕ) (xs ys : List ℕ)
      → xs ≡ slice S k (length xs)
      → ys ≡ slice S (k + length xs) (length ys)
      → xs ++ ys ≡ slice S k (length (xs ++ ys))
  slices_meet k xs ys h j =
      ap₂ (λ a b. a ++ b) h j
      ∙ sym (slice-add S k (length xs) (length ys))
      ∙ ap (slice S k) (sym (length-append xs ys))

  pub record Extracted (first hi : ℕ) (l : List Chunk) (out : List ℕ × List Chunk) : Type 0 where
    pub stretch : out.0 ≡ slice S first (length out.0)
    pub within_reach : first + length out.0 ≤ hi
    pub rest_beyond : AreChunks S (suc (first + length out.0)) hi out.1
    pub counted : total out.1 + length out.0 ≡ total l

  pop-Extracted_step :
      (first hi : ℕ) (c : Chunk) (rest : List Chunk)
      → hi < ulong_max
      → first ≤ c.start
      → 0 < length c.bytes
      → c.start + length c.bytes ≤ hi
      → c.bytes ≡ slice S c.start (length c.bytes)
      → AreChunks S (c.start + length c.bytes) hi rest
      → Extracted
          (c.start + length c.bytes)
          hi
          rest
          (pop_unassembled_string rest (c.start + length c.bytes))
      → Extracted first hi (c ∷ rest) (pop_unassembled_string (c ∷ rest) first)
  unfolding pop_unassembled_string
  pop-Extracted_step first hi c rest k lo ne up eq a ih =
      let out = pop_unassembled_string rest (c.start + length c.bytes) in
      ground
        (arith, slice_zero S first, length-append c.bytes out.0, slices_meet c.start c.bytes out.0)

  -- What is taken is the stretch of `S` from `first` on; what is left starts beyond a gap.
  pub pop-Extracted :
      (first hi : ℕ) (l : List Chunk)
      → first ≤ hi
      → hi < ulong_max
      → AreChunks S first hi l
      → Extracted first hi l (pop_unassembled_string l first)
  unfolding pop_unassembled_string
  pop-Extracted first hi [] h k a = absurd a
  pop-Extracted first hi (c ∷ rest) h k (inl a) = ground (arith, slice_zero S first)
  pop-Extracted first hi (c ∷ rest) h k (inr a) =
      pop-Extracted_step first hi c rest k a.0 a.1 a.2 a.3 a.4
        (pop-Extracted (c.start + length c.bytes) hi rest a.2 k a.4)

  covers-pop_step :
      (first i : ℕ) (c : Chunk) (rest : List Chunk)
      → c.start + length c.bytes < ulong_max
      → let out = pop_unassembled_string rest (c.start + length c.bytes) in
        (within (c.start + length c.bytes) (c.start + length c.bytes + length out.0) i
            || covers out.1 i)
          ≡ covers rest i
        → let out' = pop_unassembled_string (c ∷ rest) first in
          (within first (first + length out'.0) i || covers out'.1 i) ≡ covers (c ∷ rest) i
  unfolding pop_unassembled_string
  covers-pop_step first i c rest k ih =
      let out = pop_unassembled_string rest (c.start + length c.bytes) in
      ground (
        arith,
        length-append c.bytes out.0,
        within_empty first first i,
        within_join c.start (c.start + length c.bytes) (c.start + length c.bytes + length out.0) i,
      )

  -- The positions of the bytes that are taken and of those that stay are those that were covered.
  pub covers-pop :
      (first hi i : ℕ) (l : List Chunk)
      → hi < ulong_max
      → AreChunks S first hi l
      → let out = pop_unassembled_string l first in
        (within first (first + length out.0) i || covers out.1 i) ≡ covers l i
  unfolding pop_unassembled_string
  covers-pop first hi i [] k a = absurd a
  covers-pop first hi i (c ∷ rest) k (inl a) = ground (arith, within_empty first first i)
  covers-pop first hi i (c ∷ rest) k (inr a) =
      covers-pop_step first i c rest (omega arith)
        (covers-pop (c.start + length c.bytes) hi i rest k a.4)
