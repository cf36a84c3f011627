-- ===== src/ByteStream/Reference.antt =====
-- A byte stream whose buffer is a stretch of a reference sequence `S`.
use cs144_lab.Base.{
  ap, arith, drop, drop-slice, length, length-drop, length-slice, min, slice, sym, take, take-slice,
  ℕ, ◌+◌, ◌∙◌, ◌≡◌,
}
use cs144_lab.ByteStream.{ByteStream, read, peek_output, pop_output}
use cs144_lab.ByteStream.Laws.{IsValid, read_lem}

module _ (S : ℕ → ℕ) where
  -- The buffer holds the bytes of `S` from the number of bytes read on.
  abbrev pub IsBuffered : ByteStream → Type 0
  IsBuffered s = s.buff ≡ slice S s.totout (length s.buff)

  module _ (s : ByteStream) (len : ℕ) (v : IsValid s) (b : IsBuffered s) where
    abbrev pub size : ℕ
    size = min len (length s.buff)

    pub read_out : (read s len).1 ≡ slice S s.totout size
    unfolding peek_output
    read_out =
        ap (λ p. p.1) (read_lem s len)
        ∙ ap (take size) b
        ∙ take-slice S size s.totout (length s.buff)
        ∙ ap (slice S s.totout) (omega arith)

    pub length-read_out : length (read s len).1 ≡ size
    length-read_out = ap length read_out ∙ length-slice S s.totout size

    pub read_left : (read s len).0 ≡ record s { totout = s.totout + size; buff = drop size s.buff }
    unfolding pop_output
    read_left =
        ap (λ p. p.0) (read_lem s len)
        ∙ ap (λ n. record s { totout = n; buff = drop size s.buff }) (omega (arith, v))

    pub read-IsBuffered : IsBuffered (read s len).0
    read-IsBuffered = rw read_left (
        ap (drop size) b
        ∙ drop-slice S size s.totout (length s.buff)
        ∙ ap (slice S (s.totout + size)) (sym (length-drop size s.buff)))
