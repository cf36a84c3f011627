-- ===== src/Reassembler/History.antt =====
-- Histories of a reassembler: the receiver pushes substrings, the application reads the output.
use cs144_lab.Base.{
  <-cases, Bool, List, [], ap, arith, drop, drop-slice, false, inl, inr, length, length-append,
  length-drop, length-slice, min, slice, slice_zero, suc, sym, take, take-slice, true, ulong_max, ℕ,
  ◌++◌, ◌+◌, ◌<◌, ◌∙◌, ◌∷◌, ◌≡◌,
}
use cs144_lab.ByteStream
use cs144_lab.ByteStream.{ByteStream}
use cs144_lab.ByteStream.Laws.{read_lem}
use cs144_lab.Reassembler.{StreamReassembler, new, push_substring}
use cs144_lab.Reassembler.Chunks.{within_past, covers_below, total_beyond, AreChunks-mono}
use cs144_lab.Reassembler.Invariant.{IsValid, has}
use cs144_lab.Reassembler.Extract.{slices_meet}
use cs144_lab.Reassembler.Delivery.{IsPart, IsEnded, push_substring-Pushed}

pub data Event : Type 0 where
  push : List ℕ → ℕ → Bool → Event
  read : ℕ → Event

unfoldable pub step : StreamReassembler → Event → StreamReassembler
step r (push bytes index eof) = push_substring r bytes index eof
step r (read len) = record r { output = (ByteStream.read r.output len).0 }

unfoldable pub run : StreamReassembler → List Event → StreamReassembler
run r [] = r
run r (e ∷ es) = run (step r e) es

-- What the reads of a history return.
output_of : StreamReassembler → Event → List ℕ
output_of r (push bytes index eof) = []
output_of r (read len) = (ByteStream.read r.output len).1

pub outputs : StreamReassembler → List Event → List ℕ
outputs r [] = []
outputs r (e ∷ es) = output_of r e ++ outputs (step r e) es

-- Every substring that is pushed is a part of the stream.
abbrev pub AreParts : (ℕ → ℕ) → ℕ → List Event → Type 0
AreParts S N [] = Unit {0}
AreParts S N (push bytes index eof ∷ es) = IsPart S N bytes index eof × AreParts S N es
AreParts S N (read len ∷ es) = AreParts S N es

module _ (S : ℕ → ℕ) (N : ℕ) where
  -- Everything read so far and still buffered is the beginning of the stream.
  pub record Holds (r : StreamReassembler) : Type 0 where
    pub valid : IsValid S N r
    pub ended : IsEnded r

  -- A new reassembler is valid for every stream that leaves room in 64 bits.
  pub new-Holds : (capacity : ℕ) → N + capacity < ulong_max → Holds (new capacity)
  unfolding new
  new-Holds capacity h = ground (arith, slice_zero S 0)

  module _ (r : StreamReassembler) (len : ℕ) (h : Holds r) where
    abbrev pub size : ℕ
    size = min len (length r.output.buff)

    pub read_out : (ByteStream.read r.output len).1 ≡ slice S r.output.totout size
    unfolding ByteStream.peek_output
    read_out =
        ap (λ p. p.1) (read_lem r.output len)
        ∙ ap (take size) h.valid.buffered
        ∙ take-slice S size r.output.totout (length r.output.buff)
        ∙ ap (slice S r.output.totout) (omega arith)

    read_left :
        (ByteStream.read r.output len).0
        ≡ record r.output { totout = r.output.totout + size; buff = drop size r.output.buff }
    unfolding ByteStream.pop_output
    read_left =
        ap (λ p. p.0) (read_lem r.output len)
        ∙ ap (λ n. record r.output { totout = n; buff = drop size r.output.buff })
            (omega (arith, h.valid.stream))

    read-IsValid : IsValid S N (step r (read len))
    unfolding step
    read-IsValid = rw read_left (record {
      stream = omega (arith, h.valid.stream, length-drop size r.output.buff);
      same_capacity = h.valid.same_capacity;
      buffered =
          ap (drop size) h.valid.buffered
          ∙ drop-slice S size r.output.totout (length r.output.buff)
          ∙ ap (slice S (r.output.totout + size)) (sym (length-drop size r.output.buff));
      written-le = h.valid.written-le;
      chunks =
          AreChunks-mono S (suc r.output.totin) (suc r.output.totin)
            (min (r.output.totout + r.capacity) N) (min (r.output.totout + size + r.capacity) N)
            r.unassembled_buffer (omega arith) (omega arith) h.valid.chunks;
      counted = h.valid.counted;
      eof_known = h.valid.eof_known;
      room = h.valid.room;
      ended_complete = h.valid.ended_complete;
    })

    pub read-Holds : Holds (step r (read len))
    unfolding step
    read-Holds = record {
      valid = unfold step in read-IsValid;
      ended = rw read_left (λ e. h.ended e);
    }

    pub totout-read :
        (step r (read len)).output.totout
        ≡ r.output.totout + length (ByteStream.read r.output len).1
    unfolding step
    totout-read =
        ap (λ s. s.totout) read_left
        ∙ omega (arith, ap length read_out, length-slice S r.output.totout size)

  -- Every step of a history keeps the state.
  step-Holds :
      (r : StreamReassembler) (e : Event) → Holds r → AreParts S N (e ∷ []) → Holds (step r e)
  unfolding step
  step-Holds r (push bytes index eof) h p =
      let q = push_substring-Pushed S N r bytes index eof h.valid h.ended p.0 in
      record { valid = q.valid; ended = q.ended }
  step-Holds r (read len) h p = read-Holds r len h

  totout-push :
      (r : StreamReassembler) (bytes : List ℕ) (index : ℕ) (eof : Bool)
      → Holds r
      → IsPart S N bytes index eof
      → (step r (push bytes index eof)).output.totout ≡ r.output.totout
  unfolding step
  totout-push r bytes index eof h p =
      (push_substring-Pushed S N r bytes index eof h.valid h.ended p).same_reader.0

  -- From a reassembler for which the invariant holds, after any history of pushes of parts of one
  -- stream, overlapping and out of order, and of reads, the invariant holds still, and what the
  -- reads returned is the stretch of the stream that begins at the first byte not read before.
  pub run-outputs :
      (r : StreamReassembler) (es : List Event)
      → Holds r
      → AreParts S N es
      → Holds (run r es)
        × (outputs r es ≡ slice S r.output.totout (length (outputs r es)))
        × ((run r es).output.totout ≡ r.output.totout + length (outputs r es))
  unfolding run outputs output_of
  run-outputs r [] h p = (h, sym (slice_zero S r.output.totout), omega arith)
  run-outputs r (push bytes index eof ∷ es) h p =
      let ih =
        run-outputs (step r (push bytes index eof)) es
          (step-Holds r (push bytes index eof) h (p.0, tt)) p.1 in
      let e = totout-push r bytes index eof h p.0 in
      (
        ih.0,
        ih.1 ∙ ap (λ k. slice S k (length (outputs (step r (push bytes index eof)) es))) e,
        ih.2 ∙ ap (λ k. k + length (outputs (step r (push bytes index eof)) es)) e,
      )
  run-outputs r (read len ∷ es) h p =
      let out = (ByteStream.read r.output len).1 in
      let rest = outputs (step r (read len)) es in
      let ih = run-outputs (step r (read len)) es (read-Holds r len h) p in
      let e = totout-read r len h in
      (
        ih.0,
        slices_meet S r.output.totout out rest
            (read_out r len h
              ∙ ap (slice S r.output.totout) (
                  sym
                    (ap length (read_out r len h) ∙ length-slice S r.output.totout (size r len h))))
            (ih.1 ∙ ap (λ k. slice S k (length rest)) e),
        omega (arith, ih.2, e, length-append out rest),
      )

  -- The output reaches as far as the bytes that were taken in allow.
  output_maximal : (r : StreamReassembler) → Holds r → has r r.output.totin ≡ false
  output_maximal r h = ground (
    arith,
    within_past 0 r.output.totin r.output.totin,
    covers_below S (suc r.output.totin) (min (r.output.totout + r.capacity) N) r.output.totin
        r.unassembled_buffer (omega arith) (omega (arith, h.valid.room, h.valid.written-le))
        h.valid.chunks,
  )

  -- What is left when every byte of the stream is in.
  complete_delivers :
      (r : StreamReassembler)
      → Holds r
      → ((i : ℕ) → i < N → has r i ≡ true)
      → r.pos_eof ≡ N
      → (r.output.totin ≡ N) × (r.unassembled_count ≡ 0) × (r.output.is_input_end ≡ true)
  complete_delivers r h all known = elim (<-cases r.output.totin N) [
    | inl short ↦ cc (all r.output.totin short, output_maximal r h)
    | inr full ↦
        let e : r.output.totin ≡ N = omega (arith, h.valid.written-le) in
        (
          e,
          h.valid.counted
              ∙ total_beyond S (suc r.output.totin) (min (r.output.totout + r.capacity) N)
                  r.unassembled_buffer (omega arith) h.valid.chunks,
          h.ended (known ∙ sym e),
        )
  ]

  -- After any such history from a reassembler for which the invariant holds, the first byte that
  -- has not been delivered is not waiting either: the output reaches as far as the bytes that were
  -- taken in allow.
  pub run_maximal :
      (r : StreamReassembler) (es : List Event)
      → Holds r
      → AreParts S N es
      → has (run r es) (run r es).output.totin ≡ false
  run_maximal r es h p = output_maximal (run r es) (run-outputs r es h p).0

  -- After any such history from a reassembler for which the invariant holds, when every byte of the
  -- stream has been taken in and its end was announced, all of it has been delivered, the count of
  -- waiting bytes is 0, and the output is ended.
  pub run_complete :
      (r : StreamReassembler) (es : List Event)
      → Holds r
      → AreParts S N es
      → ((i : ℕ) → i < N → has (run r es) i ≡ true)
      → (run r es).pos_eof ≡ N
      → ((run r es).output.totin ≡ N)
        × ((run r es).unassembled_count ≡ 0)
        × ((run r es).output.is_input_end ≡ true)
  run_complete r es h p all known = complete_delivers (run r es) (run-outputs r es h p).0 all known
