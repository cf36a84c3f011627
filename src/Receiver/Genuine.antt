-- ===== src/Receiver/Genuine.antt =====
-- A receiver that is given segments of one peer: stream `S` of `N` bytes, initial number `isn`.
use cs144_lab.Base.{
  Bool-cases, [], ap, arith, false, if◌then◌else◌, inl, inr, min, not, refl, slice_zero, subst, suc,
  sym, true, u32, ℕ, ≤-cases, ◌+◌, ◌<◌, ◌^◌, ◌||◌, ◌∙◌, ◌≡◌, ◌≤◌, ◌⊎◌,
}
use cs144_lab.Wrapping.{wrap, unwrap}
use cs144_lab.Wrapping.Unwrap.{unwrap-wrap_small}
use cs144_lab.Reassembler
use cs144_lab.Reassembler.{StreamReassembler, push_substring}
use cs144_lab.Reassembler.Chunks.{total-le, total_beyond}
use cs144_lab.Reassembler.Delivery.{IsPart, Pushed, push_substring-Pushed, push_substring_nil}
use cs144_lab.Reassembler.History.{Holds, new-Holds}
use cs144_lab.Segment.{TcpHeader, TcpSegment}
use cs144_lab.Receiver.{
  TcpReceiver, new, note_flags, absolute_index, stream_index, segment_received, unassembled_bytes,
}

-- What a segment carries: the part of the stream from `index` on, numbered as the peer numbers it.
pub record Carries (S : ℕ → ℕ) (N isn index : ℕ) (seg : TcpSegment) : Type 0 where
  pub part : IsPart S N seg.payload index seg.header.fin
  pub first : seg.header.syn ≡ true → (index ≡ 0) × (seg.header.seqno ≡ isn)
  pub later : seg.header.syn ≡ false → seg.header.seqno ≡ wrap (index + 1) isn

-- A segment of the peer carries a part of its stream, or nothing at all.
pub data IsGenuine (S : ℕ → ℕ) (N isn : ℕ) (seg : TcpSegment) : Type 0 where
  carries : (index : ℕ) → Carries S N isn index seg → IsGenuine S N isn seg
  blank : seg.payload ≡ [] → seg.header.syn ≡ false → seg.header.fin ≡ false → IsGenuine S N isn seg

module _ (S : ℕ → ℕ) (N isn : ℕ) where
  -- The receiver of that peer: once it has the SYN it knows `isn`, and its reassembler holds parts of
  -- the stream.
  pub record Tracks (r : TcpReceiver) : Type 0 where
    pub holds : Holds S N r.reassembler
    pub same_capacity : r.capacity ≡ r.reassembler.capacity
    pub knows_isn : r.syn ≡ true → r.isn ≡ isn
    pub isn_small : isn < 2 ^ 32
    pub capacity_small : r.capacity < 2 ^ 31
    pub stream_small : N + 1 < 2 ^ 32

  -- The receiver waits for less than its capacity.
  unassembled-le-capacity : (r : TcpReceiver) → Tracks r → unassembled_bytes r ≤ r.capacity
  unassembled-le-capacity r t =
      let lo = suc r.reassembler.output.totin in
      let hi = min (r.reassembler.output.totout + r.reassembler.capacity) N in
      elim (≤-cases hi lo) [
        | inl none_left ↦ omega (
          arith,
          t.holds.valid.counted,
          total_beyond S lo hi r.reassembler.unassembled_buffer none_left t.holds.valid.chunks,
        )
        | inr some_left ↦ omega (
          arith,
          t.holds.valid.counted,
          t.holds.valid.stream,
          total-le S lo hi r.reassembler.unassembled_buffer some_left t.holds.valid.chunks,
        )
      ]

  -- The payload of a genuine segment that is not a SYN is pushed at its own index.
  stream_index-Carries :
      (r : TcpReceiver) (index : ℕ) (seg : TcpSegment)
      → Tracks r
      → r.syn ≡ true
      → Carries S N isn index seg
      → stream_index r seg.header ≡ index
  unfolding stream_index absolute_index
  stream_index-Carries r index seg t known c = elim (Bool-cases seg.header.syn) [
    | inl s ↦ ground (arith, c.first s)
    | inr s ↦ ground (
      arith,
      ap (λ n. unwrap n (u32 r.isn) (unassembled_bytes r)) (c.later s),
      ap (λ k. unwrap (wrap (index + 1) isn) k (unassembled_bytes r)) isn_read,
      unwrap-wrap_small (index + 1) isn (unassembled_bytes r),
      unassembled-le-capacity r t,
      c.part.inside,
      t.isn_small,
      t.capacity_small,
      t.stream_small,
    )
  ]
    where
      isn_read : u32 r.isn ≡ isn
      isn_read = omega (arith, t.knows_isn known, t.isn_small)

  -- What `segment_received` does not drop: the SYN when there was none, all else when there was one.
  abbrev pub IsExpected : TcpReceiver → TcpSegment → Type 0
  IsExpected r seg = not seg.header.syn ≡ r.syn

  pub Tracks-after :
      (r r' : TcpReceiver)
      → Tracks r
      → Holds S N r'.reassembler
      → r'.reassembler.capacity ≡ r.reassembler.capacity
      → r'.capacity ≡ r.capacity
      → (r'.syn ≡ true → r'.isn ≡ isn)
      → Tracks r'
  Tracks-after r r' t h k c i = record {
    holds = h;
    same_capacity = c ∙ t.same_capacity ∙ sym k;
    knows_isn = i;
    isn_small = t.isn_small;
    capacity_small = omega (arith, t.capacity_small);
    stream_small = t.stream_small;
  }

  note_flags_lem :
      (r : TcpReceiver) (header : TcpHeader)
      → ((note_flags r header).reassembler ≡ r.reassembler)
        × ((note_flags r header).capacity ≡ r.capacity)
        × ((note_flags r header).syn ≡ (header.syn || r.syn))
        × ((note_flags r header).isn ≡ (if header.syn then header.seqno else r.isn))
  unfolding note_flags
  note_flags_lem r header = ground arith

  module _ (r : TcpReceiver) (index : ℕ) (seg : TcpSegment) (t : Tracks r)
      (c : Carries S N isn index seg) (e : IsExpected r seg) where
    noted : TcpReceiver
    noted = note_flags r seg.header

    noted-syn : noted.syn ≡ true
    unfolding noted
    noted-syn = ground (arith, note_flags_lem r seg.header)

    noted-isn : noted.isn ≡ isn
    unfolding noted
    noted-isn = ground (arith, note_flags_lem r seg.header, c.first, t.knows_isn)

    noted-Tracks : Tracks noted
    unfolding noted
    noted-Tracks =
        let l = note_flags_lem r seg.header in
        Tracks-after r noted t (subst (Holds S N) (sym l.0) t.holds) (ap (λ a. a.capacity) l.0) l.1
          (λ _. noted-isn)

    expected_lem : segment_received r seg ≡ record noted {
      reassembler =
          push_substring noted.reassembler seg.payload
            (stream_index noted seg.header)
            seg.header.fin;
    }
    unfolding segment_received noted
    expected_lem = ground arith

    -- On a receiver that tracks a stream, a segment that carries the part of the stream from
    -- `index` on, and is the first SYN or comes after it without one, is pushed into the
    -- reassembler at `index`, with the FIN flag as the end: the 32-bit number is read back without
    -- loss.
    pub segment_received-Carries :
        (segment_received r seg).reassembler
        ≡ push_substring r.reassembler seg.payload index seg.header.fin
    unfolding noted
    segment_received-Carries =
        ap (λ a. a.reassembler) expected_lem
        ∙ ap (λ k. push_substring noted.reassembler seg.payload k seg.header.fin)
            (stream_index-Carries noted index seg noted-Tracks noted-syn c)
        ∙ ap (λ a. push_substring a seg.payload index seg.header.fin)
            (note_flags_lem r seg.header).0

    received-Pushed :
        Pushed S N r.reassembler seg.payload index (segment_received r seg).reassembler
    received-Pushed = rw segment_received-Carries (
        push_substring-Pushed S N r.reassembler seg.payload index seg.header.fin t.holds.valid
          t.holds.ended c.part)

    received-Tracks : Tracks (segment_received r seg)
    unfolding noted
    received-Tracks =
        let p = received-Pushed in
        Tracks-after r (segment_received r seg) t (record { valid = p.valid; ended = p.ended })
          p.same_reader.1 (ap (λ a. a.capacity) expected_lem ∙ (note_flags_lem r seg.header).1)
          (λ _. ap (λ a. a.isn) expected_lem ∙ noted-isn)

  -- A segment that is not expected changes nothing.
  pub segment_received_unexpected :
      (r : TcpReceiver) (seg : TcpSegment) → seg.header.syn ≡ r.syn → segment_received r seg ≡ r
  unfolding segment_received
  segment_received_unexpected r seg e = ground arith

  IsExpected-cases :
      (r : TcpReceiver) (seg : TcpSegment) → (seg.header.syn ≡ r.syn) ⊎ IsExpected r seg
  IsExpected-cases r seg = ground arith

  blank-Holds :
      (q : StreamReassembler) (k : ℕ)
      → Holds S N q
      → Pushed S N q [] 0 (push_substring q [] k false)
  blank-Holds q k h = rw (push_substring_nil q k 0) (
      push_substring-Pushed S N q [] 0 false h.valid h.ended
        (record { whole = sym (slice_zero S 0); inside = omega arith; last = λ e. cc }))

  blank_known :
      (r : TcpReceiver) (seg : TcpSegment)
      → r.syn ≡ true
      → seg.payload ≡ []
      → seg.header.syn ≡ false
      → seg.header.fin ≡ false
      → segment_received r seg ≡ record r {
        reassembler = push_substring r.reassembler [] (stream_index r seg.header) false;
      }
  unfolding segment_received note_flags
  blank_known r seg k p s f = ground arith

  blank_unknown :
      (r : TcpReceiver) (seg : TcpSegment)
      → r.syn ≡ false
      → seg.header.syn ≡ false
      → segment_received r seg ≡ r
  unfolding segment_received
  blank_unknown r seg k s = ground arith

  blank-Tracks :
      (r : TcpReceiver) (seg : TcpSegment)
      → Tracks r
      → seg.payload ≡ []
      → seg.header.syn ≡ false
      → seg.header.fin ≡ false
      → Tracks (segment_received r seg)
  blank-Tracks r seg t p s f = elim (Bool-cases r.syn) [
    | inr unknown ↦ rw (blank_unknown r seg unknown s) t
    | inl known ↦
        let q = blank-Holds r.reassembler (stream_index r seg.header) t.holds in
        rw (blank_known r seg known p s f) (
          Tracks-after r
            (record r {
              reassembler = push_substring r.reassembler [] (stream_index r seg.header) false;
            })
            t (record { valid = q.valid; ended = q.ended }) q.same_reader.1 refl t.knows_isn)
  ]

  -- A receiver that tracks a stream (its reassembler holds parts of it, and it knows the initial
  -- number once it has the SYN) tracks it still after any genuine segment: one that carries a part
  -- of the stream numbered as the peer numbers it, or an empty one without SYN and FIN.
  pub segment_received-Tracks :
      (r : TcpReceiver) (seg : TcpSegment)
      → Tracks r
      → IsGenuine S N isn seg
      → Tracks (segment_received r seg)
  segment_received-Tracks r seg t (blank p s f) = blank-Tracks r seg t p s f
  segment_received-Tracks r seg t (carries index c) = elim (IsExpected-cases r seg) [
    | inl other ↦ rw (segment_received_unexpected r seg other) t
    | inr e ↦ received-Tracks r index seg t c e
  ]

  -- Segments add to the output; what was read stays.
  pub segment_received_reader :
      (r : TcpReceiver) (seg : TcpSegment)
      → Tracks r
      → IsGenuine S N isn seg
      → (segment_received r seg).reassembler.output.totout ≡ r.reassembler.output.totout
  segment_received_reader r seg t (blank p s f) = elim (Bool-cases r.syn) [
    | inr unknown ↦ rw (blank_unknown r seg unknown s)
    | inl known ↦
        rw (blank_known r seg known p s f)
          (blank-Holds r.reassembler (stream_index r seg.header) t.holds).same_reader.0
  ]
  segment_received_reader r seg t (carries index c) = elim (IsExpected-cases r seg) [
    | inl other ↦ rw (segment_received_unexpected r seg other)
    | inr e ↦ (received-Pushed r index seg t c e).same_reader.0
  ]

  -- A new receiver tracks any peer whose stream is short enough for 32-bit numbers.
  pub new-Tracks :
      (capacity : ℕ) → isn < 2 ^ 32 → capacity < 2 ^ 31 → N + 1 < 2 ^ 32 → Tracks (new capacity)
  unfolding new Reassembler.new
  new-Tracks capacity i c n = record {
    holds = new-Holds S N capacity (omega arith);
    same_capacity = refl;
    knows_isn = λ e. cc;
    isn_small = i;
    capacity_small = c;
    stream_small = n;
  }
