-- ===== src/Sender/Invariant.antt =====
-- The state of a sender whose stream is `S`, `N` bytes long, and what a round of `fill_window`
-- does to it.
use cs144_lab.Base.{
  Bool-cases, List, [], add64, ap, arith, drop, false, inl, inr, length, length-drop, not, refl,
  slice, subst, sym, true, true≢false, ℕ, ◌++◌, ◌+◌, ◌-◌, ◌<◌, ◌^◌, ◌||◌, ◌∙◌, ◌∷◌, ◌≡◌, ◌≤◌,
}
use cs144_lab.Wrapping.{wrap}
use cs144_lab.Wrapping.Unwrap.{wrap_zero}
use cs144_lab.ByteStream
use cs144_lab.ByteStream.{ByteStream}
use cs144_lab.ByteStream.Laws.{read-IsValid}
use cs144_lab.ByteStream.Reference.{
  IsBuffered, read_out, length-read_out, read_left, read-IsBuffered,
}
use cs144_lab.Segment.{TcpSegment, length_in_sequence_space, flag}
use cs144_lab.Receiver.Genuine.{Carries, IsGenuine, carries}
use cs144_lab.Sender.{
  TcpSender, Outstanding, insert, payload_size, payload_of, stream_after, sends_fin, make_segment,
  after_read, send, round, relative_seqno,
}
use cs144_lab.Sender.Tiles.{IsSent, Tiles, insert-Tiles}

module _ (S : ℕ → ℕ) (N isn : ℕ) where
  abbrev pub AllGenuine : List TcpSegment → Type 0
  AllGenuine [] = Unit {0}
  AllGenuine (seg ∷ segs) = IsGenuine S N isn seg × AllGenuine segs

  pub AllGenuine-snoc :
      (segs : List TcpSegment) (seg : TcpSegment)
      → AllGenuine segs
      → IsGenuine S N isn seg
      → AllGenuine (segs ++ (seg ∷ []))
  AllGenuine-snoc [] seg a g = (g, tt)
  AllGenuine-snoc (s ∷ segs) seg a g = (a.0, AllGenuine-snoc segs seg a.1 g)

  pub AllGenuine-append :
      (xs ys : List TcpSegment) → AllGenuine xs → AllGenuine ys → AllGenuine (xs ++ ys)
  AllGenuine-append [] ys a b = b
  AllGenuine-append (x ∷ xs) ys a b = (a.0, AllGenuine-append xs ys a.1 b)

  pub record IsValid (s : TcpSender) : Type 0 where
    pub stream : ByteStream.Laws.IsValid s.stream
    pub buffered : IsBuffered S s.stream
    pub written-le : s.stream.totin ≤ N
    pub ended_complete : s.stream.is_input_end ≡ true → s.stream.totin ≡ N
    pub same_isn : s.isn ≡ isn
    pub numbered : s.next_seqno ≡ flag s.syn + s.stream.totout + flag s.fin
    pub unsent : s.syn ≡ false → (s.stream.totout ≡ 0) × (s.fin ≡ false)
    pub finished : s.fin ≡ true → s.stream.totout ≡ N
    pub in_flight : s.outgoing_bytes ≤ s.next_seqno
    pub tiles : Tiles S N isn (s.next_seqno - s.outgoing_bytes) s.next_seqno s.segments_outgoing
    pub genuine : AllGenuine s.segments_out
    pub small : N + 2 < 2 ^ 62
    pub isn_small : isn < 2 ^ 32

  module _ (win : ℕ) (s : TcpSender) (v : IsValid s) (room : s.outgoing_bytes < win)
      (narrow : win < 2 ^ 62) where
    abbrev pub count : ℕ
    count = length (payload_of win s)

    pub payload_lem :
        (payload_of win s ≡ slice S s.stream.totout count)
        × (count ≤ win - s.outgoing_bytes - flag (not s.syn))
        × (count ≤ length s.stream.buff)
    unfolding payload_of
    payload_lem =
        let n = length-read_out S s.stream (payload_size win s) v.stream v.buffered in
        (
          read_out S s.stream (payload_size win s) v.stream v.buffered
              ∙ ap (slice S s.stream.totout) (sym n),
          ground (arith, n, room, narrow),
          ground (arith, n),
        )

    pub stream_after_lem :
        stream_after win s
        ≡ record s.stream { totout = s.stream.totout + count; buff = drop count s.stream.buff }
    unfolding stream_after payload_of
    stream_after_lem =
        read_left S s.stream (payload_size win s) v.stream v.buffered
        ∙ ap (λ k. record s.stream { totout = s.stream.totout + k; buff = drop k s.stream.buff })
            (sym (length-read_out S s.stream (payload_size win s) v.stream v.buffered))

    -- The FIN goes with the last byte.
    pub sends_fin_lem : sends_fin win s ≡ true → (s.fin ≡ false) × (s.stream.totout + count ≡ N)
    unfolding sends_fin ByteStream.eof
    sends_fin_lem e = ground (
      arith,
      ap (λ q. q.is_input_end) stream_after_lem,
      ap (λ q. length q.buff) stream_after_lem,
      length-drop count s.stream.buff,
      payload_lem,
      v.stream.counted,
      v.ended_complete,
    )

    -- The segment of a round carries the next part of the stream.
    pub make_segment-Carries : s.fin ≡ false → Carries S N isn s.stream.totout (make_segment win s)
    unfolding make_segment relative_seqno
    make_segment-Carries open_end = record {
      part = record {
        whole = payload_lem.0;
        inside = omega (arith, payload_lem, v.stream.counted, v.written-le);
        last = λ e. (sends_fin_lem e).1;
      };
      first = λ e. syn_first e;
      later = λ e. syn_later e;
    }
      where
        syn_first : not s.syn ≡ true → (s.stream.totout ≡ 0) × (wrap s.next_seqno s.isn ≡ isn)
        syn_first e = ground (arith, v.unsent, v.numbered, v.same_isn, v.isn_small, wrap_zero isn)

        syn_later : not s.syn ≡ false → wrap s.next_seqno s.isn ≡ wrap (s.stream.totout + 1) isn
        syn_later e = ground (arith, v.numbered, v.same_isn, ap (λ k. wrap k isn) v.numbered)

    -- With the FIN sent there is nothing to send.
    make_segment_finished : s.fin ≡ true → length_in_sequence_space (make_segment win s) ≡ 0
    unfolding make_segment
    make_segment_finished e =
        ground (
          arith,
          v.finished e,
          v.unsent,
          payload_lem,
          v.stream.counted,
          v.written-le,
          sends_fin_lem,
        )

    pub still_open : 0 < length_in_sequence_space (make_segment win s) → s.fin ≡ false
    still_open occupied = elim (Bool-cases s.fin) [
      | inl e ↦ absurd (omega (arith, make_segment_finished e))
      | inr e ↦ e
    ]

    make_segment-IsSent :
        0 < length_in_sequence_space (make_segment win s)
        → IsSent S N isn s.next_seqno (make_segment win s)
    make_segment-IsSent occupied =
        let open_end = still_open occupied in
        record {
          carried =
              subst (λ k. Carries S N isn k (make_segment win s)) at_totout
                (make_segment-Carries open_end);
          behind_syn = λ e. syn_sent e;
          occupied = occupied;
        }
      where
        at_totout : s.stream.totout ≡ s.next_seqno - 1
        at_totout = ground (arith, still_open occupied, v.numbered, v.unsent)

        syn_sent : (make_segment win s).header.syn ≡ false → 0 < s.next_seqno
        syn_sent e = unfold make_segment in ground (arith, e, v.numbered)

    -- A round that finds nothing to send changes nothing.
    pub after_read_idle : length_in_sequence_space (make_segment win s) ≡ 0 → after_read win s ≡ s
    unfolding make_segment after_read
    after_read_idle e =
        ap (λ q. record s { stream = q; syn = true; fin = s.fin || sends_fin win s }) stream_same
        ∙ ground (arith)
      where
        stream_same : stream_after win s ≡ s.stream
        stream_same =
            stream_after_lem
            ∙ ap
                (λ k. record s.stream { totout = s.stream.totout + k; buff = drop k s.stream.buff })
                no_bytes
            ∙ ap (λ k. record s.stream { totout = k }) (omega arith)
          where
            no_bytes : count ≡ 0
            no_bytes = omega arith

    abbrev pub len : ℕ
    len = length_in_sequence_space (make_segment win s)

    pub len_lem : len ≡ count + flag (not s.syn) + flag (sends_fin win s)
    unfolding make_segment
    len_lem = refl

    -- The counters do not wrap.
    pub advance_lem :
        0 < len
        → (add64 s.next_seqno len ≡ s.next_seqno + len)
          × (add64 s.outgoing_bytes len ≡ s.outgoing_bytes + len)
    advance_lem occupied = ground (
      arith,
      still_open occupied,
      len_lem,
      payload_lem,
      v.numbered,
      v.stream.counted,
      v.written-le,
      v.small,
      v.in_flight,
    )

    -- A round that sends keeps the state: the new segment is a part of the stream, it joins those in
    -- flight, and the counters follow.
    pub round-IsValid : 0 < len → IsValid (round win s)
    unfolding round send after_read
    round-IsValid occupied =
        let open_end = still_open occupied in
        let a = advance_lem occupied in
        record {
          stream = unfold stream_after in read-IsValid s.stream (payload_size win s) v.stream;
          buffered =
              unfold stream_after in
              read-IsBuffered S s.stream (payload_size win s) v.stream v.buffered;
          written-le = rw stream_after_lem v.written-le;
          ended_complete = rw stream_after_lem v.ended_complete;
          same_isn = v.same_isn;
          numbered = ground (
            arith,
            open_end,
            a,
            len_lem,
            ap (λ q. q.totout) stream_after_lem,
            v.numbered,
            v.unsent,
          );
          unsent = λ e. absurd (true≢false e);
          finished =
              λ e. ground (arith, open_end, ap (λ q. q.totout) stream_after_lem, sends_fin_lem);
          in_flight = omega (arith, a, v.in_flight);
          tiles =
              rw (a.0, a.1)
                (subst (λ k. Tiles S N isn k (s.next_seqno + len) (insert sent s.segments_outgoing))
                  (omega (arith, v.in_flight))
                  (insert-Tiles S N isn (s.next_seqno - s.outgoing_bytes) s.next_seqno
                    s.segments_outgoing sent v.tiles refl (make_segment-IsSent occupied)));
          genuine =
              AllGenuine-snoc s.segments_out (make_segment win s) v.genuine
                (carries s.stream.totout (make_segment-Carries open_end));
          small = v.small;
          isn_small = v.isn_small;
        }
      where
        sent : Outstanding
        sent = record { key = s.next_seqno; segment = make_segment win s }

    -- What a round does to the window: the segment fits, but for a FIN behind a SYN in one segment.
    pub round_lem :
        0 < len
        → ((round win s).outgoing_bytes ≡ s.outgoing_bytes + len)
          × ((round win s).next_seqno ≡ s.next_seqno + len)
          × ((round win s).syn ≡ true)
          × (s.outgoing_bytes + len ≤ win + flag (not s.syn))
    unfolding round send after_read
    round_lem occupied = (
      (advance_lem occupied).1,
      (advance_lem occupied).0,
      refl,
      ground (arith, len_lem, payload_lem, fin_fits),
    )
      where
        fin_fits : sends_fin win s ≡ true → count + s.outgoing_bytes < win
        fin_fits e = unfold sends_fin in ground (arith, e, payload_lem, narrow)

    -- When a round finds nothing to send, all bytes are sent, and the FIN if the stream is ended.
    pub idle_lem :
        len ≡ 0 → (length s.stream.buff ≡ 0) × (s.stream.is_input_end ≡ true → s.fin ≡ true)
    idle_lem e = (nothing_left, fin_sent)
      where
        nothing_left : length s.stream.buff ≡ 0
        nothing_left =
            unfold payload_of in
            ground (
              arith,
              len_lem,
              length-read_out S s.stream (payload_size win s) v.stream v.buffered,
              room,
              narrow,
              e,
            )

        fin_sent : s.stream.is_input_end ≡ true → s.fin ≡ true
        fin_sent ended =
            unfold sends_fin ByteStream.eof in
            ground (
              arith,
              e,
              ended,
              len_lem,
              room,
              narrow,
              nothing_left,
              ap (λ q. q.is_input_end) stream_after_lem,
              ap (λ q. length q.buff) stream_after_lem,
              length-drop count s.stream.buff,
            )
