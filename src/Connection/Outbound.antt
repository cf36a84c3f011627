-- ===== src/Connection/Outbound.antt =====
-- What reads, the end mark and the error mark keep of a byte stream, a connection keeps of its outbound
-- stream; only the writes of the application do more.
use cs144_lab.Base.{
  Bool-cases, List, ap, arith, inl, inr, length, min, refl, u16, ℕ, ◌+◌, ◌-◌, ◌<◌, ◌==◌, ◌^◌, ◌∙◌,
  ◌≡◌, ◌≤◌,
}
use cs144_lab.ByteStream
use cs144_lab.ByteStream.{ByteStream}
use cs144_lab.ByteStream.Laws.{IsValid, write_lem, remaining_capacity_lem}
use cs144_lab.Segment.{TcpSegment}
use cs144_lab.Sender
use cs144_lab.Sender.Outbound.{IsKept, fill_window_keeps, ack_received_keeps, tick_keeps}
use cs144_lab.Connection.{
  TcpConnection, outbound, remaining_outbound_capacity, flush, conclude, send_segments,
  reset_connection, acknowledge, receive, reply_empty, fill_window, connect, abort, Phase, phase,
  handle, segment_received, write, tick, end_input_stream,
}
use cs144_lab.Connection.Invariant.{ticked}

module _ (P : ByteStream → Type 0) (k : IsKept P) where
  send_segments_keeps : (c : TcpConnection) → P (outbound c) → P (outbound (send_segments c))
  unfolding send_segments flush conclude
  send_segments_keeps c p = ground arith

  refill_keeps : (c : TcpConnection) → P (outbound c) → P (outbound (send_segments (fill_window c)))
  unfolding fill_window
  refill_keeps c p =
      send_segments_keeps (record c { sender = Sender.fill_window c.sender })
        (fill_window_keeps P k c.sender p)

  reply_empty_keeps : (c : TcpConnection) → P (outbound c) → P (outbound (reply_empty c))
  unfolding reply_empty Sender.send_empty_segment
  reply_empty_keeps c p = p

  reply_keeps : (c : TcpConnection) → P (outbound c) → P (outbound (send_segments (reply_empty c)))
  reply_keeps c p = send_segments_keeps (reply_empty c) (reply_empty_keeps c p)

  receive_keeps :
      (c : TcpConnection) (seg : TcpSegment) → P (outbound c) → P (outbound (receive seg c))
  unfolding receive
  receive_keeps c seg p = p

  both_keep :
      (c : TcpConnection) (seg : TcpSegment)
      → P (outbound c)
      → P (outbound (receive seg (acknowledge seg c)))
  unfolding receive acknowledge
  both_keep c seg p = ack_received_keeps P k c.sender seg.header.ackno (u16 seg.header.win) p

  handle_keeps :
      (p : Phase) (c : TcpConnection) (seg : TcpSegment)
      → P (outbound c)
      → P (outbound (handle p seg c))
  unfolding handle connect
  handle_keeps Phase.closed c seg v =
      ground (arith, refill_keeps (receive seg c) (receive_keeps c seg v))
  handle_keeps q c seg v =
      let c' = receive seg (acknowledge seg c) in
      let c'' = receive seg c in
      let w : P (outbound c') = both_keep c seg v in
      let w' : P (outbound c'') = receive_keeps c seg v in
      ground (
        arith,
        w,
        w',
        reply_keeps c' w,
        reply_keeps c'' w',
        refill_keeps c' w,
        refill_keeps (reply_empty c') (reply_empty_keeps c' w),
        send_segments_keeps c' w,
      )

  pub segment_received_keeps :
      (c : TcpConnection) (seg : TcpSegment)
      → P (outbound c)
      → P (outbound (segment_received c seg))
  unfolding segment_received abort
  segment_received_keeps c seg p =
      let c' : TcpConnection = record c { time_since_last_segment_received = 0 } in
      ground (arith, handle_keeps (phase c') c' seg p, k.fails (outbound c) p)

  pub tick_keeps_outbound : (c : TcpConnection) (ms : ℕ) → P (outbound c) → P (outbound (tick c ms))
  unfolding tick reset_connection
  tick_keeps_outbound c ms p =
      let q : P (outbound (ticked c ms)) = tick_keeps P k c.sender ms p in
      ground (arith, send_segments_keeps (ticked c ms) q, k.fails (outbound (ticked c ms)) q)

  pub end_input_stream_keeps :
      (c : TcpConnection) → P (outbound c) → P (outbound (end_input_stream c))
  unfolding end_input_stream
  end_input_stream_keeps c p =
      refill_keeps
        (record c { sender = record c.sender { stream = ByteStream.end_input c.sender.stream } })
        (k.ends (outbound c) p)

  pub connect_keeps : (c : TcpConnection) → P (outbound c) → P (outbound (connect c))
  unfolding connect
  connect_keeps c p = refill_keeps c p

  pub write_keeps :
      (c : TcpConnection) (bytes : List ℕ)
      → P (outbound c)
      → P (ByteStream.write (outbound c) bytes).0
      → P (outbound (write c bytes).0)
  unfolding write
  write_keeps c bytes p q = elim (Bool-cases (length bytes == 0)) [
    | inl empty ↦ rw empty p
    | inr full ↦ rw full (
        refill_keeps
          (record c {
            sender = record c.sender { stream = (ByteStream.write c.sender.stream bytes).0 };
          })
          q)
  ]

-- What the application has written.
abbrev pub written : TcpConnection → ℕ
written c = (outbound c).totin

IsKept-totin : (k : ℕ) → IsKept (λ s. s.totin ≡ k)
unfolding ByteStream.read ByteStream.pop_output ByteStream.end_input ByteStream.set_error
IsKept-totin k = record { reads = λ s len e. e; ends = λ s e. e; fails = λ s e. e }

module _ (c : TcpConnection) where
  pub written-segment_received : (seg : TcpSegment) → written (segment_received c seg) ≡ written c
  written-segment_received seg =
      segment_received_keeps (λ s. s.totin ≡ written c) (IsKept-totin (written c)) c seg refl

  pub written-tick : (ms : ℕ) → written (tick c ms) ≡ written c
  written-tick ms =
      tick_keeps_outbound (λ s. s.totin ≡ written c) (IsKept-totin (written c)) c ms refl

  pub written-end_input_stream : written (end_input_stream c) ≡ written c
  written-end_input_stream =
      end_input_stream_keeps (λ s. s.totin ≡ written c) (IsKept-totin (written c)) c refl

  pub written-connect : written (connect c) ≡ written c
  written-connect = connect_keeps (λ s. s.totin ≡ written c) (IsKept-totin (written c)) c refl

  -- A write that fits moves the count on by its length.
  pub written-write :
      (bytes : List ℕ)
      → IsValid (outbound c)
      → written c + length bytes < 2 ^ 64
      → length bytes ≤ remaining_outbound_capacity c
      → (written (write c bytes).0 ≡ written c + length bytes) × ((write c bytes).1 ≡ length bytes)
  unfolding write
  written-write bytes v room h = elim (Bool-cases (length bytes == 0)) [
    | inl empty ↦ rw empty (ground (arith, empty), ground (arith, empty))
    | inr full ↦
        let wrote = write_lem (outbound c) bytes v room in
        let fits : min (length bytes) ((outbound c).capacity - length (outbound c).buff)
            ≡ length bytes =
          omega (arith, h, remaining_capacity_lem (outbound c) v) in
        let total = written c + length bytes in
        let q : TcpConnection = record c {
          sender = record c.sender { stream = (ByteStream.write c.sender.stream bytes).0 };
        } in
        rw full (
          refill_keeps (λ s. s.totin ≡ total) (IsKept-totin total) q
              (ap (λ t. t.0.totin) wrote ∙ ap (λ k. written c + k) fits),
          ap (λ t. t.1) wrote ∙ fits,
        )
  ]
