-- ===== src/Connection/Closing.antt =====
-- When a connection stops being active.
use cs144_lab.Base.{<-cases, Bool-cases, add64, arith, false, inl, inr, ltb, true, ℕ, ◌<◌, ◌≡◌, ◌⊎◌}
use cs144_lab.ByteStream
use cs144_lab.Segment.{TcpSegment, length_in_sequence_space}
use cs144_lab.Sender
use cs144_lab.Connection.{
  max_retx_attempts, TcpConnection, inbound, outbound, flush, conclude, send_segments,
  reset_connection, acknowledge, receive, reply_empty, fill_window, connect, abort, Phase, phase,
  handle, segment_received, tick,
}
use cs144_lab.Connection.Invariant.{
  ticked-Serves, receive-Serves, both, fill_window-Serves, reply_empty-Serves, flush-Serves, Stream,
  Serves, IsOf,
}

-- All of the peer's stream has been received, and all of the own one sent and acknowledged.
pub record IsDone (own peer : Stream) (c : TcpConnection) : Type 0 where
  pub received : (inbound c).totin ≡ peer.size
  pub sent : (outbound c).totout ≡ own.size
  pub acknowledged : c.sender.outgoing_bytes ≡ 0

-- Both streams are marked as failed.
pub record IsBroken (c : TcpConnection) : Type 0 where
  pub inbound_failed : (inbound c).has_error ≡ true
  pub outbound_failed : (outbound c).has_error ≡ true

module _ (own peer : Stream) (n : ℕ) where
  conclude_closes :
      (c : TcpConnection)
      → Serves own peer n c
      → c.active ≡ true
      → (conclude c).active ≡ false
      → IsDone own peer (conclude c)
  unfolding conclude ByteStream.eof
  conclude_closes c v on off = ground (
    arith, v.receiver.holds.valid.ended_complete, v.sender.ended_complete, v.sender.stream.counted,
  )

  send_segments_closes :
      (c : TcpConnection)
      → Serves own peer n c
      → c.active ≡ true
      → (send_segments c).active ≡ false
      → IsDone own peer (send_segments c)
  unfolding send_segments
  send_segments_closes c v on off =
      conclude_closes (flush c) (flush-Serves own peer n c v) (unfold flush in on) off

  reply_closes :
      (c : TcpConnection)
      → Serves own peer n c
      → c.active ≡ true
      → (send_segments (reply_empty c)).active ≡ false
      → IsDone own peer (send_segments (reply_empty c))
  reply_closes c v on off =
      send_segments_closes (reply_empty c) (reply_empty-Serves own peer n c v)
        (unfold reply_empty in on) off

  fill_closes :
      (c : TcpConnection)
      → Serves own peer n c
      → c.active ≡ true
      → (send_segments (fill_window c)).active ≡ false
      → IsDone own peer (send_segments (fill_window c))
  fill_closes c v on off =
      send_segments_closes (fill_window c) (fill_window-Serves own peer n c v)
        (unfold fill_window in on) off

  module _ (c : TcpConnection) (seg : TcpSegment) (v : Serves own peer n c) (g : IsOf peer seg)
      (on : c.active ≡ true) where
    both_active : (receive seg (acknowledge seg c)).active ≡ true
    unfolding receive acknowledge
    both_active = on

    taken : Serves own peer n (receive seg (acknowledge seg c))
    taken = both own peer n c seg v g

    receive_active : (receive seg c).active ≡ true
    unfolding receive
    receive_active = on

    received : Serves own peer n (receive seg c)
    received = receive-Serves own peer n c seg v g

    handle_closes : (p : Phase) → (handle p seg c).active ≡ false → IsDone own peer (handle p seg c)
    unfolding handle connect
    handle_closes Phase.closed off =
        ground (arith, fill_closes (receive seg c) received receive_active)
    handle_closes Phase.syn_sent off = ground (
      arith,
      reply_closes (receive seg (acknowledge seg c)) taken both_active,
      reply_closes (receive seg c) received receive_active,
    )
    handle_closes Phase.syn_rcvd off = cc (both_active)
    handle_closes Phase.estab off = elim (Bool-cases (ltb 0 (length_in_sequence_space seg))) [
      | inl some_data ↦ rw some_data (
          fill_closes (reply_empty (receive seg (acknowledge seg c)))
            (reply_empty-Serves own peer n (receive seg (acknowledge seg c)) taken)
            (unfold reply_empty in both_active) (rw some_data at off))
      | inr empty ↦
          rw empty
            (fill_closes (receive seg (acknowledge seg c)) taken both_active (rw empty at off))
    ]
    handle_closes Phase.fin_wait_1 off = ground (
      arith,
      reply_closes (receive seg (acknowledge seg c)) taken both_active,
      send_segments_closes (receive seg (acknowledge seg c)) taken both_active,
    )
    handle_closes Phase.fin_wait_2 off =
        reply_closes (receive seg (acknowledge seg c)) taken both_active off
    handle_closes Phase.time_wait off =
        ground (arith, reply_closes (receive seg (acknowledge seg c)) taken both_active)
    handle_closes Phase.other off =
        fill_closes (receive seg (acknowledge seg c)) taken both_active off

  -- When a segment of the peer makes an active connection that is sound for the two streams
  -- inactive, either the segment has the RST flag and both streams are marked as failed, or all of
  -- the stream of the peer was received and all of the own one read from the outbound stream, with
  -- nothing left in flight.
  pub segment_received_closes :
      (c : TcpConnection) (seg : TcpSegment)
      → Serves own peer n c
      → IsOf peer seg
      → c.active ≡ true
      → (segment_received c seg).active ≡ false
      → ((seg.header.rst ≡ true) × IsBroken (segment_received c seg))
        ⊎ IsDone own peer (segment_received c seg)
  unfolding segment_received abort ByteStream.set_error
  segment_received_closes c seg v g on off =
      let c' : TcpConnection = record c { time_since_last_segment_received = 0 } in
      let w : Serves own peer n c' = ground (arith, v) in
      elim (Bool-cases seg.header.rst) [
        | inl torn ↦ inl (torn, ground arith)
        | inr fine ↦ inr (ground (arith, handle_closes c' seg w g on (phase c')))
      ]

  -- When a tick makes an active connection that is sound for the two streams inactive, either the
  -- sender has then timed out more often in a row than `max_retx_attempts` and both streams are
  -- marked as failed, or all of the stream of the peer was received and all of the own one read
  -- from the outbound stream, with nothing left in flight.
  pub tick_closes :
      (c : TcpConnection) (ms : ℕ)
      → Serves own peer n c
      → c.active ≡ true
      → (tick c ms).active ≡ false
      → ((max_retx_attempts < (Sender.tick c.sender ms).consecutive_retransmissions)
          × IsBroken (tick c ms))
        ⊎ IsDone own peer (tick c ms)
  unfolding tick reset_connection ByteStream.set_error
  tick_closes c ms v on off =
      let c' : TcpConnection = record c {
        time_since_last_segment_received = add64 c.time_since_last_segment_received ms;
        sender = Sender.tick c.sender ms;
      } in
      elim (<-cases max_retx_attempts c'.sender.consecutive_retransmissions) [
        | inl many ↦ inl (many, ground arith)
        | inr few ↦
            inr (ground (arith, send_segments_closes c' (ticked-Serves own peer n c ms v) on))
      ]
