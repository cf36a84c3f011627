-- ===== src/Connection/Invariant.antt =====
-- The state of a connection: a sender of one stream, a receiver of another.
use cs144_lab.Base.{
  Bool-cases, List, [], add64, arith, inl, inr, length, ltb, refl, slice, true, u16, ℕ, ◌+◌, ◌<◌,
  ◌==◌, ◌^◌, ◌∙◌, ◌≡◌, ◌≤◌,
}
use cs144_lab.ByteStream
use cs144_lab.Segment.{TcpSegment, default_header, length_in_sequence_space}
use cs144_lab.Receiver.Genuine.{
  IsGenuine, blank, Tracks, segment_received-Tracks, segment_received_reader,
}
use cs144_lab.Sender
use cs144_lab.Sender.Invariant.{IsValid, AllGenuine, AllGenuine-snoc, AllGenuine-append}
use cs144_lab.Sender.Window.{fill_window-Filled, win_size-fill_window}
use cs144_lab.Sender.Acknowledge.{ack_received-IsValid, win_size-ack_received}
use cs144_lab.Sender.Timer.{
  tick-IsValid, send_empty_segment-IsValid, win_size-tick, win_size-send_empty_segment,
}
use cs144_lab.Sender.Application.{write-IsValid_sender, end_input-IsValid}
use cs144_lab.Connection.{
  TcpConnection, stamp_all, flush, conclude, send_segments, reset_connection, acknowledge, receive,
  reply_empty, fill_window, connect, abort, Phase, phase, handle, segment_received, write, tick,
  end_input_stream,
}
use cs144_lab.Connection.Parts.{stamp_all-AllGenuine, sender_failed, receiver_failed}

-- The stream that one end of a connection sends, its length, and its initial number.
pub record Stream : Type 0 where
  pub byte_at : ℕ → ℕ
  pub size : ℕ
  pub isn : ℕ

-- A connection sends the stream `own`, receives the stream `peer`, and has had `n` bytes of it read.
pub record Serves (own peer : Stream) (n : ℕ) (c : TcpConnection) : Type 0 where
  pub sender : IsValid own.byte_at own.size own.isn c.sender
  pub narrow : c.sender.win_size < 2 ^ 16
  pub receiver : Tracks peer.byte_at peer.size peer.isn c.receiver
  pub queued : AllGenuine own.byte_at own.size own.isn c.segments_out
  pub consumed : c.receiver.reassembler.output.totout ≡ n

-- A segment of the peer.
abbrev pub IsOf : Stream → TcpSegment → Type 0
IsOf peer seg = IsGenuine peer.byte_at peer.size peer.isn seg

-- The connection between the two steps of a tick.
abbrev pub ticked : TcpConnection → ℕ → TcpConnection
ticked c ms = record c {
  time_since_last_segment_received = add64 c.time_since_last_segment_received ms;
  sender = Sender.tick c.sender ms;
}

module _ (own peer : Stream) (n : ℕ) where
  pub receive-Serves :
      (c : TcpConnection) (seg : TcpSegment)
      → Serves own peer n c
      → IsOf peer seg
      → Serves own peer n (receive seg c)
  unfolding receive
  receive-Serves c seg v g = record {
    sender = v.sender;
    narrow = v.narrow;
    receiver = segment_received-Tracks peer.byte_at peer.size peer.isn c.receiver seg v.receiver g;
    queued = v.queued;
    consumed =
        segment_received_reader peer.byte_at peer.size peer.isn c.receiver seg v.receiver g
        ∙ v.consumed;
  }

  with_sender :
      (c : TcpConnection) (s : Sender.TcpSender)
      → Serves own peer n c
      → IsValid own.byte_at own.size own.isn s
      → s.win_size < 2 ^ 16
      → Serves own peer n (record c { sender = s })
  with_sender c s v w n = record {
    sender = w;
    narrow = n;
    receiver = v.receiver;
    queued = v.queued;
    consumed = v.consumed;
  }

  pub acknowledge-Serves :
      (c : TcpConnection) (seg : TcpSegment)
      → Serves own peer n c
      → IsOf peer seg
      → Serves own peer n (acknowledge seg c)
  unfolding acknowledge
  acknowledge-Serves c seg v g =
      with_sender c (Sender.ack_received c.sender seg.header.ackno (u16 seg.header.win)) v
        (ack_received-IsValid own.byte_at own.size own.isn c.sender seg.header.ackno
          (u16 seg.header.win) v.sender (omega arith))
        (win_size-ack_received c.sender seg.header.ackno (u16 seg.header.win) v.narrow
          (omega arith))

  pub reply_empty-Serves :
      (c : TcpConnection) → Serves own peer n c → Serves own peer n (reply_empty c)
  unfolding reply_empty
  reply_empty-Serves c v =
      with_sender c (Sender.send_empty_segment c.sender) v
        (send_empty_segment-IsValid own.byte_at own.size own.isn c.sender v.sender)
        (omega (arith, win_size-send_empty_segment c.sender, v.narrow))

  pub fill_window-Serves :
      (c : TcpConnection) → Serves own peer n c → Serves own peer n (fill_window c)
  unfolding fill_window
  fill_window-Serves c v =
      with_sender c (Sender.fill_window c.sender) v
        (fill_window-Filled own.byte_at own.size own.isn c.sender v.sender v.narrow).valid
        (omega (arith, win_size-fill_window c.sender, v.narrow))

  pub flush-Serves : (c : TcpConnection) → Serves own peer n c → Serves own peer n (flush c)
  unfolding flush
  flush-Serves c v = record {
    sender = ground (arith, v.sender);
    narrow = v.narrow;
    receiver = v.receiver;
    queued =
        AllGenuine-append own.byte_at own.size own.isn c.segments_out
          (stamp_all c.receiver c.sender.segments_out) v.queued
          (stamp_all-AllGenuine own.byte_at own.size own.isn c.receiver c.sender.segments_out
            v.sender.genuine);
    consumed = v.consumed;
  }

  conclude-Serves : (c : TcpConnection) → Serves own peer n c → Serves own peer n (conclude c)
  unfolding conclude
  conclude-Serves c v = ground arith

  pub send_segments-Serves :
      (c : TcpConnection) → Serves own peer n c → Serves own peer n (send_segments c)
  unfolding send_segments
  send_segments-Serves c v = conclude-Serves (flush c) (flush-Serves c v)

  abort-Serves : (c : TcpConnection) → Serves own peer n c → Serves own peer n (abort c)
  unfolding abort ByteStream.set_error
  abort-Serves c v = record {
    sender = sender_failed own.byte_at own.size own.isn c.sender v.sender;
    narrow = v.narrow;
    receiver = receiver_failed peer.byte_at peer.size peer.isn c.receiver v.receiver;
    queued = v.queued;
    consumed = v.consumed;
  }

  reset_connection-Serves :
      (c : TcpConnection) → Serves own peer n c → Serves own peer n (reset_connection c)
  unfolding reset_connection ByteStream.set_error
  reset_connection-Serves c v = record {
    sender = sender_failed own.byte_at own.size own.isn c.sender v.sender;
    narrow = v.narrow;
    receiver = receiver_failed peer.byte_at peer.size peer.isn c.receiver v.receiver;
    queued =
        AllGenuine-snoc own.byte_at own.size own.isn c.segments_out
          (record { header = record default_header { rst = true }; payload = [] }) v.queued
          (blank refl refl refl);
    consumed = v.consumed;
  }

  refilled :
      (c : TcpConnection) → Serves own peer n c → Serves own peer n (send_segments (fill_window c))
  refilled c v = send_segments-Serves (fill_window c) (fill_window-Serves c v)

  pub connect-Serves : (c : TcpConnection) → Serves own peer n c → Serves own peer n (connect c)
  unfolding connect
  connect-Serves c v = refilled c v

  -- The two halves take a segment in.
  pub both :
      (c : TcpConnection) (seg : TcpSegment)
      → Serves own peer n c
      → IsOf peer seg
      → Serves own peer n (receive seg (acknowledge seg c))
  both c seg v g = receive-Serves (acknowledge seg c) seg (acknowledge-Serves c seg v g) g

  replied :
      (c : TcpConnection) → Serves own peer n c → Serves own peer n (send_segments (reply_empty c))
  replied c v = send_segments-Serves (reply_empty c) (reply_empty-Serves c v)

  handle-Serves :
      (p : Phase) (c : TcpConnection) (seg : TcpSegment)
      → Serves own peer n c
      → IsOf peer seg
      → Serves own peer n (handle p seg c)
  unfolding handle
  handle-Serves Phase.closed c seg v g =
      ground (arith, connect-Serves (receive seg c) (receive-Serves c seg v g))
  handle-Serves Phase.syn_sent c seg v g = ground (
    arith,
    replied (receive seg (acknowledge seg c)) (both c seg v g),
    replied (receive seg c) (receive-Serves c seg v g),
  )
  handle-Serves Phase.syn_rcvd c seg v g = both c seg v g
  handle-Serves Phase.estab c seg v g =
      let c' = receive seg (acknowledge seg c) in
      let w = both c seg v g in
      elim (Bool-cases (ltb 0 (length_in_sequence_space seg))) [
        | inl some_data ↦ rw some_data (refilled (reply_empty c') (reply_empty-Serves c' w))
        | inr empty ↦ rw empty (refilled c' w)
      ]
  handle-Serves Phase.fin_wait_1 c seg v g = ground (
    arith,
    replied (receive seg (acknowledge seg c)) (both c seg v g),
    send_segments-Serves (receive seg (acknowledge seg c)) (both c seg v g),
  )
  handle-Serves Phase.fin_wait_2 c seg v g =
      replied (receive seg (acknowledge seg c)) (both c seg v g)
  handle-Serves Phase.time_wait c seg v g =
      ground (arith, replied (receive seg (acknowledge seg c)) (both c seg v g))
  handle-Serves Phase.other c seg v g = refilled (receive seg (acknowledge seg c)) (both c seg v g)

  pub segment_received-Serves :
      (c : TcpConnection) (seg : TcpSegment)
      → Serves own peer n c
      → IsOf peer seg
      → Serves own peer n (segment_received c seg)
  unfolding segment_received
  segment_received-Serves c seg v g =
      let c' : TcpConnection = record c { time_since_last_segment_received = 0 } in
      let w : Serves own peer n c' = ground (arith, v) in
      ground (arith, abort-Serves c' w, handle-Serves (phase c') c' seg w g)

  pub ticked-Serves :
      (c : TcpConnection) (ms : ℕ) → Serves own peer n c → Serves own peer n (ticked c ms)
  ticked-Serves c ms v = record {
    sender = tick-IsValid own.byte_at own.size own.isn c.sender ms v.sender;
    narrow = omega (arith, win_size-tick c.sender ms, v.narrow);
    receiver = v.receiver;
    queued = v.queued;
    consumed = v.consumed;
  }

  pub tick-Serves :
      (c : TcpConnection) (ms : ℕ) → Serves own peer n c → Serves own peer n (tick c ms)
  unfolding tick
  tick-Serves c ms v =
      let w = ticked-Serves c ms v in
      ground (arith, reset_connection-Serves (ticked c ms) w, send_segments-Serves (ticked c ms) w)

  pub write-Serves :
      (c : TcpConnection) (bytes : List ℕ)
      → Serves own peer n c
      → bytes ≡ slice own.byte_at c.sender.stream.totin (length bytes)
      → c.sender.stream.totin + length bytes ≤ own.size
      → Serves own peer n (write c bytes).0
  unfolding write
  write-Serves c bytes v next inside =
      let q : TcpConnection = record c {
        sender = record c.sender { stream = (ByteStream.write c.sender.stream bytes).0 };
      } in
      let w : Serves own peer n q =
        with_sender c q.sender v
          (write-IsValid_sender own.byte_at own.size own.isn c.sender v.sender bytes next inside)
          v.narrow in
      elim (Bool-cases (length bytes == 0)) [
        | inl none_given ↦ rw none_given v
        | inr given ↦ rw given (refilled q w)
      ]

  pub end_input_stream-Serves :
      (c : TcpConnection)
      → Serves own peer n c
      → c.sender.stream.totin ≡ own.size
      → Serves own peer n (end_input_stream c)
  unfolding end_input_stream
  end_input_stream-Serves c v e =
      refilled
        (record c { sender = record c.sender { stream = ByteStream.end_input c.sender.stream } })
        (with_sender c (record c.sender { stream = ByteStream.end_input c.sender.stream }) v
          (end_input-IsValid own.byte_at own.size own.isn c.sender v.sender e) v.narrow)
