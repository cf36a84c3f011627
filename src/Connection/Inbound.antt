-- ===== src/Connection/Inbound.antt =====
-- What segments and the error mark keep of a receiver, a connection keeps of its own.
use cs144_lab.Base.{List, arith, subst, sym, ℕ, ◌≡◌}
use cs144_lab.ByteStream
use cs144_lab.Receiver
use cs144_lab.Receiver.{TcpReceiver}
use cs144_lab.Segment.{TcpSegment}
use cs144_lab.Connection.Invariant.{ticked}
use cs144_lab.Connection.{
  TcpConnection, flush, conclude, send_segments, reset_connection, acknowledge, receive,
  reply_empty, fill_window, connect, abort, Phase, phase, handle, segment_received, write, tick,
  end_input_stream,
}

-- The receiver with its output marked as failed.
abbrev pub failed : TcpReceiver → TcpReceiver
failed r = record r {
  reassembler = record r.reassembler { output = ByteStream.set_error r.reassembler.output };
}

receiver-send_segments : (c : TcpConnection) → (send_segments c).receiver ≡ c.receiver
unfolding send_segments flush conclude
receiver-send_segments c = ground arith

pub receiver-connect : (c : TcpConnection) → (connect c).receiver ≡ c.receiver
unfolding connect fill_window
receiver-connect c = receiver-send_segments (fill_window c)

pub receiver-write : (c : TcpConnection) (bytes : List ℕ) → (write c bytes).0.receiver ≡ c.receiver
unfolding write fill_window
receiver-write c bytes =
    let q : TcpConnection = record c {
      sender = record c.sender { stream = (ByteStream.write c.sender.stream bytes).0 };
    } in
    ground (arith, receiver-send_segments (fill_window q))

pub receiver-end_input_stream : (c : TcpConnection) → (end_input_stream c).receiver ≡ c.receiver
unfolding end_input_stream fill_window
receiver-end_input_stream c = receiver-send_segments (
    fill_window
      (record c { sender = record c.sender { stream = ByteStream.end_input c.sender.stream } }))

module _ (Q : TcpReceiver → Type 0) where
  sends : (c : TcpConnection) → Q c.receiver → Q (send_segments c).receiver
  sends c q = subst Q (sym (receiver-send_segments c)) q

  handle_keeps_receiver :
      (p : Phase) (c : TcpConnection) (seg : TcpSegment)
      → Q c.receiver
      → Q (Receiver.segment_received c.receiver seg)
      → Q (handle p seg c).receiver
  unfolding handle receive acknowledge reply_empty fill_window connect
  handle_keeps_receiver Phase.closed c seg q r =
      ground (arith, q, sends (fill_window (receive seg c)) r)
  handle_keeps_receiver p c seg q r =
      let c' = receive seg (acknowledge seg c) in
      let c'' = receive seg c in
      ground (
        arith,
        q,
        r,
        sends c' r,
        sends (reply_empty c') r,
        sends (reply_empty c'') r,
        sends (fill_window c') r,
        sends (fill_window (reply_empty c')) r,
      )

  module _ (fails : (r : TcpReceiver) → Q r → Q (failed r)) where
    pub tick_keeps_receiver : (c : TcpConnection) (ms : ℕ) → Q c.receiver → Q (tick c ms).receiver
    unfolding tick reset_connection
    tick_keeps_receiver c ms q = ground (arith, q, fails c.receiver q, sends (ticked c ms) q)

    pub segment_received_keeps_receiver :
        (c : TcpConnection) (seg : TcpSegment)
        → Q c.receiver
        → Q (Receiver.segment_received c.receiver seg)
        → Q (segment_received c seg).receiver
    unfolding segment_received abort
    segment_received_keeps_receiver c seg q r =
        let c' : TcpConnection = record c { time_since_last_segment_received = 0 } in
        ground (arith, q, fails c.receiver q, handle_keeps_receiver (phase c') c' seg q r)
