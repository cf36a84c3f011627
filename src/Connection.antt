-- ===== src/Connection.antt =====
-- libsponge/tcp_connection.{hh,cc}: a sender and a receiver make a TCP connection.
pub mod Parts
pub mod Invariant
pub mod Boundary
pub mod Outbound
pub mod Inbound
pub mod Closing
pub mod GivingUp
-- libsponge/tcp_helpers/tcp_config.hh: its configuration.
use cs144_lab.Base.{
  Bool, List, Option, [], add64, false, if◌then◌else◌, leb, length, ltb, none, not, some, true, u16,
  ℕ, ◌&&◌, ◌*◌, ◌++◌, ◌==◌, ◌||◌, ◌∷◌,
}
use cs144_lab.ByteStream
use cs144_lab.ByteStream.{ByteStream}
use cs144_lab.Segment.{TcpSegment, default_header, length_in_sequence_space}
use cs144_lab.Receiver
use cs144_lab.Receiver.{TcpReceiver}
use cs144_lab.Sender
use cs144_lab.Sender.{TcpSender}

-- `class TCPConfig`
pub record TcpConfig : Type 0 where
  pub rt_timeout : ℕ
  pub recv_capacity : ℕ
  pub send_capacity : ℕ
  pub fixed_isn : Option ℕ

abbrev pub default_capacity : ℕ
default_capacity = 64000

abbrev pub timeout_dflt : ℕ
timeout_dflt = 1000

abbrev pub max_retx_attempts : ℕ
max_retx_attempts = 8

abbrev pub default_config : TcpConfig
default_config = record {
  rt_timeout = timeout_dflt;
  recv_capacity = default_capacity;
  send_capacity = default_capacity;
  fixed_isn = none;
}

-- `class TCPConnection`
pub record TcpConnection : Type 0 where
  pub time_since_last_segment_received : ℕ
  pub active : Bool
  pub cfg : TcpConfig
  pub receiver : TcpReceiver
  pub sender : TcpSender
  pub segments_out : List TcpSegment
  pub linger_after_streams_finish : Bool

-- The constructor; `random` is what the sender draws from `random_device`.
unfoldable pub new : TcpConfig → ℕ → TcpConnection
new cfg random = record {
  time_since_last_segment_received = 0;
  active = true;
  cfg = cfg;
  receiver = Receiver.new cfg.recv_capacity;
  sender = Sender.new cfg.send_capacity cfg.rt_timeout cfg.fixed_isn random;
  segments_out = [];
  linger_after_streams_finish = true;
}

abbrev pub remaining_outbound_capacity : TcpConnection → ℕ
remaining_outbound_capacity c = ByteStream.remaining_capacity c.sender.stream

abbrev pub bytes_in_flight : TcpConnection → ℕ
bytes_in_flight c = Sender.bytes_in_flight c.sender

abbrev pub unassembled_bytes : TcpConnection → ℕ
unassembled_bytes c = Receiver.unassembled_bytes c.receiver

abbrev pub inbound : TcpConnection → ByteStream
inbound c = Receiver.stream_out c.receiver

abbrev pub outbound : TcpConnection → ByteStream
outbound c = c.sender.stream

-- What `send_segments` writes into the header of a segment.
unfoldable pub stamp : TcpReceiver → TcpSegment → TcpSegment
stamp r seg = elim (Receiver.ackno r) [
  | none ↦ seg
  | some ackno ↦ record seg {
    header = record seg.header { ack = true; ackno = ackno; win = u16 (Receiver.window_size r) };
  }
]

unfoldable pub stamp_all : TcpReceiver → List TcpSegment → List TcpSegment
stamp_all r [] = []
stamp_all r (seg ∷ segs) = stamp r seg ∷ stamp_all r segs

-- The loop of `send_segments`: all that the sender has queued goes out.
unfoldable pub flush : TcpConnection → TcpConnection
flush c = record c {
  sender = record c.sender { segments_out = [] };
  segments_out = c.segments_out ++ stamp_all c.receiver c.sender.segments_out;
}

-- The rest of it: whether to linger, and whether the connection is done.
unfoldable pub conclude : TcpConnection → TcpConnection
conclude c =
    if ByteStream.input_ended (inbound c)
    then (if not (ByteStream.eof (outbound c))
        then record c { linger_after_streams_finish = false }
        else if (Sender.bytes_in_flight c.sender == 0)
            && (not c.linger_after_streams_finish
                || leb (10 * c.cfg.rt_timeout) c.time_since_last_segment_received)
        then record c { active = false }
        else c)
    else c

unfoldable pub send_segments : TcpConnection → TcpConnection
send_segments c = conclude (flush c)

unfoldable pub reset_connection : TcpConnection → TcpConnection
reset_connection c = record c {
  receiver = record c.receiver {
    reassembler = record c.receiver.reassembler { output = ByteStream.set_error (inbound c) };
  };
  sender = record c.sender { stream = ByteStream.set_error (outbound c) };
  active = false;
  segments_out =
      c.segments_out
      ++ (record { header = record default_header { rst = true }; payload = [] } ∷ []);
}

-- The calls that `segment_received` makes on its two halves. A window is a `uint16_t`.
unfoldable pub acknowledge : TcpSegment → TcpConnection → TcpConnection
acknowledge seg c = record c {
  sender = Sender.ack_received c.sender seg.header.ackno (u16 seg.header.win);
}

unfoldable pub receive : TcpSegment → TcpConnection → TcpConnection
receive seg c = record c { receiver = Receiver.segment_received c.receiver seg }

unfoldable pub reply_empty : TcpConnection → TcpConnection
reply_empty c = record c { sender = Sender.send_empty_segment c.sender }

unfoldable pub fill_window : TcpConnection → TcpConnection
fill_window c = record c { sender = Sender.fill_window c.sender }

unfoldable pub connect : TcpConnection → TcpConnection
connect c = send_segments (fill_window c)

abbrev pub has_ackno : TcpReceiver → Bool
has_ackno r = elim (Receiver.ackno r) [ none ↦ false | some _ ↦ true ]

-- The conditions of `segment_received`, in its order, and the states that its comments name.
pub data Phase : Type 0 where
  closed syn_sent syn_rcvd estab fin_wait_1 fin_wait_2 time_wait other : Phase

abbrev pub fin_sent : TcpConnection → Bool
fin_sent c =
    ByteStream.eof (outbound c)
    && (c.sender.next_seqno == add64 (ByteStream.bytes_written (outbound c)) 2)

unfoldable pub phase : TcpConnection → Phase
phase c =
    let next = c.sender.next_seqno in
    let flight = c.sender.outgoing_bytes in
    let ended = ByteStream.input_ended (inbound c) in
    if next == 0
    then closed
    else if (next == flight) && not (has_ackno c.receiver)
    then syn_sent
    else if (next == flight) && (has_ackno c.receiver && not ended)
    then syn_rcvd
    else if ltb flight next && not (ByteStream.eof (outbound c))
    then estab
    else if fin_sent c && (ltb 0 flight && not ended)
    then fin_wait_1
    else if fin_sent c && ((flight == 0) && not ended)
    then fin_wait_2
    else if fin_sent c && ((flight == 0) && ended)
    then time_wait
    else other

-- What each branch does.
unfoldable pub handle : Phase → TcpSegment → TcpConnection → TcpConnection
handle closed seg c = if seg.header.syn then connect (receive seg c) else c
handle syn_sent seg c =
    if seg.header.syn && seg.header.ack
    then send_segments (reply_empty (receive seg (acknowledge seg c)))
    else if seg.header.syn && not seg.header.ack
    then send_segments (reply_empty (receive seg c))
    else c
handle syn_rcvd seg c = receive seg (acknowledge seg c)
handle estab seg c =
    let c' = receive seg (acknowledge seg c) in
    let c'' = if ltb 0 (length_in_sequence_space seg) then reply_empty c' else c' in
    send_segments (fill_window c'')
handle fin_wait_1 seg c =
    if seg.header.fin
    then send_segments (reply_empty (receive seg (acknowledge seg c)))
    else if seg.header.ack
    then send_segments (receive seg (acknowledge seg c))
    else c
handle fin_wait_2 seg c = send_segments (reply_empty (receive seg (acknowledge seg c)))
handle time_wait seg c =
    if seg.header.fin then send_segments (reply_empty (receive seg (acknowledge seg c))) else c
handle other seg c = send_segments (fill_window (receive seg (acknowledge seg c)))

-- A segment with the RST flag.
unfoldable pub abort : TcpConnection → TcpConnection
abort c = record c {
  receiver = record c.receiver {
    reassembler = record c.receiver.reassembler { output = ByteStream.set_error (inbound c) };
  };
  sender = record c.sender { stream = ByteStream.set_error (outbound c) };
  active = false;
}

unfoldable pub segment_received : TcpConnection → TcpSegment → TcpConnection
segment_received c seg =
    if c.active
    then (let c' = record c { time_since_last_segment_received = 0 } in
        if seg.header.rst then abort c' else handle (phase c') seg c')
    else c

-- The connection and how many bytes it took.
unfoldable pub write : TcpConnection → List ℕ → TcpConnection × ℕ
write c bytes =
    if length bytes == 0
    then (c, 0)
    else let (stream, n) = ByteStream.write (outbound c) bytes in
      (send_segments (fill_window (record c { sender = record c.sender { stream = stream } })), n)

unfoldable pub tick : TcpConnection → ℕ → TcpConnection
tick c ms =
    if c.active
    then (let c' = record c {
      time_since_last_segment_received = add64 c.time_since_last_segment_received ms;
      sender = Sender.tick c.sender ms;
    } in
        if ltb max_retx_attempts c'.sender.consecutive_retransmissions
        then reset_connection c'
        else send_segments c')
    else c

unfoldable pub end_input_stream : TcpConnection → TcpConnection
end_input_stream c = send_segments (
    fill_window
      (record c { sender = record c.sender { stream = ByteStream.end_input (outbound c) } }))
