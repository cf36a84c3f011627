-- ===== src/Sender.antt =====
-- libsponge/tcp_sender.{hh,cc}: a byte stream in, segments out, with retransmission.
pub mod Tiles
pub mod Invariant
pub mod Window
pub mod Outbound
pub mod Acknowledge
pub mod Timer
pub mod Application
use cs144_lab.Base.{
  Bool, List, Option, [], add32, add64, false, if◌then◌else◌, leb, length, ltb, min, none, not,
  some, sub64, suc, true, u32, zero, ℕ, ◌&&◌, ◌*◌, ◌++◌, ◌+◌, ◌==◌, ◌||◌, ◌∷◌,
}
use cs144_lab.Wrapping.{wrap, unwrap}
use cs144_lab.ByteStream
use cs144_lab.ByteStream.{ByteStream}
use cs144_lab.Segment.{TcpSegment, default_header, length_in_sequence_space, flag}

-- `TCPConfig::MAX_PAYLOAD_SIZE`
abbrev pub max_payload_size : ℕ
max_payload_size = 1000

-- An entry of the map `_segments_outgoing`.
pub record Outstanding : Type 0 where
  pub key : ℕ
  pub segment : TcpSegment

-- `class TCPSender`. The head of `segments_out` is the front of the queue, and
-- `segments_outgoing` is in the order of the keys.
pub record TcpSender : Type 0 where
  pub isn : ℕ
  pub segments_out : List TcpSegment
  pub initial_retransmission_timeout : ℕ
  pub stream : ByteStream
  pub next_seqno : ℕ
  pub retransmission_timeout : ℕ
  pub retransmission_timecount : ℕ
  pub consecutive_retransmissions : ℕ
  pub segments_outgoing : List Outstanding
  pub outgoing_bytes : ℕ
  pub syn : Bool
  pub fin : Bool
  pub win_size : ℕ

-- The constructor; `random` is what `random_device` yields.
unfoldable pub new : ℕ → ℕ → Option ℕ → ℕ → TcpSender
new capacity retx_timeout fixed_isn random = record {
  isn = elim fixed_isn [ none ↦ u32 random | some isn ↦ isn ];
  segments_out = [];
  initial_retransmission_timeout = retx_timeout;
  stream = ByteStream.new capacity;
  next_seqno = 0;
  retransmission_timeout = 0;
  retransmission_timecount = 0;
  consecutive_retransmissions = 0;
  segments_outgoing = [];
  outgoing_bytes = 0;
  syn = false;
  fin = false;
  win_size = 1;
}

abbrev pub bytes_in_flight : TcpSender → ℕ
bytes_in_flight s = s.outgoing_bytes

abbrev pub next_seqno_absolute : TcpSender → ℕ
next_seqno_absolute s = s.next_seqno

unfoldable pub relative_seqno : TcpSender → ℕ
relative_seqno s = wrap s.next_seqno s.isn

-- `std::map::insert`: a key that is there keeps its entry.
unfoldable pub insert : Outstanding → List Outstanding → List Outstanding
insert o [] = o ∷ []
insert o (p ∷ rest) =
    if ltb o.key p.key then o ∷ p ∷ rest else if o.key == p.key then p ∷ rest else p ∷ insert o rest

-- One round of the loop of `fill_window`, up to the test for an empty segment: what is read from
-- the stream, and the segment.
abbrev pub payload_size : ℕ → TcpSender → ℕ
payload_size win s = min max_payload_size (sub64 (sub64 win s.outgoing_bytes) (flag (not s.syn)))

unfoldable pub payload_of : ℕ → TcpSender → List ℕ
payload_of win s = (ByteStream.read s.stream (payload_size win s)).1

unfoldable pub stream_after : ℕ → TcpSender → ByteStream
stream_after win s = (ByteStream.read s.stream (payload_size win s)).0

unfoldable pub sends_fin : ℕ → TcpSender → Bool
sends_fin win s =
    not s.fin
    && (ByteStream.eof (stream_after win s)
        && ltb (add64 (length (payload_of win s)) s.outgoing_bytes) win)

unfoldable pub make_segment : ℕ → TcpSender → TcpSegment
make_segment win s = record {
  header = record default_header {
    seqno = relative_seqno s;
    syn = not s.syn;
    fin = sends_fin win s;
  };
  payload = payload_of win s;
}

unfoldable pub after_read : ℕ → TcpSender → TcpSender
after_read win s = record s {
  stream = stream_after win s;
  syn = true;
  fin = s.fin || sends_fin win s;
}

-- The rest of the round: the timer, the queues and the counters.
unfoldable pub send : TcpSender → TcpSegment → TcpSender
send s seg =
    let idle : Bool = elim s.segments_outgoing [ [] ↦ true | _ ∷ _ ↦ false ] in
    record s {
      retransmission_timeout =
          if idle then s.initial_retransmission_timeout else s.retransmission_timeout;
      retransmission_timecount = if idle then 0 else s.retransmission_timecount;
      segments_out = s.segments_out ++ (seg ∷ []);
      outgoing_bytes = add64 s.outgoing_bytes (length_in_sequence_space seg);
      segments_outgoing = insert (record { key = s.next_seqno; segment = seg }) s.segments_outgoing;
      next_seqno = add64 s.next_seqno (length_in_sequence_space seg);
    }

-- The state after a round that sends.
unfoldable pub round : ℕ → TcpSender → TcpSender
round win s = send (after_read win s) (make_segment win s)

-- The loop of `fill_window`.
unfoldable pub fill_loop : ℕ → ℕ → TcpSender → TcpSender
fill_loop zero win s = s
fill_loop (suc fuel) win s = elim (ltb s.outgoing_bytes win) [
  | false ↦ s
  | true ↦ elim (length_in_sequence_space (make_segment win s) == 0) [
    | true ↦ after_read win s
    | false ↦ elim (make_segment win s).header.fin [
      | true ↦ round win s
      | false ↦ fill_loop fuel win (round win s)
    ]
  ]
]

abbrev pub usable_window : TcpSender → ℕ
usable_window s = if s.win_size == 0 then 1 else s.win_size

-- A round that does not leave the loop puts a byte in flight, so the window bounds the rounds.
unfoldable pub fill_window : TcpSender → TcpSender
fill_window s = fill_loop (suc (usable_window s)) (usable_window s) s

-- The loop of `ack_received`, up to its `break`.
unfoldable pub drop_acked : ℕ → TcpSender → List Outstanding → TcpSender
drop_acked absolute_seqno s [] = record s { segments_outgoing = [] }
drop_acked absolute_seqno s (o ∷ rest) =
    elim (leb (add64 o.key (length_in_sequence_space o.segment)) absolute_seqno) [
      | true ↦
          drop_acked absolute_seqno
            (record s {
              outgoing_bytes = sub64 s.outgoing_bytes (length_in_sequence_space o.segment);
              retransmission_timeout = s.initial_retransmission_timeout;
              retransmission_timecount = 0;
            })
            rest
      | false ↦ record s { segments_outgoing = o ∷ rest }
    ]

unfoldable pub ack_received : TcpSender → ℕ → ℕ → TcpSender
ack_received s ackno window_size =
    let absolute_seqno = unwrap ackno s.isn s.next_seqno in
    if ltb s.next_seqno absolute_seqno
    then s
    else fill_window (record (drop_acked absolute_seqno s s.segments_outgoing) {
      win_size = window_size;
      consecutive_retransmissions = 0;
    })

-- The second half of `tick`, when the timer has run out and `o` is the oldest segment.
unfoldable pub retransmit : TcpSender → Outstanding → TcpSender
retransmit s o = record s {
  retransmission_timeout =
      if ltb 0 s.win_size then u32 (s.retransmission_timeout * 2) else s.retransmission_timeout;
  segments_out = s.segments_out ++ (o.segment ∷ []);
  consecutive_retransmissions = add32 s.consecutive_retransmissions 1;
  retransmission_timecount = 0;
}

unfoldable pub tick : TcpSender → ℕ → TcpSender
tick s ms =
    let s' = record s { retransmission_timecount = u32 (s.retransmission_timecount + ms) } in
    if leb s'.retransmission_timeout s'.retransmission_timecount
    then elim s.segments_outgoing [ [] ↦ s' | o ∷ _ ↦ retransmit s' o ]
    else s'

unfoldable pub send_empty_segment : TcpSender → TcpSender
send_empty_segment s = record s {
  segments_out =
      s.segments_out
      ++ (record { header = record default_header { seqno = relative_seqno s }; payload = [] }
          ∷ []);
}
