-- ===== src/SpongeSocket/Rules.antt =====
-- The rules of a socket lose no byte and no segment, and do not throw on their own account.
use cs144_lab.Base.{
  Bool-cases, List, Option, arith, false, inl, inr, length, ltb, min, none, refl, some, ℕ, ◌*◌,
  ◌++◌, ◌+◌, ◌<◌, ◌==◌, ◌^◌, ◌||◌, ◌≡◌, ◌≤◌, ◌⊎◌,
}
use cs144_lab.ByteStream
use cs144_lab.ByteStream.Laws.{remaining_capacity_lem, IsValid, write_lem}
use cs144_lab.Connection
use cs144_lab.FileDescriptor
use cs144_lab.SpongeSocket.{
  view_of, SpongeSocket, incoming_ready, initialize_tcp, outgoing_ready, start_connect,
}
use cs144_lab.TcpState
use cs144_lab.FileDescriptor.Streams.{write-peek_output}
use cs144_lab.Sender
use cs144_lab.Receiver
use cs144_lab.Reassembler
use cs144_lab.Buffer.{view_of}
use cs144_lab.FileDescriptor.Writing.{Outcome-cases}
use cs144_lab.Connection.{TcpConnection, TcpConfig, remaining_outbound_capacity, inbound, outbound}
use cs144_lab.FileDescriptor.{FileDescriptor}

-- What fits into the outbound stream is taken whole.
write_takes :
    (c : TcpConnection) (bytes : List ℕ)
    → IsValid (outbound c)
    → (outbound c).totin + length bytes < 2 ^ 64
    → length bytes ≤ remaining_outbound_capacity c
    → (Connection.write c bytes).1 ≡ length bytes
unfolding Connection.write
write_takes c bytes v room h = elim (Bool-cases (length bytes == 0)) [
  | inl empty ↦ ground (arith, empty)
  | inr full ↦
      rw (full, write_lem (outbound c) bytes v room)
        (ground (arith, h, remaining_capacity_lem (outbound c) v))
]

-- Where the outbound stream is valid and its count stays in 64 bits, the callback that reads from
-- the application throws only if the read of the kernel fails or gives more bytes than were asked
-- for: the connection takes every byte that is read.
pub outgoing_ready-none :
    (s : SpongeSocket) (answer : Option (List ℕ))
    → IsValid (outbound s.tcp)
    → (outbound s.tcp).totin + (outbound s.tcp).capacity < 2 ^ 64
    → outgoing_ready s answer ≡ none
    → (answer ≡ none)
      ⊎ ((bytes : List ℕ) × (answer ≡ some bytes)
          × (min (1024 * 1024) (remaining_outbound_capacity s.tcp) < length bytes))
unfolding outgoing_ready FileDescriptor.read
outgoing_ready-none s none v room h = inl refl
outgoing_ready-none s (some bytes) v room h =
    elim (Bool-cases (ltb (min (1024 * 1024) (remaining_outbound_capacity s.tcp)) (length bytes))) [
      | inl over ↦ inr (bytes, refl, ground arith)
      | inr fits ↦
          let room_left = remaining_capacity_lem (outbound s.tcp) v in
          let fitting : length bytes ≤ remaining_outbound_capacity s.tcp = ground arith in
          let took = write_takes s.tcp bytes v (omega arith) fitting in
          absurd (ground (arith, h, fits, took))
    ]

-- When the callback that writes to the application returns, the bytes that the kernel took followed
-- by those still in the inbound stream are the bytes that were in it before, and the inbound
-- direction is marked as shut if it was, or if the stream that remains is at its end or failed.
pub incoming_ready-some :
    (s s' : SpongeSocket) (kernel : List ℕ → Option ℕ) (sent : List ℕ)
    → incoming_ready s kernel ≡ some (s', sent)
    → let stream = inbound s.tcp in
      let stream' = inbound s'.tcp in
      (sent ++ stream'.buff ≡ stream.buff)
      × (s'.inbound_shutdown
          ≡ (s.inbound_shutdown || (ByteStream.eof stream' || stream'.has_error)))
unfolding incoming_ready
incoming_ready-some s s' kernel sent h =
    let stream = inbound s.tcp in
    let m = min 65536 (ByteStream.buffer_size stream) in
    let buffer = ByteStream.peek_output stream m in
    let result = FileDescriptor.write (λ k. kernel) false s.thread_data (view_of buffer) in
    elim (Outcome-cases result) [
      | inl (f, got, n, e) ↦
          ground (arith, h, e, write-peek_output kernel s.thread_data f stream got n e)
      | inr (inl (f, got, e)) ↦ ground (arith, h, e)
      | inr (inr (got, e)) ↦ ground (arith, h, e)
    ]

connect-state :
    (cfg : TcpConfig) (random : ℕ)
    → TcpState.state (Connection.connect (Connection.new cfg random))
      ≡ TcpState.of_state TcpState.State.syn_sent
unfolding Connection.new Connection.connect Connection.fill_window Connection.send_segments
    Connection.flush Connection.conclude Sender.new Sender.fill_window Sender.fill_loop Sender.round
    Sender.send Sender.make_segment Sender.payload_of Sender.stream_after Sender.after_read
    Sender.sends_fin Sender.relative_seqno Receiver.new Reassembler.new ByteStream.new
    ByteStream.read ByteStream.peek_output ByteStream.pop_output ByteStream.eof Receiver.ackno
    TcpState.summarize TcpState.of_state TcpState.receiver_summary TcpState.sender_summary
connect-state cfg random = refl

-- For every configuration and random number, `connect` on a new connection does not throw for an
-- unexpected state: the state after `TCPConnection::connect` is SYN_SENT.
pub start_connect-some :
    (f : FileDescriptor) (cfg : TcpConfig) (random : ℕ)
    → start_connect (initialize_tcp f cfg random)
      ≡ some (record (initialize_tcp f cfg random) {
        tcp = Connection.connect (Connection.new cfg random);
      })
unfolding start_connect initialize_tcp
start_connect-some f cfg random =
    rw (connect-state cfg random, TcpState.equal_self (TcpState.of_state TcpState.State.syn_sent))
      refl
