-- ===== src/SpongeSocket.antt =====
-- libsponge/tcp_helpers/tcp_sponge_socket.cc: the four rules by which a connection exchanges bytes with
-- its application and segments with its adapter, and how a connection is opened.
pub mod Rules
pub mod Loop
pub mod Serving
pub mod Delivery
pub mod Contract
pub mod Shutting
pub mod Rounds
pub mod Running
use cs144_lab.Base.{
  Bool, List, Option, [], false, if◌then◌else◌, length, ltb, min, none, not, some, true, ℕ, ◌&&◌,
  ◌==◌, ◌||◌, ◌∷◌,
}
use cs144_lab.ByteStream
use cs144_lab.Buffer.{view_of}
use cs144_lab.Connection
use cs144_lab.Connection.{
  TcpConfig, TcpConnection, bytes_in_flight, inbound, remaining_outbound_capacity,
}
use cs144_lab.FileDescriptor
use cs144_lab.FileDescriptor.{shut_wr, FileDescriptor, thrown, unfinished, written}
use cs144_lab.Segment.{TcpSegment}
use cs144_lab.TcpState
use cs144_lab.TcpState.{of_state, state, syn_sent}

-- `class TCPSpongeSocket`, while it has a connection. `write_shut` says that `shutdown(SHUT_WR)` was
-- called on `thread_data`.
pub record SpongeSocket : Type 0 where
  pub tcp : TcpConnection
  pub thread_data : FileDescriptor
  pub write_shut : Bool
  pub outbound_shutdown : Bool
  pub inbound_shutdown : Bool
  pub fully_acked : Bool

-- Rule 1, where the adapter's `read` gave `got`.
unfoldable pub datagram_ready : SpongeSocket → Option TcpSegment → SpongeSocket
datagram_ready s got =
    let tcp : TcpConnection = elim got [
      | none ↦ s.tcp
      | some seg ↦ Connection.segment_received s.tcp seg
    ] in
    record s {
      tcp = tcp;
      fully_acked = s.fully_acked || (s.thread_data.eof && bytes_in_flight tcp == 0);
    }

abbrev pub datagram_interest : SpongeSocket → Bool
datagram_interest s = s.tcp.active

-- The end of what the application writes: the cancellation of rule 2, and a part of its callback.
unfoldable pub outgoing_cancel : SpongeSocket → SpongeSocket
outgoing_cancel s = record s { tcp = Connection.end_input_stream s.tcp; outbound_shutdown = true }

-- Rule 2, where the kernel gives `answer` to the `read`; `none` is an exception.
unfoldable pub outgoing_ready : SpongeSocket → Option (List ℕ) → Option SpongeSocket
unfolding outgoing_cancel
outgoing_ready s answer =
    elim (FileDescriptor.read s.thread_data (remaining_outbound_capacity s.tcp) answer) [
      | none ↦ none
      | some (f, bytes) ↦
          let (tcp, amount_written) = Connection.write s.tcp bytes in
          let s' = record s { tcp = tcp; thread_data = f } in
          if not (amount_written == length bytes)
          then none
          else some (if f.eof then outgoing_cancel s' else s')
    ]

abbrev pub outgoing_interest : SpongeSocket → Bool
outgoing_interest s =
    s.tcp.active && (not s.outbound_shutdown && ltb 0 (remaining_outbound_capacity s.tcp))

-- The connection after its inbound stream has changed.
abbrev pub with_inbound : TcpConnection → ByteStream.ByteStream → TcpConnection
with_inbound c stream = record c {
  receiver = record c.receiver { reassembler = record c.receiver.reassembler { output = stream } };
}

-- Rule 3, where `kernel` answers the call of `writev`: the socket, and what the application is given.
unfoldable pub incoming_ready : SpongeSocket → (List ℕ → Option ℕ) → Option (SpongeSocket × List ℕ)
incoming_ready s kernel =
    let stream = inbound s.tcp in
    let buffer = ByteStream.peek_output stream (min 65536 (ByteStream.buffer_size stream)) in
    elim (FileDescriptor.write (λ k. kernel) false s.thread_data (view_of buffer)) [
      | written f sent n ↦
          let stream' = ByteStream.pop_output stream n in
          let ended = ByteStream.eof stream' || ByteStream.error stream' in
          some (
            record s {
              tcp = with_inbound s.tcp stream';
              thread_data = if ended then FileDescriptor.shutdown f shut_wr else f;
              write_shut = s.write_shut || ended;
              inbound_shutdown = s.inbound_shutdown || ended;
            },
            sent,
          )
      | thrown f sent ↦ none
      | unfinished sent ↦ none
    ]

abbrev pub incoming_interest : SpongeSocket → Bool
incoming_interest s =
    not (ByteStream.buffer_empty (inbound s.tcp))
    || ((ByteStream.eof (inbound s.tcp) || ByteStream.error (inbound s.tcp))
        && not s.inbound_shutdown)

-- Rule 4: the loop over the queue, with the `write` of the adapter, which may throw. A segment that it
-- throws at stays in the queue, its ports aside as it was.
module _ {A : Type 0} (adapter_write : A → TcpSegment → Option A) where
  pub send_all : A → List TcpSegment → A × List TcpSegment
  send_all a [] = (a, [])
  send_all a (seg ∷ segs) = elim (adapter_write a seg) [
    | none ↦ (a, seg ∷ segs)
    | some a' ↦ send_all a' segs
  ]

  unfoldable pub segments_ready : A → SpongeSocket → A × SpongeSocket
  unfolding send_all
  segments_ready a s =
      let (a', left) = send_all a s.tcp.segments_out in
      (a', record s { tcp = record s.tcp { segments_out = left } })

abbrev pub segments_interest : SpongeSocket → Bool
segments_interest s = not (length s.tcp.segments_out == 0)

-- `_initialize_TCP`; `random` is for the sender.
unfoldable pub initialize_tcp : FileDescriptor → TcpConfig → ℕ → SpongeSocket
initialize_tcp thread_data cfg random = record {
  tcp = Connection.new cfg random;
  thread_data = thread_data;
  write_shut = false;
  outbound_shutdown = false;
  inbound_shutdown = false;
  fully_acked = false;
}

-- `connect` up to its loop; `none` is the exception for an unexpected state.
unfoldable pub start_connect : SpongeSocket → Option SpongeSocket
start_connect s =
    let tcp = Connection.connect s.tcp in
    if TcpState.equal (state tcp) (of_state syn_sent) then some (record s { tcp = tcp }) else none
