-- ===== src/Examples/Sockets.antt =====
-- Descriptors, adapters, sockets, the copy program and the event loop at concrete values.
use cs144_lab.Base.{
  List, Option, [], arith, false, length, min, none, refl, some, true, ℕ, ◌*◌, ◌++◌, ◌+◌, ◌<◌, ◌||◌,
  ◌∷◌, ◌≡◌, ◌≤◌, ◌⊎◌,
}
use cs144_lab.ByteStream
use cs144_lab.Buffer.{view_of, view_size, view_bytes, view_remove_prefix}
use cs144_lab.FileDescriptor
use cs144_lab.FileDescriptor.{FileDescriptor, write, write_loop, written}
use cs144_lab.FileDescriptor.Writing.{Takes, write-written}
use cs144_lab.Segment.{TcpSegment, default_header}
use cs144_lab.TcpOverIp.{Endpoint, FdAdapter}
use cs144_lab.TcpOverIp.RoundTrip.{addressed}
use cs144_lab.TcpOverUdp.{udp_read, udp_write, udp_read-udp_write}
use cs144_lab.Connection
use cs144_lab.Sender
use cs144_lab.Connection.{default_config, inbound, remaining_outbound_capacity}
use cs144_lab.SpongeSocket.{
  SpongeSocket, with_inbound, incoming_ready, initialize_tcp, outgoing_ready,
}
use cs144_lab.SpongeSocket.Rules.{outgoing_ready-none, incoming_ready-some}
use cs144_lab.EventLoop.{Rule, Direction, PollFd, PollAnswer, Result, set_up, wait_next_event}
use cs144_lab.EventLoop.Waiting.{
  AllServe, Serves, wait_next_event_returns, wait_next_event-other_error,
}

-- A kernel that takes one byte at a time.
abbrev one_byte : ℕ → List ℕ → Option ℕ
one_byte k [] = some 0
one_byte k (b ∷ bytes) = some 1

one_byte-Takes : Takes one_byte
one_byte-Takes = record { nothing = λ k. refl; something = takes }
  where
    takes :
        (k : ℕ) (bytes : List ℕ)
        → 0 < length bytes
        → (n : ℕ) × (one_byte k bytes ≡ some n) × (0 < n) × (n ≤ length bytes)
    takes k [] h = absurd (omega arith)
    takes k (b ∷ bytes) h = (1, refl, omega arith, omega arith)

write-written_example :
    (f' : FileDescriptor) × (write one_byte true (FileDescriptor.new 3) (view_of (7 ∷ 8 ∷ 9 ∷ []))
      ≡ written f' (view_bytes (view_of (7 ∷ 8 ∷ 9 ∷ []))) (view_size (view_of (7 ∷ 8 ∷ 9 ∷ []))))
unfolding view_size
write-written_example =
    write-written one_byte (FileDescriptor.new 3) (view_of (7 ∷ 8 ∷ 9 ∷ [])) one_byte-Takes
      (omega arith)

abbrev left_address : Endpoint
left_address = record { ipv4_numeric = 1; port = 1000 }

abbrev right_address : Endpoint
right_address = record { ipv4_numeric = 2; port = 80 }

abbrev left_end : FdAdapter
left_end = record { source = left_address; destination = right_address; listening = false }

abbrev right_end : FdAdapter
right_end = record { source = right_address; destination = left_address; listening = false }

abbrev greeting : TcpSegment
greeting = record { header = record default_header { seqno = 5; ack = true }; payload = 104 ∷ [] }

udp_read-udp_write_example :
    (bytes : List ℕ) × (k : ℕ) × (udp_write left_end greeting
      ≡ some (addressed left_end greeting, right_address, bytes))
    × (udp_read right_end left_address bytes ≡ (
      right_end,
      some (record (addressed left_end greeting) {
        header = record (addressed left_end greeting).header { cksum = k };
      }),
    ))
udp_read-udp_write_example =
    udp_read-udp_write left_end right_end left_address greeting (omega arith) (omega arith)
      (omega arith) refl refl

-- A socket whose stream takes four bytes.
abbrev small_socket : SpongeSocket
small_socket = initialize_tcp (FileDescriptor.new 4) (record default_config { send_capacity = 4 }) 0

abbrev five : List ℕ
five = 1 ∷ 2 ∷ 3 ∷ 4 ∷ 5 ∷ []

outgoing_ready-none_example :
    (some five ≡ none)
    ⊎ ((bytes : List ℕ) × (some five ≡ some bytes)
        × (min (1024 * 1024) (remaining_outbound_capacity small_socket.tcp) < length bytes))
unfolding initialize_tcp outgoing_ready FileDescriptor.read FileDescriptor.new Connection.new
    Sender.new ByteStream.new ByteStream.remaining_capacity
outgoing_ready-none_example =
    outgoing_ready-none small_socket (some five) (omega arith) (omega arith) refl

-- The stream that the peer sent has two bytes.
abbrev arrived : ByteStream.ByteStream
arrived = (ByteStream.write (ByteStream.new 10) (5 ∷ 6 ∷ [])).0

abbrev given_socket : SpongeSocket
given_socket = record small_socket { tcp = with_inbound small_socket.tcp arrived }

abbrev drained_socket : SpongeSocket
drained_socket = record small_socket {
  tcp = with_inbound small_socket.tcp (ByteStream.pop_output arrived 1);
  thread_data = FileDescriptor.register_write small_socket.thread_data;
}

drains_one : incoming_ready given_socket (one_byte 0) ≡ some (drained_socket, 5 ∷ [])
unfolding incoming_ready write write_loop view_remove_prefix view_size view_bytes ByteStream.write
    ByteStream.new ByteStream.pop_output ByteStream.peek_output ByteStream.remaining_capacity
    ByteStream.eof initialize_tcp Connection.new FileDescriptor.register_write FileDescriptor.new
drains_one = refl

incoming_ready-some_example :
    let stream = inbound given_socket.tcp in
    let stream' = inbound drained_socket.tcp in
    ((5 ∷ []) ++ stream'.buff ≡ stream.buff)
    × (drained_socket.inbound_shutdown
        ≡ (given_socket.inbound_shutdown || (ByteStream.eof stream' || stream'.has_error)))
incoming_ready-some_example =
    incoming_ready-some given_socket drained_socket (one_byte 0) (5 ∷ []) drains_one

-- One descriptor, with a rule that reads it.
abbrev the_descriptor : FileDescriptor → ℕ → FileDescriptor
the_descriptor w n = w

abbrev reading : Rule FileDescriptor
reading = record {
  fd = 3;
  direction = Direction.input;
  callback = λ w. some (record w { read_count = w.read_count + 1 });
  interest = λ w. true;
  cancel = λ w. w;
}

abbrev idle_poll : FileDescriptor → List PollFd → PollAnswer
idle_poll w ps = PollAnswer.nothing

abbrev failing_poll : FileDescriptor → List PollFd → PollAnswer
failing_poll w ps = PollAnswer.other_error

-- Never closed.
abbrev IsOpen : FileDescriptor → Type 0
IsOpen w = w.closed ≡ false

reading-Serves : Serves the_descriptor IsOpen reading
reading-Serves = record {
  serves = λ w h. (record w { read_count = w.read_count + 1 }, refl, ground arith, h);
  cancels = λ w h. h;
}

wait_next_event_returns_example :
    (result : Result) × (rules' : List (Rule FileDescriptor)) × (w' : FileDescriptor)
    × (wait_next_event the_descriptor idle_poll (reading ∷ []) (FileDescriptor.new 3)
        ≡ some (result, rules', w'))
    × AllServe the_descriptor IsOpen rules'
    × IsOpen w'
unfolding FileDescriptor.new
wait_next_event_returns_example =
    wait_next_event_returns the_descriptor IsOpen idle_poll (reading ∷ []) (FileDescriptor.new 3)
      (λ w ps. tt) (reading-Serves, tt) refl

wait_next_event-other_error_example :
    let out = set_up the_descriptor (reading ∷ []) (FileDescriptor.new 3) in
    wait_next_event the_descriptor failing_poll (reading ∷ []) (FileDescriptor.new 3)
    ≡ some (Result.success, out.0, out.3)
unfolding set_up FileDescriptor.new
wait_next_event-other_error_example =
    wait_next_event-other_error the_descriptor failing_poll (reading ∷ []) (FileDescriptor.new 3)
      refl refl
