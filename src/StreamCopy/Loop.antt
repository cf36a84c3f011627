-- ===== src/StreamCopy/Loop.antt =====
-- apps/bidirectional_stream_copy.cc: the four rules in the event loop, and the loop over it.
use cs144_lab.Base.{List, Option, [], if◌then◌else◌, min, none, some, ℕ, ◌==◌, ◌∷◌}
use cs144_lab.ByteStream
use cs144_lab.EventLoop.{is_exit, Direction, PollAnswer, PollFd, Rule, wait_next_event}
use cs144_lab.FileDescriptor
use cs144_lab.FileDescriptor.{FileDescriptor}
use cs144_lab.StreamCopy.{
  Pipe, fill, fill_interest, drain_socket, drain_output, drain_interest, cancel, new,
}

-- What the kernel does: the bytes that the standard input and the socket give, and how many of those
-- that they are offered the socket and the standard output take.
pub record Kernel (E : Type 0) : Type 0 where
  pub input_read : E → ℕ → E × Option (List ℕ)
  pub socket_read : E → ℕ → E × Option (List ℕ)
  pub socket_write : E → List ℕ → Option ℕ
  pub output_write : E → List ℕ → Option ℕ

-- The two ways, and what is outside. The socket is one descriptor, at the end of the one way and at the
-- beginning of the other.
pub record Copy (E : Type 0) : Type 0 where
  pub outbound : Pipe
  pub inbound : Pipe
  pub outside : E

abbrev pub with_outbound : {E : Type 0} → Pipe → Copy E → Copy E
with_outbound p w = record w { outbound = p; inbound = record w.inbound { from = p.to } }

abbrev pub with_inbound : {E : Type 0} → Pipe → Copy E → Copy E
with_inbound p w = record w { inbound = p; outbound = record w.outbound { to = p.from } }

-- What a read asks the kernel for.
abbrev pub asked : Pipe → ℕ
asked p = min FileDescriptor.buffer_size (ByteStream.remaining_capacity p.stream)

-- The standard input is number 0, the standard output 1, the socket 2.
abbrev pub descriptor : {E : Type 0} → Copy E → ℕ → FileDescriptor
descriptor w n = if n == 0 then w.outbound.from else if n == 1 then w.inbound.to else w.outbound.to

module _ {E : Type 0} (kernel : Kernel E) where
  unfoldable pub reads_input : Rule (Copy E)
  reads_input = record {
    fd = 0;
    direction = Direction.input;
    callback = λ w.
        let (e, answer) = kernel.input_read w.outside (asked w.outbound) in
        elim (fill w.outbound answer) [
          | none ↦ none
          | some p ↦ some (record w { outbound = p; outside = e })
        ];
    interest = λ w. fill_interest w.outbound w.inbound.stream;
    cancel = λ w. record w { outbound = cancel w.outbound };
  }

  unfoldable pub writes_socket : Rule (Copy E)
  writes_socket = record {
    fd = 2;
    direction = Direction.output;
    callback = λ w. elim (drain_socket w.outbound (kernel.socket_write w.outside)) [
      | none ↦ none
      | some p ↦ some (with_outbound p w)
    ];
    interest = λ w. drain_interest w.outbound;
    cancel = λ w. record w { outbound = cancel w.outbound };
  }

  unfoldable pub reads_socket : Rule (Copy E)
  reads_socket = record {
    fd = 2;
    direction = Direction.input;
    callback = λ w.
        let (e, answer) = kernel.socket_read w.outside (asked w.inbound) in
        elim (fill w.inbound answer) [
          | none ↦ none
          | some p ↦ some (with_inbound p (record w { outside = e }))
        ];
    interest = λ w. fill_interest w.inbound w.outbound.stream;
    cancel = λ w. record w { inbound = cancel w.inbound };
  }

  unfoldable pub writes_output : Rule (Copy E)
  writes_output = record {
    fd = 1;
    direction = Direction.output;
    callback = λ w. elim (drain_output w.inbound (kernel.output_write w.outside)) [
      | none ↦ none
      | some p ↦ some (record w { inbound = p })
    ];
    interest = λ w. drain_interest w.inbound;
    cancel = λ w. record w { inbound = cancel w.inbound };
  }

  abbrev pub rules : List (Rule (Copy E))
  rules = reads_input ∷ writes_socket ∷ reads_socket ∷ writes_output ∷ []

-- One round of the loop: what happens outside while it waits, and the answer of `poll`.
pub record Round (E : Type 0) : Type 0 where
  pub elapse : Copy E → E
  pub poll : Copy E → List PollFd → PollAnswer

-- The program has returned, or waits for another round, or an exception has left it.
pub data CopyEnd (E : Type 0) : Type 0 where
  returned waiting : Copy E → CopyEnd E
  thrown : CopyEnd E

-- The loop, for at most as many rounds as are given.
unfoldable pub copy_loop : {E : Type 0} → List (Round E) → List (Rule (Copy E)) → Copy E → CopyEnd E
copy_loop [] rs w = waiting w
copy_loop (round ∷ rounds) rs w =
    elim (wait_next_event descriptor round.poll rs (record w { outside = round.elapse w })) [
      | none ↦ thrown
      | some (result, rs', w') ↦
          let again = copy_loop rounds rs' w' in if is_exit result then returned w' else again
    ]

-- `bidirectional_stream_copy`, on the standard input, the standard output and a socket.
unfoldable pub bidirectional_stream_copy :
    {E : Type 0}
    → Kernel E
    → List (Round E)
    → FileDescriptor
    → FileDescriptor
    → FileDescriptor
    → E
    → CopyEnd E
unfolding copy_loop
bidirectional_stream_copy kernel rounds input output socket e =
    copy_loop rounds (rules kernel)
      (record { outbound = new input socket; inbound = new socket output; outside = e })
