-- ===== src/Examples/Formats.antt =====
-- Byte streams, sequence numbers, headers and states at concrete values.
use cs144_lab.Base.{List, [], arith, refl, true, ◌++◌, ◌∷◌, ◌≡◌, ◌≤◌}
use cs144_lab.ByteStream
use cs144_lab.ByteStream.{ByteStream}
use cs144_lab.ByteStream.Fifo
use cs144_lab.ByteStream.Fifo.{Call, writes, reads, ends, run_fifo}
use cs144_lab.Wrapping.{wrap, unwrap}
use cs144_lab.Wrapping.Unwrap.{unwrap-wrap, unwrap_closest, distance}
use cs144_lab.Sender
use cs144_lab.Receiver
use cs144_lab.Connection
use cs144_lab.Connection.{TcpConnection, default_config, phase}
use cs144_lab.TcpState.{state, of_state, listen, summarize, receiver_summary, sender_summary}
use cs144_lab.TcpState.Phases.{branch, phase-of_state}
use cs144_lab.Reassembler

abbrev script : List Call
script = writes (1 ∷ 2 ∷ 3 ∷ []) ∷ reads 1 ∷ writes (4 ∷ 5 ∷ []) ∷ ends ∷ []

-- Of the second write only one byte is accepted.
run_fifo_example :
    Fifo.returned (ByteStream.new 3) script ++ (Fifo.run (ByteStream.new 3) script).buff
    ≡ (ByteStream.new 3).buff ++ Fifo.accepted (ByteStream.new 3) script
run_fifo_example = run_fifo (ByteStream.new 3) script

unwrap-wrap_example : unwrap (wrap 8589934600 4294967290) 4294967290 8589934592 ≡ 8589934600
unwrap-wrap_example =
    unwrap-wrap 8589934600 4294967290 8589934592 (omega arith) (omega arith) (omega arith)
      (omega arith)

unwrap_closest_example :
    (wrap (unwrap 5 4294967290 8589934592) 4294967290 ≡ 5)
    × (distance (unwrap 5 4294967290 8589934592) 8589934592 ≤ distance 11 8589934592)
unwrap_closest_example =
    unwrap_closest 5 4294967290 8589934592 11 (omega arith) (omega arith) (omega arith)
      (omega arith) (unfold wrap in refl)

-- A connection that listens.
abbrev listening : TcpConnection
listening = Connection.new default_config 7

listening_lem :
    (state listening ≡ of_state listen)
    × (listening.active ≡ true)
    × (listening.sender.next_seqno ≡ 0)
    × (listening.sender.outgoing_bytes ≡ 0)
    × (listening.sender.stream.totin ≡ 0)
unfolding Connection.new Sender.new Receiver.new Reassembler.new ByteStream.new of_state summarize
    receiver_summary sender_summary ByteStream.eof Receiver.ackno
listening_lem = (refl, refl, refl, refl, refl)

phase-of_state_example : phase listening ≡ branch listen (ByteStream.eof listening.sender.stream)
phase-of_state_example =
    phase-of_state listen listening listening_lem.0 listening_lem.1
      (omega (arith, listening_lem.2, listening_lem.3))
      (omega (arith, listening_lem.2, listening_lem.4)) (omega (arith, listening_lem.4))
