-- ===== src/Examples/Duplex.antt =====
-- Two connections: the left one connects and sends two bytes, the right one listens.
use cs144_lab.Base.{[], arith, length, refl, slice, some, true, ℕ, ◌++◌, ◌+◌, ◌∷◌, ◌≡◌, ◌≤◌}
use cs144_lab.Wrapping.{wrap, unwrap}
use cs144_lab.ByteStream
use cs144_lab.Reassembler
use cs144_lab.Receiver
use cs144_lab.Receiver.Reading.{reader}
use cs144_lab.Sender
use cs144_lab.Segment.{TcpSegment, default_header}
use cs144_lab.Connection
use cs144_lab.Connection.{inbound, default_config}
use cs144_lab.Connection.Invariant.{Stream}
use cs144_lab.Connection.Boundary.{new-Serves}
use cs144_lab.Network.{OnWire}
use cs144_lab.Duplex.{Peer, Act, Step, Reach, IsSound, Reach-prefixes, Reach-completes}
use cs144_lab.Examples.{sample}

abbrev left_stream : Stream
left_stream = record { byte_at = sample; size = 2; isn = 77 }

abbrev right_stream : Stream
right_stream = record { byte_at = sample; size = 0; isn = 900 }

abbrev fresh : ℕ → Peer
fresh isn = record {
  connection = Connection.new (record default_config { fixed_isn = some isn }) 0;
  wire = [];
  delivered = [];
}

fresh-IsSound :
    IsSound left_stream right_stream (fresh 77) × IsSound right_stream left_stream (fresh 900)
unfolding slice Connection.new Sender.new
fresh-IsSound = (
  record {
    serves =
        new-Serves left_stream right_stream (record default_config { fixed_isn = some 77 }) 0 refl
          (omega arith) (omega arith) (omega arith) (omega arith) (omega arith) (omega arith);
    wire = tt;
    delivered = refl;
  },
  record {
    serves =
        new-Serves right_stream left_stream (record default_config { fixed_isn = some 900 }) 0 refl
          (omega arith) (omega arith) (omega arith) (omega arith) (omega arith) (omega arith);
    wire = tt;
    delivered = refl;
  },
)

abbrev send_out : Peer → Peer
send_out p = record p {
  connection = record p.connection { segments_out = [] };
  wire = p.connection.segments_out ++ p.wire;
}

abbrev take_in : Peer → TcpSegment → Peer
take_in p seg = record p { connection = Connection.segment_received p.connection seg }

-- The left end connects, and its SYN arrives.
abbrev calling : Peer
calling = send_out (record (fresh 77) { connection = Connection.connect (fresh 77).connection })

abbrev first : TcpSegment
first = record { header = record default_header { seqno = 77; syn = true }; payload = [] }

abbrev answering : Peer
answering = send_out (take_in (fresh 900) first)

-- The SYN of the right end acknowledges it.
abbrev answer : TcpSegment
answer = record {
  header = record default_header { seqno = 900; syn = true; ack = true; ackno = 78; win = 64000 };
  payload = [];
}

abbrev opened : Peer
opened = take_in calling answer

abbrev written : Peer
written = record opened { connection = (Connection.write opened.connection (10 ∷ 11 ∷ [])).0 }

abbrev finished : Peer
finished = send_out (record written { connection = Connection.end_input_stream written.connection })

abbrev letters : TcpSegment
letters = record {
  header = record default_header { seqno = 78; ack = true; ackno = 901; win = 64000 };
  payload = 10 ∷ 11 ∷ [];
}

abbrev last : TcpSegment
last = record {
  header = record default_header { seqno = 80; ack = true; ackno = 901; win = 64000; fin = true };
  payload = [];
}

-- The FIN arrives before the bytes.
abbrev served : Peer
served = take_in (take_in answering last) letters

abbrev got_one : Peer
got_one = record served {
  connection = record served.connection { receiver = reader served.connection.receiver 1 };
  delivered = served.delivered ++ (ByteStream.read (inbound served.connection) 1).1;
}

-- What the run finds at its steps, computed.
run_facts :
    OnWire first calling.wire
    × OnWire answer answering.wire
    × (10 ∷ 11 ∷ [] ≡ slice sample opened.connection.sender.stream.totin 2)
    × (opened.connection.sender.stream.totin + 2 ≤ 2)
    × (written.connection.sender.stream.totin ≡ 2)
    × OnWire letters finished.wire
    × OnWire last finished.wire
    × ((inbound got_one.connection).is_input_end ≡ true)
unfolding slice Sender.new Sender.fill_window Sender.fill_loop Sender.round Sender.send
    Sender.make_segment Sender.payload_of Sender.stream_after Sender.sends_fin Sender.after_read
    Sender.insert Sender.ack_received Sender.drop_acked Sender.relative_seqno wrap unwrap
    ByteStream.new ByteStream.read ByteStream.peek_output ByteStream.pop_output ByteStream.write
    ByteStream.remaining_capacity ByteStream.eof ByteStream.end_input Reassembler.new
    Reassembler.scan Reassembler.keep Reassembler.place Reassembler.push_unassembled_string
    Reassembler.pop_unassembled_string Reassembler.finish Reassembler.deliver Reassembler.accept
    Reassembler.push_substring Receiver.new Receiver.note_flags Receiver.absolute_index
    Receiver.stream_index Receiver.segment_received Receiver.ackno Receiver.window_size
    Sender.send_empty_segment Connection.new Connection.stamp Connection.stamp_all Connection.flush
    Connection.conclude Connection.send_segments Connection.acknowledge Connection.receive
    Connection.reply_empty Connection.fill_window Connection.connect Connection.handle
    Connection.phase Connection.abort Connection.segment_received Connection.write
    Connection.end_input_stream
run_facts = (
  OnWire.here,
  OnWire.here,
  refl,
  omega arith,
  refl,
  OnWire.there OnWire.here,
  OnWire.there (OnWire.there OnWire.here),
  refl,
)

-- The SYNs are exchanged.
open_run :
    Reach left_stream right_stream
      (record { left = fresh 77; right = fresh 900 })
      (record { left = opened; right = answering })
open_run =
    Reach.next
      (Reach.next
        (Reach.next
          (Reach.next (Reach.next Reach.start (Step.at_left Act.connects))
            (Step.at_left Act.transmits))
          (Step.at_right (Act.receives first run_facts.0)))
        (Step.at_right Act.transmits))
      (Step.at_left (Act.receives answer run_facts.1))

whole_run :
    Reach left_stream right_stream
      (record { left = fresh 77; right = fresh 900 })
      (record { left = finished; right = got_one })
whole_run =
    Reach.next
      (Reach.next
        (Reach.next
          (Reach.next
            (Reach.next
              (Reach.next open_run
                (Step.at_left (Act.writes (10 ∷ 11 ∷ []) run_facts.2 run_facts.3)))
              (Step.at_left (Act.ends run_facts.4)))
            (Step.at_left Act.transmits))
          (Step.at_right (Act.receives last run_facts.6)))
        (Step.at_right (Act.receives letters run_facts.5)))
      (Step.at_right (Act.reads 1))

Reach-prefixes_example :
    (finished.delivered ≡ slice sample 0 (length finished.delivered))
    × (length finished.delivered ≤ 0)
    × (got_one.delivered ≡ slice sample 0 (length got_one.delivered))
    × (length got_one.delivered ≤ 2)
Reach-prefixes_example =
    Reach-prefixes left_stream right_stream whole_run fresh-IsSound.0 fresh-IsSound.1

Reach-completes_example : got_one.delivered ++ (inbound got_one.connection).buff ≡ slice sample 0 2
Reach-completes_example =
    Reach-completes left_stream right_stream whole_run fresh-IsSound.0 fresh-IsSound.1 run_facts.7
