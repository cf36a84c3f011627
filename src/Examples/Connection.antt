-- ===== src/Examples/Connection.antt =====
-- Connections that a RST, or a peer that is silent, makes inactive.
use cs144_lab.Base.{[], arith, false, refl, some, true, ◌<◌, ◌∷◌, ◌≡◌, ◌⊎◌}
use cs144_lab.ByteStream
use cs144_lab.Wrapping.{wrap}
use cs144_lab.Reassembler
use cs144_lab.Receiver
use cs144_lab.Receiver.Genuine.{blank}
use cs144_lab.Sender
use cs144_lab.Sender.{Outstanding}
use cs144_lab.Segment.{TcpSegment, default_header}
use cs144_lab.Connection
use cs144_lab.Connection.{TcpConnection, default_config, max_retx_attempts}
use cs144_lab.Connection.Invariant.{Stream, Serves, connect-Serves}
use cs144_lab.Connection.Boundary.{new-Serves}
use cs144_lab.Connection.Closing.{IsDone, IsBroken, segment_received_closes, tick_closes}
use cs144_lab.Examples.{sample}

abbrev own : Stream
own = record { byte_at = sample; size = 2; isn = 77 }

abbrev peer : Stream
peer = record { byte_at = sample; size = 5; isn = 900 }

abbrev listening : TcpConnection
listening = Connection.new (record default_config { fixed_isn = some 77 }) 0

listening-Serves : Serves own peer 0 listening
unfolding Connection.new Sender.new
listening-Serves =
    new-Serves own peer (record default_config { fixed_isn = some 77 }) 0 refl (omega arith)
      (omega arith) (omega arith) (omega arith) (omega arith) (omega arith)

abbrev torn : TcpSegment
torn = record { header = record default_header { rst = true }; payload = [] }

torn_off : (Connection.segment_received listening torn).active ≡ false
unfolding Connection.new Connection.segment_received Connection.abort
torn_off = refl

segment_received_closes_example :
    ((torn.header.rst ≡ true) × IsBroken (Connection.segment_received listening torn))
    ⊎ IsDone own peer (Connection.segment_received listening torn)
segment_received_closes_example =
    segment_received_closes own peer 0 listening torn listening-Serves (blank refl refl refl)
      (unfold Connection.new in refl) torn_off

abbrev calling : TcpConnection
calling = Connection.connect listening

calling-Serves : Serves own peer 0 calling
calling-Serves = connect-Serves own peer 0 listening listening-Serves

-- Eight timeouts are behind it.
abbrev tired : TcpConnection
tired = record calling { sender = record calling.sender { consecutive_retransmissions = 8 } }

tired-Serves : Serves own peer 0 tired
tired-Serves = ground (arith, calling-Serves)

abbrev syn_entry : Outstanding
syn_entry = record {
  key = 0;
  segment = record { header = record default_header { seqno = 77; syn = true }; payload = [] };
}

-- What the connections hold, computed.
calling_lem :
    (tired.active ≡ true)
    × ((Connection.tick tired 1000).active ≡ false)
    × (calling.sender.segments_outgoing ≡ syn_entry ∷ [])
    × (calling.sender.win_size ≡ 1)
    × (calling.sender.outgoing_bytes ≡ 1)
    × (calling.sender.retransmission_timecount ≡ 0)
    × (calling.sender.retransmission_timeout ≡ 1000)
    × (calling.sender.consecutive_retransmissions ≡ 0)
unfolding Sender.new Sender.fill_window Sender.fill_loop Sender.round Sender.send
    Sender.make_segment Sender.payload_of Sender.stream_after Sender.sends_fin Sender.after_read
    Sender.insert Sender.relative_seqno wrap ByteStream.new ByteStream.read ByteStream.peek_output
    ByteStream.pop_output ByteStream.write ByteStream.remaining_capacity ByteStream.eof
    ByteStream.end_input Reassembler.new Receiver.new Receiver.ackno Receiver.window_size
    Sender.send_empty_segment Connection.new Connection.stamp Connection.stamp_all Connection.flush
    Connection.conclude Connection.send_segments Connection.acknowledge Connection.receive
    Connection.reply_empty Connection.fill_window Connection.connect Connection.abort
    Connection.tick Connection.reset_connection Sender.tick Sender.retransmit
calling_lem = (refl, refl, refl, refl, refl, refl, refl, refl)

tick_closes_example :
    ((max_retx_attempts < (Sender.tick tired.sender 1000).consecutive_retransmissions)
      × IsBroken (Connection.tick tired 1000))
    ⊎ IsDone own peer (Connection.tick tired 1000)
tick_closes_example = tick_closes own peer 0 tired 1000 tired-Serves calling_lem.0 calling_lem.1
