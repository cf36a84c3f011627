-- ===== src/Examples/Sender.antt =====
-- A sender of a stream of five bytes: the SYN goes out, times out, and is acknowledged.
use cs144_lab.Base.{
  List, [], arith, if◌then◌else◌, length, refl, slice, some, true, ◌++◌, ◌==◌, ◌∷◌, ◌≡◌, ◌≤◌, ◌⊎◌,
}
use cs144_lab.Wrapping.{wrap, unwrap}
use cs144_lab.ByteStream
use cs144_lab.Segment.{default_header}
use cs144_lab.Sender
use cs144_lab.Sender.{Outstanding, TcpSender, fill_window, fill_loop, usable_window, ack_received}
use cs144_lab.Sender.Invariant.{IsValid}
use cs144_lab.Sender.Window.{Filled, fill_window-Filled, fill_window_stable}
use cs144_lab.Sender.Acknowledge.{AllBeyond, beyond, ack_received_lem}
use cs144_lab.Sender.Timer.{expire, backed_off, expire_lem}
use cs144_lab.Sender.Application.{new-IsValid, write-IsValid_sender}
use cs144_lab.Examples.{sample}

abbrev loaded : TcpSender
loaded =
    let s = Sender.new 64 1000 (some 77) 0 in
    record s { stream = (ByteStream.write s.stream (10 ∷ 11 ∷ 12 ∷ [])).0 }

loaded-IsValid : IsValid sample 5 77 loaded
unfolding Sender.new ByteStream.new slice
loaded-IsValid =
    write-IsValid_sender sample 5 77 (Sender.new 64 1000 (some 77) 0)
      (new-IsValid sample 5 77 64 1000 (some 77) 0 refl (omega arith) (omega arith) (omega arith))
      (10 ∷ 11 ∷ 12 ∷ []) refl (omega arith)

loaded_window : loaded.win_size ≡ 1
unfolding Sender.new
loaded_window = refl

abbrev opened : TcpSender
opened = fill_window loaded

fill_window-Filled_example : Filled sample 5 77 (usable_window loaded) loaded opened
fill_window-Filled_example =
    fill_window-Filled sample 5 77 loaded loaded-IsValid (omega (arith, loaded_window))

opened-IsValid : IsValid sample 5 77 opened
opened-IsValid =
    (fill_window-Filled sample 5 77 loaded loaded-IsValid (omega (arith, loaded_window))).valid

fill_window_stable_example : fill_loop 9 (usable_window loaded) loaded ≡ fill_window loaded
unfolding Sender.new
fill_window_stable_example =
    fill_window_stable sample 5 77 9 loaded loaded-IsValid (omega (arith, loaded_window))
      (omega (arith, loaded_window))

abbrev syn_segment : Outstanding
syn_segment = record {
  key = 0;
  segment = record { header = record default_header { seqno = 77; syn = true }; payload = [] };
}

-- What the opened sender holds, computed.
opened_lem :
    (opened.segments_outgoing ≡ syn_segment ∷ [])
    × (opened.next_seqno ≡ 1)
    × (opened.win_size ≡ 1)
    × (opened.retransmission_timecount ≡ 0)
    × (opened.retransmission_timeout ≡ 1000)
    × (opened.consecutive_retransmissions ≡ 0)
unfolding Sender.new Sender.fill_window Sender.fill_loop Sender.round Sender.send
    Sender.make_segment Sender.payload_of Sender.stream_after Sender.sends_fin Sender.after_read
    Sender.insert Sender.relative_seqno wrap unwrap ByteStream.new ByteStream.read
    ByteStream.peek_output ByteStream.pop_output ByteStream.write ByteStream.remaining_capacity
    ByteStream.eof ByteStream.end_input
opened_lem = (refl, refl, refl, refl, refl, refl)

ack_received_lem_example :
    let s' = ack_received opened (wrap 1 77) 20 in
    IsValid sample 5 77 s'
    × AllBeyond 1 s'.segments_outgoing
    × ((added : List Outstanding) × (s'.segments_outgoing
          ≡ beyond 1 opened.segments_outgoing ++ added))
    × (((if 20 == 0 then 1 else 20) ≤ s'.outgoing_bytes)
        ⊎ ((length s'.stream.buff ≡ 0) × (s'.stream.is_input_end ≡ true → s'.fin ≡ true)))
ack_received_lem_example =
    ack_received_lem sample 5 77 opened 1 20 opened-IsValid (omega arith)
      (omega (arith, opened_lem.1)) (omega (arith, opened_lem.1))

-- Three timeouts, of 1000, 2000 and 4000 milliseconds.
expire_lem_example : expire 3 opened ≡ backed_off 3 opened syn_segment
expire_lem_example =
    expire_lem 3 opened syn_segment [] opened_lem.0 (omega (arith, opened_lem.2)) opened_lem.3
      (omega (arith, opened_lem.4)) (omega (arith, opened_lem.5))
