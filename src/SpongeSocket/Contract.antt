-- ===== src/SpongeSocket/Contract.antt =====
-- A socket whose environment keeps to its contract serves each of its rules.
use cs144_lab.Base.{
  Bool, List, Option, [], ap, ap₂, arith, false, length, length-append, length-slice, min, none,
  refl, slice, slice-append, some, subst, sym, true, ℕ, ◌%◌, ◌++◌, ◌+◌, ◌^◌, ◌||◌, ◌∙◌, ◌∷◌, ◌≡◌,
  ◌≤◌, ◌⊎◌,
}
use cs144_lab.ByteStream
use cs144_lab.Connection.{outbound, inbound, remaining_outbound_capacity}
use cs144_lab.Connection.Inbound.{segment_received_keeps_receiver, receiver-end_input_stream}
use cs144_lab.Connection.Invariant.{IsOf, Stream}
use cs144_lab.EventLoop.Waiting.{Serves}
use cs144_lab.FileDescriptor
use cs144_lab.FileDescriptor.Writing.{Accepts, count_moves}
use cs144_lab.Segment.{TcpSegment}
use cs144_lab.SpongeSocket.{
  with_inbound, SpongeSocket, datagram_ready, outgoing_cancel, segments_ready, send_all,
}
use cs144_lab.SpongeSocket.Delivery.{
  HasPassed, failed-HasPassed, segment_received-HasPassed, reader-HasPassed, passed_stretch,
}
use cs144_lab.SpongeSocket.Loop.{
  Environment, World, descriptor, reads_datagrams, reads_outgoing, writes_segments,
}
use cs144_lab.SpongeSocket.Serving.{
  Fits, datagram_ready-Fits, outgoing_cancel-Fits, outgoing_ready_serves,
}
use cs144_lab.TcpOverIp.{FdAdapter}

-- What a read of the adapter gives: nothing, or a segment of the peer.
abbrev pub IsGot : Stream → Option TcpSegment → Type 0
IsGot peer none = Unit {0}
IsGot peer (some seg) = IsOf peer seg

-- What the adapter and the kernel promise where `I` holds, which every call keeps: a read counts on the
-- descriptor of the adapter and gives no segment but those of the peer, the application gives no more
-- than it is asked for, and something of what is offered is taken until `thread_data` is shut for
-- writing, and from there on none: a write of nothing may still return 0.
pub record Answers {E : Type 0} (env : Environment E) (peer : Stream) (I : E → Type 0)
    : Type 0 where
  pub reads :
      (e : E)
      → I e
      → (e' : E) × (got : Option TcpSegment) × (env.adapter_read e ≡ some (e', got))
        × ((env.adapter e').read_count ≡ ((env.adapter e).read_count + 1) % 2 ^ 32)
        × IsGot peer got
        × I e'
  pub writes :
      (e : E) (seg : TcpSegment) → I e → (e' : E) × (env.adapter_write e seg ≡ some e') × I e'
  pub offers :
      (e : E) (limit : ℕ)
      → I e
      → (e' : E) × (bytes : List ℕ) × (env.offer e limit ≡ (e', some bytes))
        × (length bytes ≤ limit)
        × I e'
  pub accepts : (e : E) → I e → Accepts (env.accept e false)
  pub refuses :
      (e : E) (bytes : List ℕ)
      → I e
      → (env.accept e true bytes ≡ none) ⊎ ((length bytes ≡ 0) × (env.accept e true bytes ≡ some 0))
  pub delivers : (e : E) (sent : List ℕ) → I e → I (env.deliver e sent)
  pub configures : (e : E) (b : FdAdapter) → I e → I (env.with_base b e)

-- What the application was shown: not yet the end, or that after all of the stream, or anything.
pub data Stage : Type 0 where
  open_yet all_given any_stage : Stage

abbrev pub IsAt : Stream → Stage → Bool → ℕ → Type 0
IsAt peer open_yet shut n = shut ≡ false
IsAt peer all_given shut n = (shut ≡ true) × (n ≡ peer.size)
IsAt peer any_stage shut n = Unit {0}

-- What the loop keeps: the outbound stream is within its capacity, and the application was given the
-- beginning of the stream of the peer, and was shown its end only at the end of that or at a failure.
pub record Holds {E : Type 0} (peer : Stream) (I : E → Type 0) (stage : Stage) (w : World E)
    : Type 0 where
  pub fits : Fits (outbound w.socket.tcp)
  pub outside : I w.env
  pub passed : HasPassed peer (length w.delivered) w.socket.write_shut w.socket.tcp.receiver
  pub prefix : w.delivered ≡ slice peer.byte_at 0 (length w.delivered)
  pub both : w.socket.inbound_shutdown ≡ w.socket.write_shut
  pub shown : IsAt peer stage w.socket.write_shut (length w.delivered)

datagram_ready-HasPassed :
    (peer : Stream) (n : ℕ) (s : SpongeSocket) (got : Option TcpSegment)
    → IsGot peer got
    → HasPassed peer n s.write_shut s.tcp.receiver
    → HasPassed peer n s.write_shut (datagram_ready s got).tcp.receiver
unfolding datagram_ready
datagram_ready-HasPassed peer n s none g p = p
datagram_ready-HasPassed peer n s (some seg) g p =
    segment_received_keeps_receiver (HasPassed peer n s.write_shut)
      (failed-HasPassed peer n s.write_shut) s.tcp seg p
      (segment_received-HasPassed peer n s.write_shut s.tcp.receiver p seg g)

module _ {E : Type 0} (env : Environment E) (peer : Stream) (I : E → Type 0)
    (a : Answers env peer I) where
  -- The queue of segments is emptied.
  send_all_empties :
      (e : E) (segs : List TcpSegment)
      → I e
      → (e' : E) × (send_all env.adapter_write e segs ≡ (e', [])) × I e'
  unfolding send_all
  send_all_empties e [] i = (e, refl, i)
  send_all_empties e (seg ∷ segs) i =
      let (e₁, wrote, i₁) = a.writes e seg i in
      let (e₂, rest, i₂) = send_all_empties e₁ segs i₁ in (e₂, ground (arith, wrote, rest), i₂)

  pub reads_datagrams-Serves :
      (stage : Stage) → Serves (descriptor env) (Holds peer I stage) (reads_datagrams env)
  unfolding reads_datagrams datagram_ready
  reads_datagrams-Serves stage = record {
    serves = λ w h.
        let (e, got, read, counted, genuine, i) = a.reads w.env h.outside in
        let moved = count_moves (env.adapter w.env).read_count in
        (
          record w { socket = datagram_ready w.socket got; env = e },
          rw read refl,
          ground (arith, moved, counted),
          record {
            fits = datagram_ready-Fits w.socket got h.fits;
            outside = i;
            passed =
                datagram_ready-HasPassed peer (length w.delivered) w.socket got genuine h.passed;
            prefix = h.prefix;
            both = h.both;
            shown = h.shown;
          },
        );
    cancels = λ w h. h;
  }

  pub reads_outgoing-Serves :
      (stage : Stage) → Serves (descriptor env) (Holds peer I stage) (reads_outgoing env)
  unfolding reads_outgoing outgoing_cancel
  reads_outgoing-Serves stage = record {
    serves = λ w h.
        let asked = min FileDescriptor.buffer_size (remaining_outbound_capacity w.socket.tcp) in
        let (e, bytes, offered, within, i) = a.offers w.env asked h.outside in
        let (s, served, moved, fits, same, shut, inside) =
          outgoing_ready_serves w.socket bytes h.fits within in
        (
          record w { socket = s; env = e },
          ground (arith, offered, served),
          rw moved refl,
          record {
            fits = fits;
            outside = i;
            passed = rw (shut, same) h.passed;
            prefix = h.prefix;
            both = inside ∙ h.both ∙ sym shut;
            shown = rw shut h.shown;
          },
        );
    cancels = λ w h. record {
      fits = outgoing_cancel-Fits w.socket h.fits;
      outside = h.outside;
      passed = rw (receiver-end_input_stream w.socket.tcp) h.passed;
      prefix = h.prefix;
      both = h.both;
      shown = h.shown;
    };
  }

  -- What the kernel takes is the next stretch of the stream.
  pub passed_on :
      (stage : Stage) (w : World E) (s : SpongeSocket) (sent : List ℕ) (n : ℕ)
      → Holds peer I stage w
      → n ≤ length (inbound w.socket.tcp).buff
      → sent ≡ (ByteStream.read (inbound w.socket.tcp) n).1
      → s.tcp ≡ with_inbound w.socket.tcp (ByteStream.read (inbound w.socket.tcp) n).0
      → s.write_shut ≡ (
          w.socket.write_shut
          || (ByteStream.eof (inbound s.tcp) || ByteStream.error (inbound s.tcp)))
      → s.inbound_shutdown ≡ s.write_shut
      → Holds peer I any_stage
          (record { socket = s; env = env.deliver w.env sent; delivered = w.delivered ++ sent })
  passed_on stage w s sent n h within given left shut same =
      let d = length w.delivered in
      let r = w.socket.tcp.receiver in
      let stretch = given ∙ passed_stretch peer d w.socket.write_shut r h.passed n within in
      let size : length sent ≡ n = ap length stretch ∙ length-slice peer.byte_at d n in
      let total : length (w.delivered ++ sent) ≡ d + n =
        length-append w.delivered sent ∙ ap (λ k. d + k) size in
      record {
        fits = subst (λ c. Fits (outbound c)) (sym left) h.fits;
        outside = a.delivers w.env sent h.outside;
        passed =
            rw (total, shut, left)
              (reader-HasPassed peer d w.socket.write_shut r h.passed n within);
        prefix = rw total (ap₂ ◌++◌ h.prefix stretch ∙ slice-append peer.byte_at d n);
        both = same;
        shown = tt;
      }

  pub writes_segments-Serves :
      (stage : Stage) → Serves (descriptor env) (Holds peer I stage) (writes_segments env)
  unfolding writes_segments segments_ready
  writes_segments-Serves stage = record {
    serves = λ w h.
        let (e, sent, i) = send_all_empties w.env w.socket.tcp.segments_out h.outside in
        let s = record w.socket { tcp = record w.socket.tcp { segments_out = [] } } in
        (
          record w { socket = s; env = e },
          rw sent refl,
          ground arith,
          record {
            fits = h.fits;
            outside = i;
            passed = h.passed;
            prefix = h.prefix;
            both = h.both;
            shown = h.shown;
          },
        );
    cancels = λ w h. h;
  }
