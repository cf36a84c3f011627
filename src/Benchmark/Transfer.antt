-- ===== src/Benchmark/Transfer.antt =====
-- The benchmark keeps both connections sound, and its loop never throws.
use cs144_lab.Base.{
  Bool, Bool-cases, List, [], ap, ap₂, arith, drop, drop-slice, false, inl, inr, length,
  length-append, length-drop, length-take, ltb, min, not, refl, slice, slice-append, some, substr,
  substr_of_slice, suc, sym, true, zero, ℕ, ◌&&◌, ◌++◌, ◌+◌, ◌-◌, ◌<◌, ◌==◌, ◌∙◌, ◌∷◌, ◌≡◌, ◌≤◌,
}
use cs144_lab.ByteStream
use cs144_lab.Buffer.{Buffer, buffer_length, remove_prefix, str}
use cs144_lab.Buffer.Prefixes
use cs144_lab.Buffer.Prefixes.{remove_prefix_lem}
use cs144_lab.Segment.{TcpSegment}
use cs144_lab.Sender.Invariant.{AllGenuine}
use cs144_lab.Connection
use cs144_lab.Connection.{TcpConnection, inbound, remaining_outbound_capacity}
use cs144_lab.Connection.Invariant.{
  Stream, Serves, write-Serves, end_input_stream-Serves, tick-Serves, segment_received-Serves,
}
use cs144_lab.Connection.Boundary.{read-Serves, read_next, sent-Serves}
use cs144_lab.Connection.Outbound.{
  written, written-segment_received, written-tick, written-end_input_stream, written-write,
}
use cs144_lab.Benchmark.{
  Benchmark, deliver, deliver_reversed, move_segments, write_input, close_input, exchange,
  read_output, pass_time, loop,
}

-- The bytes that are not written yet: the rest of the stream, from what `x` was given on.
pub record IsLeft (own : Stream) (x : TcpConnection) (buffer : Buffer) : Type 0 where
  pub valid : Prefixes.IsValid buffer
  pub count : written x + buffer_length buffer ≡ own.size
  pub bytes : str buffer ≡ slice own.byte_at (written x) (buffer_length buffer)

-- `x` sends the stream `own`, and `y` the stream `peer`, which nobody reads; at least `m` bytes were
-- received.
pub record IsRunning (own peer : Stream) (m : ℕ) (b : Benchmark) : Type 0 where
  pub sends : Serves own peer 0 b.x
  pub receives : Serves peer own (length b.string_received) b.y
  pub received : b.string_received ≡ slice own.byte_at 0 (length b.string_received)
  pub left : IsLeft own b.x b.bytes_to_send
  pub grown : m ≤ length b.string_received

-- Only what `x` was given matters.
IsLeft_same :
    (own : Stream) (x x' : TcpConnection) (buffer : Buffer)
    → written x' ≡ written x
    → IsLeft own x buffer
    → IsLeft own x' buffer
IsLeft_same own x x' buffer e l = record {
  valid = l.valid;
  count = omega (arith, e, l.count);
  bytes = l.bytes ∙ ap (λ k. slice own.byte_at k (buffer_length buffer)) (sym e);
}

module _ (own peer : Stream) (n : ℕ) where
  deliver-Serves :
      (c : TcpConnection) (segs : List TcpSegment)
      → Serves own peer n c
      → AllGenuine peer.byte_at peer.size peer.isn segs
      → Serves own peer n (deliver c segs) × (written (deliver c segs) ≡ written c)
  unfolding deliver
  deliver-Serves c [] v g = (v, refl)
  deliver-Serves c (seg ∷ segs) v g =
      let c' = Connection.segment_received c seg in
      let (w, e) = deliver-Serves c' segs (segment_received-Serves own peer n c seg v g.0) g.1 in
      (w, e ∙ written-segment_received c seg)

  deliver_reversed-Serves :
      (c : TcpConnection) (segs : List TcpSegment)
      → Serves own peer n c
      → AllGenuine peer.byte_at peer.size peer.isn segs
      → Serves own peer n (deliver_reversed c segs)
        × (written (deliver_reversed c segs) ≡ written c)
  unfolding deliver_reversed
  deliver_reversed-Serves c [] v g = (v, refl)
  deliver_reversed-Serves c (seg ∷ segs) v g =
      let c' = deliver_reversed c segs in
      let (w, e) = deliver_reversed-Serves c segs v g.1 in
      (segment_received-Serves own peer n c' seg w g.0, written-segment_received c' seg ∙ e)

-- Both ends stay sound when the segments of the one go to the other.
move_segments-Serves :
    (own peer : Stream) (n m : ℕ) (reorder : Bool) (x y : TcpConnection)
    → Serves own peer n x
    → Serves peer own m y
    → let moved = move_segments reorder x y in
      Serves own peer n moved.0
      × Serves peer own m moved.1
      × (written moved.0 ≡ written x)
      × (written moved.1 ≡ written y)
unfolding move_segments
move_segments-Serves own peer n m false x y v w =
    let (a, b) = deliver-Serves peer own m y x.segments_out w v.queued in
    (sent-Serves own peer n x v, a, refl, b)
move_segments-Serves own peer n m true x y v w =
    let (a, b) = deliver_reversed-Serves peer own m y x.segments_out w v.queued in
    (sent-Serves own peer n x v, a, refl, b)

module _ (own peer : Stream) where
  -- One round of the loop that writes.
  write_next :
      (x : TcpConnection) (buffer : Buffer)
      → Serves own peer 0 x
      → IsLeft own x buffer
      → let want = min (remaining_outbound_capacity x) (buffer_length buffer) in
        let result = Connection.write x (substr (str buffer) 0 want) in
        (result.1 ≡ want)
        × Serves own peer 0 result.0
        × ((rest : Buffer) × (remove_prefix buffer want ≡ some rest)
            × IsLeft own result.0 rest
            × (buffer_length rest + want ≡ buffer_length buffer))
  write_next x buffer v l =
      let want = min (remaining_outbound_capacity x) (buffer_length buffer) in
      let chunk = substr (str buffer) 0 want in
      let n = length-take want (str buffer) in
      let size : length chunk ≡ want = omega (arith, n) in
      let next : chunk ≡ slice own.byte_at (written x) (length chunk) =
        substr_of_slice own.byte_at (str buffer) (written x) 0 want l.bytes
        ∙ ap₂ (slice own.byte_at) (omega arith) (omega (arith, size)) in
      let inside : written x + length chunk ≤ own.size = omega (arith, size, l.count) in
      let (counted, whole) =
        written-write x chunk v.sender.stream (omega (arith, inside, v.sender.small))
          (omega (arith, size)) in
      let (rest, made, bytes, valid) =
        remove_prefix_lem buffer.storage buffer.starting_offset want l.valid (omega arith) in
      let less : buffer_length rest ≡ buffer_length buffer - want =
        ap length bytes ∙ length-drop want (str buffer) in
      let moved : written (Connection.write x chunk).0 ≡ written x + want =
        counted ∙ ap (λ k. written x + k) size in
      let stretch : str rest
          ≡ slice own.byte_at (written (Connection.write x chunk).0) (buffer_length rest) =
        bytes
        ∙ ap (drop want) l.bytes
        ∙ drop-slice own.byte_at want (written x) (buffer_length buffer)
        ∙ ap₂ (slice own.byte_at) (sym moved) (sym less) in
      (
        whole ∙ size,
        write-Serves own peer 0 x chunk v next inside,
        (
          rest,
          made,
          record { valid = valid; count = omega (arith, moved, less, l.count); bytes = stretch },
          omega (arith, less),
        ),
      )

  write_input_returns :
      (fuel : ℕ) (x : TcpConnection) (buffer : Buffer)
      → buffer_length buffer < fuel
      → Serves own peer 0 x
      → IsLeft own x buffer
      → (x' : TcpConnection) × (rest : Buffer) × (write_input fuel x buffer ≡ some (x', rest))
        × Serves own peer 0 x'
        × IsLeft own x' rest
  unfolding write_input
  write_input_returns zero x buffer h v l = absurd (omega arith)
  write_input_returns (suc fuel) x buffer h v l =
      elim (Bool-cases (ltb 0 (buffer_length buffer) && ltb 0 (remaining_outbound_capacity x))) [
        | inr stop ↦ (x, buffer, ground (arith, stop), v, l)
        | inl go ↦
            let want = min (remaining_outbound_capacity x) (buffer_length buffer) in
            let (whole, w, later) = write_next x buffer v l in
            let (rest, made, k, shorter) = later in
            let x' = (Connection.write x (substr (str buffer) 0 want)).0 in
            let (x'', rest', e, w', k') =
              write_input_returns fuel x' rest (ground (arith, go, h, shorter)) w k in
            (x'', rest', ground (arith, go, whole, made, e), w', k')
      ]

module _ (own peer : Stream) (m : ℕ) where
  close_input-IsRunning :
      (b : Benchmark) → IsRunning own peer m b → IsRunning own peer m (close_input b)
  unfolding close_input
  close_input-IsRunning b i =
      elim (Bool-cases (buffer_length b.bytes_to_send == 0 && not b.x_closed)) [
        | inr open_end ↦ rw open_end i
        | inl over ↦
            let all_written : written b.x ≡ own.size = ground (arith, over, i.left.count) in
            rw over (record {
              sends = end_input_stream-Serves own peer 0 b.x i.sends all_written;
              receives = i.receives;
              received = i.received;
              left =
                  IsLeft_same own b.x (Connection.end_input_stream b.x) b.bytes_to_send
                    (written-end_input_stream b.x) i.left;
              grown = i.grown;
            })
      ]

  exchange-IsRunning :
      (reorder : Bool) (b : Benchmark)
      → IsRunning own peer m b
      → IsRunning own peer m (exchange reorder b)
  unfolding exchange
  exchange-IsRunning reorder b i =
      let n = length b.string_received in
      let (x1, y1, ex, ey) = move_segments-Serves own peer 0 n reorder b.x b.y i.sends i.receives in
      let sent = move_segments reorder b.x b.y in
      let (y2, x2, ey', ex') = move_segments-Serves peer own n 0 false sent.1 sent.0 y1 x1 in
      let back = move_segments false sent.1 sent.0 in
      record {
        sends = x2;
        receives = y2;
        received = i.received;
        left = IsLeft_same own b.x back.1 b.bytes_to_send (ex' ∙ ex) i.left;
        grown = i.grown;
      }

  read_output-IsRunning :
      (b : Benchmark) → IsRunning own peer m b → IsRunning own peer m (read_output b)
  unfolding read_output
  read_output-IsRunning b i =
      let available = ByteStream.buffer_size (inbound b.y) in
      let out = (ByteStream.read (inbound b.y) available).1 in
      let n = length b.string_received in
      let sum = length-append b.string_received out in
      elim (Bool-cases (ltb 0 available)) [
        | inr idle ↦ rw idle i
        | inl ready ↦ rw ready (record {
          sends = i.sends;
          receives = rw sum (read-Serves peer own n b.y available i.receives);
          received = rw sum (
              ap₂ ◌++◌ i.received (read_next peer own n b.y available i.receives)
              ∙ slice-append own.byte_at n (length out));
          left = i.left;
          grown = omega (arith, sum, i.grown);
        })
      ]

  pass_time-IsRunning :
      (b : Benchmark) → IsRunning own peer m b → IsRunning own peer m (pass_time b)
  unfolding pass_time
  pass_time-IsRunning b i = record {
    sends = tick-Serves own peer 0 b.x 1000 i.sends;
    receives = tick-Serves peer own (length b.string_received) b.y 1000 i.receives;
    received = i.received;
    left =
        IsLeft_same own b.x (Connection.tick b.x 1000) b.bytes_to_send (written-tick b.x 1000)
          i.left;
    grown = i.grown;
  }

  -- A round of the benchmark does not throw.
  pub loop_returns :
      (reorder : Bool) (b : Benchmark)
      → IsRunning own peer m b
      → (b' : Benchmark) × (loop reorder b ≡ some b') × IsRunning own peer m b'
  unfolding loop
  loop_returns reorder b i =
      let (x, rest, e, v, l) =
        write_input_returns own peer (suc (buffer_length b.bytes_to_send)) b.x b.bytes_to_send
          (omega arith) i.sends i.left in
      let b1 : Benchmark = record b { x = x; bytes_to_send = rest } in
      let i1 : IsRunning own peer m b1 = record {
        sends = v;
        receives = i.receives;
        received = i.received;
        left = l;
        grown = i.grown;
      } in
      let b2 = close_input b1 in
      let b3 = exchange reorder b2 in
      let b4 = read_output b3 in
      (
        pass_time b4,
        ground (arith, e),
        pass_time-IsRunning b4 (
            read_output-IsRunning b3 (exchange-IsRunning reorder b2 (close_input-IsRunning b1 i1))),
      )
