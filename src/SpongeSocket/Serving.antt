-- ===== src/SpongeSocket/Serving.antt =====
-- A socket that runs on an environment that keeps to its contract.
use cs144_lab.Base.{
  Bool-cases, List, Option, add64, ap, append-nil, arith, false, if◌then◌else◌, inl, inr, length,
  length-append, length-drop, length-take, ltb, min, none, refl, some, sym, take, ℕ, ◌&&◌, ◌<◌,
  ◌==◌, ◌^◌, ◌||◌, ◌∙◌, ◌≡◌, ◌≤◌,
}
use cs144_lab.ByteStream
use cs144_lab.ByteStream.{ByteStream}
use cs144_lab.ByteStream.Laws.{read_lem, length-peek_output, take-peek_output}
use cs144_lab.Buffer.{view_size, view_bytes, view_of}
use cs144_lab.Buffer.Prefixes.{length-view_bytes}
use cs144_lab.FileDescriptor.Writing.{AcceptsOf, count_moves, write_accepted, write_refused}
use cs144_lab.Connection
use cs144_lab.Connection.{TcpConnection, outbound, inbound, remaining_outbound_capacity}
use cs144_lab.Connection.Outbound.{segment_received_keeps, end_input_stream_keeps, write_keeps}
use cs144_lab.Connection.Inbound.{receiver-write, receiver-end_input_stream}
use cs144_lab.FileDescriptor
use cs144_lab.FileDescriptor.{FileDescriptor}
use cs144_lab.Segment.{TcpSegment}
use cs144_lab.Sender.Outbound.{IsKept}
use cs144_lab.SpongeSocket.{
  with_inbound, SpongeSocket, datagram_ready, outgoing_cancel, outgoing_ready, incoming_ready,
}

-- The buffer of a stream is within its capacity, which is a word.
pub record Fits (s : ByteStream) : Type 0 where
  pub within : length s.buff ≤ s.capacity
  pub small : s.capacity < 2 ^ 64

pub IsKept-Fits : IsKept Fits
unfolding ByteStream.read ByteStream.pop_output ByteStream.end_input ByteStream.set_error
IsKept-Fits = record {
  reads = λ s len f.
      omega
        (arith, length-drop (min (length (ByteStream.peek_output s len)) (length s.buff)) s.buff);
  ends = λ s f. omega arith;
  fails = λ s f. omega arith;
}

-- A write takes what fits, however many bytes were written before.
write_fitting :
    (s : ByteStream) (bytes : List ℕ)
    → Fits s
    → length bytes ≤ ByteStream.remaining_capacity s
    → (ByteStream.write s bytes).1 ≡ length bytes
unfolding ByteStream.write
write_fitting s bytes f h = omega arith

pub write_takes :
    (c : TcpConnection) (bytes : List ℕ)
    → Fits (outbound c)
    → length bytes ≤ remaining_outbound_capacity c
    → (Connection.write c bytes).1 ≡ length bytes
unfolding Connection.write
write_takes c bytes f h = elim (Bool-cases (length bytes == 0)) [
  | inl empty ↦ ground (arith, empty)
  | inr full ↦ rw full (write_fitting (outbound c) bytes f h)
]

write-Fits : (s : ByteStream) (bytes : List ℕ) → Fits s → Fits (ByteStream.write s bytes).0
unfolding ByteStream.write ByteStream.remaining_capacity
write-Fits s bytes f =
    let n = min (length bytes) (ByteStream.remaining_capacity s) in
    omega (arith, length-append s.buff (take n bytes), length-take n bytes)

-- Rule 1 keeps what all but a write keeps.
pub datagram_ready-Fits :
    (s : SpongeSocket) (got : Option TcpSegment)
    → Fits (outbound s.tcp)
    → Fits (outbound (datagram_ready s got).tcp)
unfolding datagram_ready
datagram_ready-Fits s none f = f
datagram_ready-Fits s (some seg) f = segment_received_keeps Fits IsKept-Fits s.tcp seg f

pub outgoing_cancel-Fits :
    (s : SpongeSocket) → Fits (outbound s.tcp) → Fits (outbound (outgoing_cancel s).tcp)
unfolding outgoing_cancel
outgoing_cancel-Fits s f = end_input_stream_keeps Fits IsKept-Fits s.tcp f

-- Rule 2 does not throw where the kernel gives no more than it is asked for, and counts a read.
pub outgoing_ready_serves :
    (s : SpongeSocket) (bytes : List ℕ)
    → Fits (outbound s.tcp)
    → length bytes ≤ min FileDescriptor.buffer_size (remaining_outbound_capacity s.tcp)
    → (s' : SpongeSocket) × (outgoing_ready s (some bytes) ≡ some s')
      × ((s.thread_data.read_count == s'.thread_data.read_count) ≡ false)
      × Fits (outbound s'.tcp)
      × (s'.tcp.receiver ≡ s.tcp.receiver)
      × (s'.write_shut ≡ s.write_shut)
      × (s'.inbound_shutdown ≡ s.inbound_shutdown)
unfolding outgoing_ready FileDescriptor.read FileDescriptor.register_read outgoing_cancel
outgoing_ready_serves s bytes f h =
    let c : TcpConnection = (Connection.write s.tcp bytes).0 in
    let f' : Fits (outbound c) =
      write_keeps Fits IsKept-Fits s.tcp bytes f (write-Fits (outbound s.tcp) bytes f) in
    let d : FileDescriptor = FileDescriptor.register_read (record s.thread_data {
      eof = s.thread_data.eof || (ltb 0 (remaining_outbound_capacity s.tcp) && length bytes == 0);
    }) in
    let within : ltb (min FileDescriptor.buffer_size (remaining_outbound_capacity s.tcp))
          (length bytes)
        ≡ false =
      ground arith in
    let s₁ : SpongeSocket = record s { tcp = c; thread_data = d } in
    let took : (Connection.write s.tcp bytes).1 ≡ length bytes =
      write_takes s.tcp bytes f (omega arith) in
    let counted = count_moves s.thread_data.read_count in
    let same : c.receiver ≡ s.tcp.receiver = receiver-write s.tcp bytes in
    elim (Bool-cases d.eof) [
      | inl ended ↦ (
        outgoing_cancel s₁,
        ground (arith, within, took, ended),
        counted,
        outgoing_cancel-Fits s₁ f',
        receiver-end_input_stream c ∙ same,
        refl,
        refl,
      )
      | inr goes_on ↦ (s₁, ground (arith, within, took, goes_on), counted, f', same, refl, refl)
    ]

-- What is offered is the front of the stream, and so what is taken is what a read gives.
offered_le :
    (s : ByteStream) (m n : ℕ) → n ≤ view_size (view_of (ByteStream.peek_output s m)) → n ≤ m
unfolding view_size
offered_le s m n h = omega (arith, length-peek_output s m)

offered_read :
    (s : ByteStream) (m n : ℕ)
    → n ≤ view_size (view_of (ByteStream.peek_output s m))
    → take n (view_bytes (view_of (ByteStream.peek_output s m))) ≡ (ByteStream.read s n).1
unfolding view_size view_bytes
offered_read s m n h =
    let shown = ByteStream.peek_output s m in
    ap (take n) (append-nil shown) ∙ take-peek_output s m n (omega arith)

-- What rule 3 offers to the kernel.
abbrev pub offered : SpongeSocket → List ℕ
offered s =
    let stream = inbound s.tcp in
    view_bytes (view_of (ByteStream.peek_output stream (min 65536 (ByteStream.buffer_size stream))))

-- Rule 3 throws where the kernel refuses that.
pub incoming_ready_refused :
    (s : SpongeSocket) (kernel : List ℕ → Option ℕ)
    → kernel (offered s) ≡ none
    → incoming_ready s kernel ≡ none
unfolding incoming_ready
incoming_ready_refused s kernel refused =
    let stream = inbound s.tcp in
    let buffer =
      view_of (ByteStream.peek_output stream (min 65536 (ByteStream.buffer_size stream))) in
    ground (arith, write_refused (λ k. kernel) s.thread_data buffer refused)

-- Rule 3 does not throw where the kernel takes some of what it is offered, and counts a write. What the
-- kernel takes is read from the stream.
pub incoming_ready_serves :
    (s : SpongeSocket) (kernel : List ℕ → Option ℕ)
    → AcceptsOf kernel (offered s)
    → (s' : SpongeSocket) × (sent : List ℕ) × (n : ℕ) × (incoming_ready s kernel ≡ some (s', sent))
      × ((s.thread_data.write_count == s'.thread_data.write_count) ≡ false)
      × (n ≤ length (inbound s.tcp).buff)
      × (sent ≡ (ByteStream.read (inbound s.tcp) n).1)
      × (s'.tcp ≡ with_inbound s.tcp (ByteStream.read (inbound s.tcp) n).0)
      × (s'.write_shut ≡ (
          s.write_shut || (ByteStream.eof (inbound s'.tcp) || ByteStream.error (inbound s'.tcp))))
      × (s'.inbound_shutdown ≡ (
          s.inbound_shutdown
          || (ByteStream.eof (inbound s'.tcp) || ByteStream.error (inbound s'.tcp))))
unfolding incoming_ready FileDescriptor.shutdown FileDescriptor.register_write
incoming_ready_serves s kernel takes =
    let stream = inbound s.tcp in
    let m = min 65536 (ByteStream.buffer_size stream) in
    let buffer = view_of (ByteStream.peek_output stream m) in
    let (n, taken, within, moved) = takes in
    let size = length-view_bytes buffer in
    let shown = length-peek_output stream m in
    let fits : n ≤ view_size buffer = omega (arith, within, size) in
    let n-le : n ≤ m = offered_le stream m n fits in
    let wrote =
      write_accepted (λ k. kernel) s.thread_data buffer n taken fits
        (ground (arith, moved, size)) in
    let stream' = ByteStream.pop_output stream (add64 0 n) in
    let popped : stream' ≡ ByteStream.pop_output stream n =
      ap (ByteStream.pop_output stream) (omega arith) in
    let ended = ByteStream.eof stream' || ByteStream.error stream' in
    let f = FileDescriptor.register_write s.thread_data in
    (
      record s {
        tcp = with_inbound s.tcp stream';
        thread_data = if ended then FileDescriptor.shutdown f FileDescriptor.shut_wr else f;
        write_shut = s.write_shut || ended;
        inbound_shutdown = s.inbound_shutdown || ended;
      },
      take n (view_bytes buffer),
      n,
      ground (arith, wrote),
      ground arith,
      omega arith,
      offered_read stream m n fits,
      ap (with_inbound s.tcp) (popped ∙ sym (ap (λ t. t.0) (read_lem stream n))),
      refl,
      refl,
    )
