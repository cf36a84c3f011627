-- ===== src/FileDescriptor/Streams.antt =====
-- Writing what a byte stream holds, and popping what was taken of it.
use cs144_lab.Base.{
  List, Option, ap, append-nil, arith, false, length, min, take, ℕ, ◌++◌, ◌∙◌, ◌≡◌, ◌≤◌,
}
use cs144_lab.Buffer.{view_bytes, view_of, view_size}
use cs144_lab.ByteStream
use cs144_lab.ByteStream.{ByteStream}
use cs144_lab.ByteStream.Laws.{length-peek_output, pop_output-peek_output}
use cs144_lab.FileDescriptor.{FileDescriptor, write, written}
use cs144_lab.FileDescriptor.Writing.{write-once}

-- What one call of the kernel took, followed by what is left once that is popped, is the stream.
pub write-peek_output :
    (kernel : List ℕ → Option ℕ) (f f' : FileDescriptor) (s : ByteStream) (sent : List ℕ) (n : ℕ)
    → write
        (λ k. kernel)
        false
        f
        (view_of (ByteStream.peek_output s (min 65536 (ByteStream.buffer_size s))))
      ≡ written f' sent n
    → sent ++ (ByteStream.pop_output s n).buff ≡ s.buff
unfolding view_size view_bytes
write-peek_output kernel f f' s sent n e =
    let m = min 65536 (ByteStream.buffer_size s) in
    let buffer = ByteStream.peek_output s m in
    let short : length buffer ≤ 65536 = omega (arith, length-peek_output s m) in
    let (bounded, front) = write-once (λ k. kernel) f f' (view_of buffer) sent n (omega arith) e in
    let exact : sent ≡ take n buffer = front ∙ ap (take n) (append-nil buffer) in
    rw exact (pop_output-peek_output s m n (omega arith))
