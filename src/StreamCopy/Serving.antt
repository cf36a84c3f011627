-- ===== src/StreamCopy/Serving.antt =====
-- The callbacks of the copy program do not throw on their own account, and count on their descriptors.
use cs144_lab.Base.{
  Bool, List, Option, add64, arith, false, if◌then◌else◌, inl, inr, length, ltb, min, refl, some,
  take, true, ℕ, ◌%◌, ◌&&◌, ◌++◌, ◌+◌, ◌==◌, ◌^◌, ◌||◌, ◌≡◌, ◌≤◌, ◌⊎◌,
}
use cs144_lab.Buffer.{view_bytes, view_of}
use cs144_lab.Buffer.Prefixes.{length-view_bytes}
use cs144_lab.ByteStream
use cs144_lab.FileDescriptor
use cs144_lab.FileDescriptor.{FileDescriptor}
use cs144_lab.FileDescriptor.Writing.{Accepts, count_moves, write_accepted}
use cs144_lab.StreamCopy.{Pipe, fill, drain, max_copy_length}
use cs144_lab.StreamCopy.Loop.{asked}

-- A read of no more than was asked for does not throw, and counts.
pub fill_serves :
    (p : Pipe) (bytes : List ℕ)
    → length bytes ≤ asked p
    → (q : Pipe) × (fill p (some bytes) ≡ some q)
      × ((p.from.read_count == q.from.read_count) ≡ false)
      × (q.to ≡ p.to)
unfolding fill FileDescriptor.read FileDescriptor.register_read
fill_serves p bytes h =
    let within : ltb (asked p) (length bytes) ≡ false = ground arith in
    let f = FileDescriptor.register_read (record p.from {
      eof = p.from.eof || (ltb 0 (ByteStream.remaining_capacity p.stream) && length bytes == 0);
    }) in
    let stream = (ByteStream.write p.stream bytes).0 in
    (
      record p {
        from = f;
        stream = if f.eof then ByteStream.end_input stream else stream;
        taken = p.taken ++ bytes;
      },
      ground (arith, within),
      count_moves p.from.read_count,
      refl,
    )

-- What is done to a descriptor at the end counts once more, or not at all.
pub CountsOn : (FileDescriptor → FileDescriptor) → Type 0
CountsOn finish =
    (f : FileDescriptor)
    → ((finish f).write_count ≡ f.write_count)
      ⊎ ((finish f).write_count ≡ (f.write_count + 1) % 2 ^ 32)

count_moves_twice : (n : ℕ) → (n == ((n + 1) % 2 ^ 32 + 1) % 2 ^ 32) ≡ false
count_moves_twice n = ground arith

CountsOn-moves :
    (finish : FileDescriptor → FileDescriptor) (n : ℕ) (f : FileDescriptor) (ended : Bool)
    → CountsOn finish
    → f.write_count ≡ (n + 1) % 2 ^ 32
    → (n == (if ended then finish f else f).write_count) ≡ false
unfolding CountsOn
CountsOn-moves finish n f false c e = rw e (count_moves n)
CountsOn-moves finish n f true c e = elim (c f) [
  | inl same ↦ rw (same, e) (count_moves n)
  | inr more ↦ rw (more, e) (count_moves_twice n)
]

-- A write of which some is taken does not throw, and counts.
pub drain_serves :
    (finish : FileDescriptor → FileDescriptor) (p : Pipe) (kernel : List ℕ → Option ℕ)
    → CountsOn finish
    → Accepts kernel
    → (q : Pipe) × (drain finish p kernel ≡ some q)
      × ((p.to.write_count == q.to.write_count) ≡ false)
      × (q.from ≡ p.from)
unfolding drain CountsOn FileDescriptor.register_write
drain_serves finish p kernel counts takes =
    let m = min max_copy_length (ByteStream.buffer_size p.stream) in
    let buffer = view_of (ByteStream.peek_output p.stream m) in
    let (n, taken, within, moved) = takes (view_bytes buffer) in
    let size = length-view_bytes buffer in
    let wrote =
      write_accepted (λ k. kernel) p.to buffer n taken (omega (arith, within, size))
        (ground (arith, moved, size)) in
    let stream = ByteStream.pop_output p.stream (add64 0 n) in
    let f = FileDescriptor.register_write p.to in
    (
      record p {
        to = if ByteStream.eof stream then finish f else f;
        stream = stream;
        shut = p.shut || ByteStream.eof stream;
        given = p.given ++ take n (view_bytes buffer);
      },
      ground (arith, wrote),
      CountsOn-moves finish p.to.write_count f (ByteStream.eof stream) counts refl,
      refl,
    )

pub shut_wr-CountsOn : CountsOn (λ f. FileDescriptor.shutdown f FileDescriptor.shut_wr)
unfolding CountsOn FileDescriptor.shutdown FileDescriptor.register_write
shut_wr-CountsOn f = inr refl

pub close-CountsOn : CountsOn FileDescriptor.close
unfolding CountsOn FileDescriptor.close
close-CountsOn f = inl refl
