-- ===== src/StreamCopy/Conservation.antt =====
-- A direction of the copy loses, repeats and reorders no byte, and is shut only when all is written.
use cs144_lab.Base.{
  Bool-cases, List, Option, ap, append_assoc, arith, false, inl, inr, length, length-append,
  length-drop, ltb, min, none, some, take_all, ℕ, ◌++◌, ◌-◌, ◌∙◌, ◌≡◌, ◌≤◌,
}
use cs144_lab.ByteStream
use cs144_lab.FileDescriptor
use cs144_lab.FileDescriptor.Streams.{write-peek_output}
use cs144_lab.Buffer.{view_of}
use cs144_lab.FileDescriptor.Writing.{Outcome-cases}
use cs144_lab.StreamCopy.{
  FileDescriptor, Pipe, Step, Reach, fill, drain, cancel, new, buffer_size, max_copy_length,
}

-- What was read is what was written and then what the stream still holds, and that fits.
pub record IsSound (p : Pipe) : Type 0 where
  pub room : length p.stream.buff ≤ p.stream.capacity
  pub capacity : p.stream.capacity ≡ buffer_size
  pub conserved : p.taken ≡ p.given ++ p.stream.buff

pub new-IsSound : (from to : FileDescriptor) → IsSound (new from to)
unfolding new ByteStream.new
new-IsSound from to = ground arith

-- What a read returns fits into the stream.
pub fill-IsSound :
    (p q : Pipe) (answer : Option (List ℕ)) → IsSound p → fill p answer ≡ some q → IsSound q
unfolding fill FileDescriptor.read ByteStream.write ByteStream.remaining_capacity
    ByteStream.end_input
fill-IsSound p q none v h = ground (arith, h)
fill-IsSound p q (some bytes) v h =
    elim (Bool-cases (
      ltb (min FileDescriptor.buffer_size (ByteStream.remaining_capacity p.stream))
        (length bytes))) [
          | inl over ↦ ground (arith, h, over)
          | inr fits ↦
              let roomy : length bytes ≤ p.stream.capacity - length p.stream.buff =
                ground (arith, v) in
              let count : min (length bytes) (ByteStream.remaining_capacity p.stream)
                  ≡ length bytes =
                ground (arith, v) in
              let whole = take_all (length bytes) bytes (omega arith) in
              let joined : p.taken ++ bytes ≡ p.given ++ (p.stream.buff ++ bytes) =
                ap (λ t. t ++ bytes) v.conserved ∙ append_assoc p.given p.stream.buff bytes in
              ground (arith, h, v, fits, count, whole, joined, length-append p.stream.buff bytes)
        ]

pub drain-IsSound :
    (finish : FileDescriptor → FileDescriptor) (p q : Pipe) (kernel : List ℕ → Option ℕ)
    → IsSound p
    → drain finish p kernel ≡ some q
    → IsSound q
unfolding drain ByteStream.pop_output
drain-IsSound finish p q kernel v h =
    let m = min max_copy_length (ByteStream.buffer_size p.stream) in
    let buffer = ByteStream.peek_output p.stream m in
    elim (Outcome-cases (FileDescriptor.write (λ k. kernel) false p.to (view_of buffer))) [
      | inl (f, got, n, e) ↦
          let whole = write-peek_output kernel p.to f p.stream got n e in
          let joined = append_assoc p.given got (ByteStream.pop_output p.stream n).buff in
          let left : length (ByteStream.pop_output p.stream n).buff ≤ length p.stream.buff =
            omega (arith, length-drop (min n (length p.stream.buff)) p.stream.buff) in
          ground (arith, h, v, e, whole, joined, left)
      | inr (inl (f, got, e)) ↦ ground (arith, h, e)
      | inr (inr (got, e)) ↦ ground (arith, h, e)
    ]

pub cancel-IsSound : (p : Pipe) → IsSound p → IsSound (cancel p)
unfolding cancel ByteStream.end_input
cancel-IsSound p v = ground (arith, v)

Step-IsSound : (p q : Pipe) → IsSound p → Step p q → IsSound q
Step-IsSound p _ v (Step.fills answer q h) = fill-IsSound p q answer v h
Step-IsSound p _ v (Step.drains_socket kernel q h) =
    drain-IsSound (λ f. FileDescriptor.shutdown f FileDescriptor.shut_wr) p q kernel v h
Step-IsSound p _ v (Step.drains_output kernel q h) =
    drain-IsSound FileDescriptor.close p q kernel v h
Step-IsSound p _ v Step.cancels = cancel-IsSound p v

-- After any sequence of reads into, writes from and cancellations of one direction of the copy
-- program, whatever the kernel answers, the bytes read are the bytes written followed by those in
-- the stream, and these fit its capacity.
pub Reach-IsSound : (from to : FileDescriptor) (p : Pipe) → Reach (new from to) p → IsSound p
Reach-IsSound from to p Reach.start = new-IsSound from to
Reach-IsSound from to p (Reach.after {q} r step) = Step-IsSound q p (Reach-IsSound from to q r) step
