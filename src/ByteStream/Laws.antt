-- ===== src/ByteStream/Laws.antt =====
-- The accounting of a byte stream, and what each operation does to it.
use cs144_lab.Base.{
  List, arith, length, length-append, length-drop, length-take, min, refl, take, take-append-drop,
  take-take, ℕ, ◌++◌, ◌+◌, ◌-◌, ◌<◌, ◌^◌, ◌≡◌, ◌≤◌,
}
use cs144_lab.ByteStream.{ByteStream, new, write, read, peek_output, pop_output, remaining_capacity}

-- The buffer fits, and the counters differ by what it holds.
pub record IsValid (s : ByteStream) : Type 0 where
  pub fits : length s.buff ≤ s.capacity
  pub small : s.capacity < 2 ^ 64
  pub counted : s.totin ≡ s.totout + length s.buff
  pub unwrapped : s.totin < 2 ^ 64

-- An empty stream is valid.
pub new-IsValid : (capacity : ℕ) → capacity < 2 ^ 64 → IsValid (new capacity)
unfolding new
new-IsValid capacity h = omega arith

-- On a valid stream the room is the capacity less what is buffered, with no wrap.
pub remaining_capacity_lem :
    (s : ByteStream) → IsValid s → remaining_capacity s ≡ s.capacity - length s.buff
unfolding remaining_capacity
remaining_capacity_lem s v = omega arith

-- `write` appends the longest prefix that fits, returns its length and counts it; all else stays.
pub write_lem :
    (s : ByteStream) (bytes : List ℕ)
    → IsValid s
    → s.totin + length bytes < 2 ^ 64
    → (write s bytes ≡ (
      record s {
        totin = s.totin + min (length bytes) (s.capacity - length s.buff);
        buff = s.buff ++ take (min (length bytes) (s.capacity - length s.buff)) bytes;
      },
      min (length bytes) (s.capacity - length s.buff),
    ))
unfolding write
write_lem s bytes v h = ground (arith, remaining_capacity_lem s v)

-- Writing to a valid byte stream, where the count of bytes written stays in 64 bits, keeps it
-- valid: the buffer fits its capacity, and the bytes written are those read and those buffered.
pub write-IsValid :
    (s : ByteStream) (bytes : List ℕ)
    → IsValid s
    → s.totin + length bytes < 2 ^ 64
    → IsValid (write s bytes).0
write-IsValid s bytes v h = rw (write_lem s bytes v h) (
    omega (
      arith,
      length-append s.buff (take (min (length bytes) (s.capacity - length s.buff)) bytes),
      length-take (min (length bytes) (s.capacity - length s.buff)) bytes,
    ))

-- `pop_output` keeps the accounting.
pub pop_output-IsValid : (s : ByteStream) (len : ℕ) → IsValid s → IsValid (pop_output s len)
unfolding pop_output
pop_output-IsValid s len v = omega (arith, length-drop (min len (length s.buff)) s.buff)

-- What `peek_output` returns has the length that was asked for, or that of the buffer.
pub length-peek_output :
    (s : ByteStream) (len : ℕ) → length (peek_output s len) ≡ min len (length s.buff)
unfolding peek_output
length-peek_output s len = omega (arith, length-take (min len (length s.buff)) s.buff)

-- `read` returns what `peek_output` shows and leaves the stream that `pop_output` leaves.
pub read_lem : (s : ByteStream) (len : ℕ) → read s len ≡ (pop_output s len, peek_output s len)
unfolding read pop_output
read_lem s len = rw (length-peek_output s len) (ground arith)

pub read-IsValid : (s : ByteStream) (len : ℕ) → IsValid s → IsValid (read s len).0
read-IsValid s len v = rw (read_lem s len) (pop_output-IsValid s len v)

-- Popping as many bytes as were taken from the front of what `peek_output` shows.
pub pop_output-peek_output :
    (s : ByteStream) (len n : ℕ)
    → n ≤ length (peek_output s len)
    → take n (peek_output s len) ++ (pop_output s n).buff ≡ s.buff
unfolding peek_output pop_output
pop_output-peek_output s len n h =
    let bounded : n ≤ min len (length s.buff) =
      omega (arith, length-take (min len (length s.buff)) s.buff) in
    let whole : min n (length s.buff) ≡ n = omega arith in
    rw (take-take n (min len (length s.buff)) s.buff bounded, whole) (take-append-drop n s.buff)

-- The front of what `peek_output` shows is what a read of that many bytes returns.
pub take-peek_output :
    (s : ByteStream) (len n : ℕ)
    → n ≤ length (peek_output s len)
    → take n (peek_output s len) ≡ (read s n).1
unfolding peek_output
take-peek_output s len n h =
    let bounded : n ≤ min len (length s.buff) =
      omega (arith, length-take (min len (length s.buff)) s.buff) in
    let whole : min n (length s.buff) ≡ n = omega arith in
    rw (take-take n (min len (length s.buff)) s.buff bounded, read_lem s n, whole) refl
