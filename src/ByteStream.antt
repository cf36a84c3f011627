-- ===== src/ByteStream.antt =====
-- libsponge/byte_stream.{hh,cc}: the bounded in-memory byte stream.
pub mod Laws
pub mod Fifo
pub mod Reference
use cs144_lab.Base.{
  Bool, List, [], add64, drop, false, length, min, sub64, substr, true, ℕ, ◌&&◌, ◌++◌, ◌==◌,
}

-- `class ByteStream`. Bytes are only moved, so a byte is any number.
pub record ByteStream : Type 0 where
  pub buff : List ℕ
  pub totin : ℕ
  pub totout : ℕ
  pub capacity : ℕ
  pub is_input_end : Bool
  pub has_error : Bool

-- The constructor.
unfoldable pub new : ℕ → ByteStream
new capacity = record {
  buff = [];
  totin = 0;
  totout = 0;
  capacity = capacity;
  is_input_end = false;
  has_error = false;
}

abbrev pub buffer_size : ByteStream → ℕ
buffer_size s = length s.buff

abbrev pub buffer_empty : ByteStream → Bool
buffer_empty s = length s.buff == 0

unfoldable pub remaining_capacity : ByteStream → ℕ
remaining_capacity s = sub64 s.capacity (length s.buff)

-- The new stream, and how many bytes it took. It takes bytes also after `end_input`.
unfoldable pub write : ByteStream → List ℕ → ByteStream × ℕ
unfolding remaining_capacity
write s bytes =
    let n = min (length bytes) (remaining_capacity s) in
    (record s { totin = add64 s.totin n; buff = s.buff ++ substr bytes 0 n }, n)

unfoldable pub peek_output : ByteStream → ℕ → List ℕ
peek_output s len = substr s.buff 0 (min len (length s.buff))

unfoldable pub pop_output : ByteStream → ℕ → ByteStream
pop_output s len =
    let n = min len (length s.buff) in record s { totout = add64 s.totout n; buff = drop n s.buff }

unfoldable pub read : ByteStream → ℕ → ByteStream × List ℕ
unfolding peek_output pop_output
read s len = let out = peek_output s len in (pop_output s (length out), out)

unfoldable pub end_input : ByteStream → ByteStream
end_input s = record s { is_input_end = true }

unfoldable pub set_error : ByteStream → ByteStream
set_error s = record s { has_error = true }

abbrev pub input_ended : ByteStream → Bool
input_ended s = s.is_input_end

abbrev pub error : ByteStream → Bool
error s = s.has_error

unfoldable pub eof : ByteStream → Bool
eof s = input_ended s && buffer_empty s

abbrev pub bytes_written : ByteStream → ℕ
bytes_written s = s.totin

abbrev pub bytes_read : ByteStream → ℕ
bytes_read s = s.totout
