-- ===== src/Reassembler.antt =====
-- libsponge/stream_reassembler.{hh,cc}: substrings that arrive in any order become a byte stream.
pub mod Chunks
pub mod Insert
pub mod Extract
pub mod Invariant
pub mod Delivery
pub mod History
use cs144_lab.Base.{
  Bool, List, [], add64, false, if◌then◌else◌, leb, length, ltb, max, min, sub64, substr, true,
  ulong_max, ℕ, ◌&&◌, ◌++◌, ◌-◌, ◌==◌, ◌||◌, ◌∷◌,
}
use cs144_lab.ByteStream
use cs144_lab.ByteStream.{ByteStream}

-- An entry of `_unassembledBuffer`, a pair of a position and a string.
pub record Chunk : Type 0 where
  pub start : ℕ
  pub bytes : List ℕ

-- `class StreamReassembler`; its member `sizedebug` is never used.
pub record StreamReassembler : Type 0 where
  pub unassembled_buffer : List Chunk
  pub output : ByteStream
  pub capacity : ℕ
  pub pos_eof : ℕ
  pub unassembled_count : ℕ

-- The entry that ends the list.
abbrev pub sentinel : Chunk
sentinel = record { start = ulong_max; bytes = [] }

-- The constructor.
unfoldable pub new : ℕ → StreamReassembler
unfolding ByteStream.new
new capacity = record {
  unassembled_buffer = sentinel ∷ [];
  output = ByteStream.new capacity;
  capacity = capacity;
  pos_eof = ulong_max;
  unassembled_count = 0;
}

unfoldable pub keep : Chunk → List Chunk × ℕ → List Chunk × ℕ
keep c (rest, n) = (c ∷ rest, n)

-- The new string goes before `c`, if it is not empty.
unfoldable pub place : ℕ → List ℕ → Chunk → List Chunk × ℕ → List Chunk × ℕ
place pos temp c (rest, n) =
    if length temp == 0
    then (c ∷ rest, n)
    else (record { start = pos; bytes = temp } ∷ c ∷ rest, add64 n (length temp))

abbrev end_of : Chunk → ℕ
end_of c = add64 c.start (length c.bytes)

-- The loop of `push_unassembledString` from `it` on, at the value `pos` of its variable: the list
-- and how many bytes were inserted. `max pos index` is `pos` after its `if (pos < index)`.
-- `pos - index` and `it->first - pos` are taken only where they are not negative.
unfoldable pub scan : List ℕ → ℕ → ℕ → List Chunk → List Chunk × ℕ
scan bytes index pos [] = ([], 0)
scan bytes index pos (c ∷ rest) = elim (leb (add64 index (length bytes)) pos) [
  | true ↦ (c ∷ rest, 0)
  | false ↦ elim (leb index c.start) [
    | true ↦ elim (ltb c.start (max pos index)) [
      | true ↦ keep c (scan bytes index (max pos index) rest)
      | false ↦
          place (max pos index) (substr bytes (max pos index - index) (c.start - max pos index)) c
            (scan bytes index (end_of c) rest)
    ]
    | false ↦ keep c (scan bytes index (end_of c) rest)
  ]
]

unfoldable pub push_unassembled_string : List Chunk → List ℕ → ℕ → List Chunk × ℕ
push_unassembled_string chunks bytes index = scan bytes index index chunks

-- `pop_unassembledString`: the bytes that go on from `first`, and the list that is left.
unfoldable pub pop_unassembled_string : List Chunk → ℕ → List ℕ × List Chunk
pop_unassembled_string [] first = ([], [])
pop_unassembled_string (c ∷ rest) first = elim (ltb c.start ulong_max) [
  | true ↦ elim (c.start == first) [
    | true ↦
        let (temp, left) = pop_unassembled_string rest (add64 first (length c.bytes)) in
        (c.bytes ++ temp, left)
    | false ↦ ([], c ∷ rest)
  ]
  | false ↦ ([], c ∷ rest)
]

-- The end of `push_substring`, which its early return skips.
unfoldable pub finish : StreamReassembler → StreamReassembler
finish r =
    if ByteStream.bytes_written r.output == r.pos_eof
    then record r { output = ByteStream.end_input r.output }
    else r

-- From `_unassembledBytes += …` to `_output.write(temp)`.
unfoldable pub deliver : StreamReassembler → List ℕ → ℕ → ℕ → StreamReassembler
deliver r new_string start_pos first_unassembled =
    let (chunks, appended) = push_unassembled_string r.unassembled_buffer new_string start_pos in
    let (temp, left) = pop_unassembled_string chunks first_unassembled in
    record r {
      unassembled_buffer = left;
      unassembled_count = sub64 (add64 r.unassembled_count appended) (length temp);
      output = (ByteStream.write r.output temp).0;
    }

abbrev pub first_unassembled : StreamReassembler → ℕ
first_unassembled r = add64 (ByteStream.bytes_read r.output) (ByteStream.buffer_size r.output)

abbrev pub first_unacceptable : StreamReassembler → ℕ
first_unacceptable r = min (add64 (ByteStream.bytes_read r.output) r.capacity) r.pos_eof

-- The body of `push_substring` after `_posEOF` is set. `start_pos - index` is not negative.
unfoldable pub accept : StreamReassembler → List ℕ → ℕ → StreamReassembler
accept r bytes index =
    if length bytes == 0
    then finish r
    else if ltb (add64 index (length bytes)) (first_unassembled r)
        || leb (first_unacceptable r) index
        || ltb r.pos_eof index
    then r
    else let start_pos = max index (first_unassembled r) in
      finish (
        deliver r (substr bytes (start_pos - index) (sub64 (first_unacceptable r) start_pos))
          start_pos (first_unassembled r))

unfoldable pub push_substring : StreamReassembler → List ℕ → ℕ → Bool → StreamReassembler
push_substring r bytes index eof =
    accept (record r { pos_eof = if eof then add64 index (length bytes) else r.pos_eof }) bytes
      index

abbrev pub stream_out : StreamReassembler → ByteStream
stream_out r = r.output

abbrev pub unassembled_bytes : StreamReassembler → ℕ
unassembled_bytes r = r.unassembled_count

unfoldable pub empty : StreamReassembler → Bool
empty r = ByteStream.buffer_empty r.output && (r.unassembled_count == 0)
