-- ===== src/StreamCopy.antt =====
-- apps/bidirectional_stream_copy.cc: the four rules that copy the standard input to a socket, and what
-- the socket gives to the standard output.
pub mod Conservation
pub mod Loop
pub mod Serving
pub mod Running
use cs144_lab.Base.{
  Bool, List, Option, [], false, if◌then◌else◌, ltb, min, none, not, some, ℕ, ◌&&◌, ◌++◌, ◌||◌, ◌≡◌,
}
use cs144_lab.Buffer.{view_of}
use cs144_lab.ByteStream
use cs144_lab.ByteStream.{ByteStream}
use cs144_lab.FileDescriptor
use cs144_lab.FileDescriptor.{shut_wr, FileDescriptor, thrown, unfinished, written}

abbrev pub max_copy_length : ℕ
max_copy_length = 65536

abbrev pub buffer_size : ℕ
buffer_size = 1048576

-- One direction: a descriptor to read from, the stream between, and one to write to. `shut` says that
-- the latter was shut down or closed (`_outbound_shutdown`, `_inbound_shutdown`); `taken` and `given`
-- are what has been read and written so far.
pub record Pipe : Type 0 where
  pub from : FileDescriptor
  pub stream : ByteStream
  pub to : FileDescriptor
  pub shut : Bool
  pub taken : List ℕ
  pub given : List ℕ

unfoldable pub new : FileDescriptor → FileDescriptor → Pipe
new from to = record {
  from = from;
  stream = ByteStream.new buffer_size;
  to = to;
  shut = false;
  taken = [];
  given = [];
}

-- The callback of rules 1 and 3, where the kernel gives `answer`; `none` is an exception.
unfoldable pub fill : Pipe → Option (List ℕ) → Option Pipe
fill p answer = elim (FileDescriptor.read p.from (ByteStream.remaining_capacity p.stream) answer) [
  | none ↦ none
  | some (f, bytes) ↦
      let stream = (ByteStream.write p.stream bytes).0 in
      some (record p {
        from = f;
        stream = if f.eof then ByteStream.end_input stream else stream;
        taken = p.taken ++ bytes;
      })
]

-- Their interest, where `other` is the stream of the other direction.
abbrev pub fill_interest : Pipe → ByteStream → Bool
fill_interest p other =
    not (ByteStream.error p.stream)
    && (ltb 0 (ByteStream.remaining_capacity p.stream) && not (ByteStream.error other))

-- The callback of rules 2 and 4, where `kernel` answers the call of `writev`, and `finish` is what is
-- done to the descriptor at the end.
unfoldable pub drain : (FileDescriptor → FileDescriptor) → Pipe → (List ℕ → Option ℕ) → Option Pipe
drain finish p kernel =
    let bytes_to_write = min max_copy_length (ByteStream.buffer_size p.stream) in
    let buffer = ByteStream.peek_output p.stream bytes_to_write in
    elim (FileDescriptor.write (λ k. kernel) false p.to (view_of buffer)) [
      | written f sent n ↦
          let stream = ByteStream.pop_output p.stream n in
          some (record p {
            to = if ByteStream.eof stream then finish f else f;
            stream = stream;
            shut = p.shut || ByteStream.eof stream;
            given = p.given ++ sent;
          })
      | thrown f sent ↦ none
      | unfinished sent ↦ none
    ]

-- Rule 2 shuts the socket down for writing, rule 4 closes the standard output.
abbrev pub drain_socket : Pipe → (List ℕ → Option ℕ) → Option Pipe
drain_socket = drain (λ f. FileDescriptor.shutdown f shut_wr)

abbrev pub drain_output : Pipe → (List ℕ → Option ℕ) → Option Pipe
drain_output = drain FileDescriptor.close

abbrev pub drain_interest : Pipe → Bool
drain_interest p = not (ByteStream.buffer_empty p.stream) || (ByteStream.eof p.stream && not p.shut)

-- The cancellation of each rule.
unfoldable pub cancel : Pipe → Pipe
cancel p = record p { stream = ByteStream.end_input p.stream }

-- What may happen to one direction, in any order.
pub data Step (p : Pipe) : Pipe → Type 0 where
  fills : (answer : Option (List ℕ)) (q : Pipe) → fill p answer ≡ some q → Step p q
  drains_socket :
      (kernel : List ℕ → Option ℕ) (q : Pipe) → drain_socket p kernel ≡ some q → Step p q
  drains_output :
      (kernel : List ℕ → Option ℕ) (q : Pipe) → drain_output p kernel ≡ some q → Step p q
  cancels : Step p (cancel p)

pub data Reach (p : Pipe) : Pipe → Type 0 where
  start : Reach p p
  after : {q r : Pipe} → Reach p q → Step q r → Reach p r
