-- ===== src/Benchmark.antt =====
-- apps/tcp_benchmark.cc: two connections in one program, which carry a text from the one to the other.
pub mod Transfer
pub mod Outcomes
use cs144_lab.Base.{
  Bool, List, Option, [], false, if◌then◌else◌, ltb, min, none, not, some, substr, suc, true, zero,
  ℕ, ◌&&◌, ◌++◌, ◌==◌, ◌||◌, ◌∷◌,
}
use cs144_lab.Buffer.{Buffer, buffer_length, of_string, remove_prefix, str}
use cs144_lab.ByteStream
use cs144_lab.Segment.{TcpSegment}
use cs144_lab.Connection
use cs144_lab.Connection.{TcpConnection, default_config, inbound, remaining_outbound_capacity}
use cs144_lab.Receiver.Reading.{reader}

-- The two loops of `move_segments` over what was queued: in order, and from the last to the first.
pub deliver : TcpConnection → List TcpSegment → TcpConnection
deliver y [] = y
deliver y (seg ∷ segs) = deliver (Connection.segment_received y seg) segs

pub deliver_reversed : TcpConnection → List TcpSegment → TcpConnection
deliver_reversed y [] = y
deliver_reversed y (seg ∷ segs) = Connection.segment_received (deliver_reversed y segs) seg

-- `move_segments`, from `x` to `y`; the vector of segments is empty before and after it.
unfoldable pub move_segments : Bool → TcpConnection → TcpConnection → TcpConnection × TcpConnection
unfolding deliver deliver_reversed
move_segments reorder x y = (
  record x { segments_out = [] },
  if reorder then deliver_reversed y x.segments_out else deliver y x.segments_out,
)

-- The first loop of `loop`, on fuel. `none` is its exception, or that the fuel runs out.
unfoldable pub write_input : ℕ → TcpConnection → Buffer → Option (TcpConnection × Buffer)
write_input zero x buffer = none
write_input (suc fuel) x buffer =
    let want = min (remaining_outbound_capacity x) (buffer_length buffer) in
    let (x', written) = Connection.write x (substr (str buffer) 0 want) in
    let next : Option (TcpConnection × Buffer) = elim (remove_prefix buffer written) [
      | none ↦ none
      | some rest ↦ write_input fuel x' rest
    ] in
    if ltb 0 (buffer_length buffer) && ltb 0 (remaining_outbound_capacity x)
    then (if want == written then next else none)
    else some (x, buffer)

-- The variables of `main_loop`.
pub record Benchmark : Type 0 where
  pub x : TcpConnection
  pub y : TcpConnection
  pub bytes_to_send : Buffer
  pub x_closed : Bool
  pub string_received : List ℕ

-- `x.end_input_stream()`, once all is written.
unfoldable pub close_input : Benchmark → Benchmark
close_input b =
    if buffer_length b.bytes_to_send == 0 && not b.x_closed
    then record b { x = Connection.end_input_stream b.x; x_closed = true }
    else b

unfoldable pub exchange : Bool → Benchmark → Benchmark
exchange reorder b =
    let (x, y) = move_segments reorder b.x b.y in
    let (y', x') = move_segments false y x in record b { x = x'; y = y' }

unfoldable pub read_output : Benchmark → Benchmark
read_output b =
    let available_output = ByteStream.buffer_size (inbound b.y) in
    if ltb 0 available_output
    then record b {
      y = record b.y { receiver = reader b.y.receiver available_output };
      string_received = b.string_received ++ (ByteStream.read (inbound b.y) available_output).1;
    }
    else b

unfoldable pub pass_time : Benchmark → Benchmark
pass_time b = record b { x = Connection.tick b.x 1000; y = Connection.tick b.y 1000 }

-- `loop`: every round of the first loop writes a byte, so the bytes that are left bound it.
unfoldable pub loop : Bool → Benchmark → Option Benchmark
loop reorder b = elim (write_input (suc (buffer_length b.bytes_to_send)) b.x b.bytes_to_send) [
  | none ↦ none
  | some (x, rest) ↦ some (
      pass_time
        (read_output (exchange reorder (close_input (record b { x = x; bytes_to_send = rest })))))
]

-- How a `while` over `loop` ends, for so many rounds.
pub data Outcome : Type 0 where
  finished running : Benchmark → Outcome
  thrown : Outcome

unfoldable pub loop_while : (Benchmark → Bool) → Bool → ℕ → Benchmark → Outcome
loop_while condition reorder zero b = if condition b then running b else finished b
loop_while condition reorder (suc rounds) b =
    let rest : Outcome = elim (loop reorder b) [
      | none ↦ thrown
      | some b' ↦ loop_while condition reorder rounds b'
    ] in
    if condition b then rest else finished b

abbrev pub not_received : Benchmark → Bool
not_received b = not (ByteStream.eof (inbound b.y))

abbrev pub is_active : Benchmark → Bool
is_active b = b.x.active || b.y.active

abbrev pub same_string : List ℕ → List ℕ → Bool
same_string [] [] = true
same_string [] (d ∷ ds) = false
same_string (c ∷ cs) [] = false
same_string (c ∷ cs) (d ∷ ds) = c == d && same_string cs ds

-- `main_loop` up to its loops; `x_random` and `y_random` are for the two senders.
unfoldable pub start : List ℕ → ℕ → ℕ → Benchmark
start string_to_send x_random y_random = record {
  x = Connection.connect (Connection.new default_config x_random);
  y = Connection.end_input_stream (Connection.new default_config y_random);
  bytes_to_send = of_string string_to_send;
  x_closed = false;
  string_received = [];
}

-- `main_loop` after its first loop, with so many rounds for the second.
unfoldable pub after_transfer : Bool → List ℕ → ℕ → Outcome → Outcome
after_transfer reorder string_to_send rounds (finished b) =
    if same_string b.string_received string_to_send
    then loop_while is_active reorder rounds b
    else thrown
after_transfer reorder string_to_send rounds (running b) = running b
after_transfer reorder string_to_send rounds thrown = thrown

-- `main_loop`, with so many rounds for each of its two loops.
unfoldable pub main_loop : Bool → List ℕ → ℕ → ℕ → ℕ → Outcome
main_loop reorder string_to_send x_random y_random rounds =
    after_transfer reorder string_to_send rounds
      (loop_while not_received reorder rounds (start string_to_send x_random y_random))
