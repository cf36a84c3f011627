-- ===== src/Benchmark/Outcomes.antt =====
-- What `main_loop` can end with.
use cs144_lab.Base.{
  Bool, Bool-cases, List, [], ap, arith, false, inl, inr, length, min, refl, slice, slice_zero, suc,
  sym, take, take-slice, true, zero, ℕ, ◌+◌, ◌<◌, ◌^◌, ◌∙◌, ◌∷◌, ◌≡◌,
}
use cs144_lab.ByteStream
use cs144_lab.Connection
use cs144_lab.Sender
use cs144_lab.Connection.{default_config, inbound}
use cs144_lab.Connection.Invariant.{Stream, connect-Serves, end_input_stream-Serves}
use cs144_lab.Connection.Boundary.{new-Serves}
use cs144_lab.Connection.Outbound.{written, written-connect}
use cs144_lab.Benchmark.{
  after_transfer, Benchmark, Outcome, finished, running, thrown, is_active, not_received,
  same_string, start, loop_while, main_loop,
}
use cs144_lab.Benchmark.Transfer.{IsRunning, loop_returns}

-- The byte at a position of a list, 0 beyond its end.
byte_of : List ℕ → ℕ → ℕ
byte_of [] i = 0
byte_of (b ∷ bytes) zero = b
byte_of (b ∷ bytes) (suc i) = byte_of bytes i

slice_shift :
    (b : ℕ) (bytes : List ℕ) (k n : ℕ)
    → slice (byte_of (b ∷ bytes)) (suc k) n ≡ slice (byte_of bytes) k n
unfolding slice byte_of
slice_shift b bytes k zero = refl
slice_shift b bytes k (suc n) = ap (λ t. byte_of bytes k ∷ t) (slice_shift b bytes (suc k) n)

-- A list is the stretch of its own bytes.
slice-byte_of : (bytes : List ℕ) → bytes ≡ slice (byte_of bytes) 0 (length bytes)
unfolding slice byte_of
slice-byte_of [] = refl
slice-byte_of (b ∷ bytes) =
    ap (λ t. b ∷ t) (slice-byte_of bytes ∙ sym (slice_shift b bytes 0 (length bytes)))

-- The invariant of a loop, and the negation of its condition at its end. An exception has none.
abbrev Keeps : (Benchmark → Type 0) → (Benchmark → Bool) → Outcome → Type 0
Keeps P condition (finished b) = P b × (condition b ≡ false)
Keeps P condition (running b) = P b
Keeps P condition thrown = ⊥

module _ (own peer : Stream) (m : ℕ) where
  loop_while-IsRunning :
      (condition : Benchmark → Bool) (reorder : Bool) (rounds : ℕ) (b : Benchmark)
      → IsRunning own peer m b
      → Keeps (IsRunning own peer m) condition (loop_while condition reorder rounds b)
  unfolding loop_while
  loop_while-IsRunning condition reorder zero b i = elim (Bool-cases (condition b)) [
    | inl more ↦ rw more i
    | inr done ↦ rw done (i, done)
  ]
  loop_while-IsRunning condition reorder (suc rounds) b i = elim (Bool-cases (condition b)) [
    | inr done ↦ rw done (i, done)
    | inl more ↦
        let (b', e, i') = loop_returns own peer m reorder b i in
        rw (more, e) (loop_while-IsRunning condition reorder rounds b' i')
  ]

  -- Once the inbound stream of `y` is at its end, all was received.
  all_received :
      (b : Benchmark)
      → IsRunning own peer m b
      → not_received b ≡ false
      → length b.string_received ≡ own.size
  unfolding ByteStream.eof
  all_received b i e =
      let h = i.receives.receiver.holds.valid in
      let ended : (inbound b.y).is_input_end ≡ true = ground (arith, e) in
      let empty : length (inbound b.y).buff ≡ 0 = ground (arith, e) in
      omega (arith, h.stream, h.ended_complete ended, i.receives.consumed, empty)

same_string_self : (s : List ℕ) → same_string s s ≡ true
same_string_self [] = refl
same_string_self (c ∷ cs) = ground (arith, same_string_self cs)

module _ (text : List ℕ) (x_random y_random : ℕ) (small : length text + 1 < 2 ^ 32) where
  abbrev own : Stream
  own = record {
    byte_at = byte_of text;
    size = length text;
    isn = (Connection.new default_config x_random).sender.isn;
  }

  abbrev peer : Stream
  peer = record {
    byte_at = byte_of [];
    size = 0;
    isn = (Connection.new default_config y_random).sender.isn;
  }

  isn_small : (random : ℕ) → (Connection.new default_config random).sender.isn < 2 ^ 32
  unfolding Connection.new Sender.new
  isn_small random = omega arith

  start-IsRunning : IsRunning own peer 0 (start text x_random y_random)
  unfolding start
  start-IsRunning =
      let x = Connection.new default_config x_random in
      let y = Connection.new default_config y_random in
      let fresh : (random : ℕ) → written (Connection.new default_config random) ≡ 0 =
        λ random. unfold Connection.new Sender.new ByteStream.new in refl in
      let nothing : written (Connection.connect x) ≡ 0 = written-connect x ∙ fresh x_random in
      record {
        sends = connect-Serves own peer 0 x (
            new-Serves own peer default_config x_random refl (omega arith) (omega arith) small
              (isn_small x_random) (omega arith) (isn_small y_random));
        receives =
            end_input_stream-Serves peer own 0 y
              (new-Serves peer own default_config y_random refl (omega arith) (omega arith)
                (omega arith) (isn_small y_random) small (isn_small x_random))
              (fresh y_random);
        received = sym (slice_zero own.byte_at 0);
        left = record {
          valid = omega arith;
          count = omega (arith, nothing);
          bytes = slice-byte_of text ∙ ap (λ k. slice (byte_of text) k (length text)) (sym nothing);
        };
        grown = omega arith;
      }

  -- What each outcome says of the text.
  abbrev pub IsFaithful : Outcome → Type 0
  IsFaithful (finished b) = (b.string_received ≡ text) × (b.x.active ≡ false) × (b.y.active ≡ false)
  IsFaithful (running b) = b.string_received ≡ take (length b.string_received) text
  IsFaithful thrown = ⊥

  beginning :
      (m : ℕ) (b : Benchmark)
      → IsRunning own peer m b
      → b.string_received ≡ take (length b.string_received) text
  beginning m b i =
      let h = i.receives.receiver.holds.valid in
      let n = length b.string_received in
      let inside : n ≡ min n (length text) =
        omega (arith, h.stream, h.written-le, i.receives.consumed) in
      i.received
      ∙ ap (slice (byte_of text) 0) inside
      ∙ sym (take-slice (byte_of text) n 0 (length text))
      ∙ sym (ap (take n) (slice-byte_of text))

  complete_length :
      (b : Benchmark) → IsRunning own peer (length text) b → length b.string_received ≡ length text
  complete_length b i =
      let h = i.receives.receiver.holds.valid in
      omega (arith, i.grown, h.stream, h.written-le, i.receives.consumed)

  whole :
      (m : ℕ) (b : Benchmark)
      → IsRunning own peer m b
      → length b.string_received ≡ length text
      → b.string_received ≡ text
  whole m b i e = i.received ∙ ap (slice (byte_of text) 0) e ∙ sym (slice-byte_of text)

  -- The second loop starts with all of the text received.
  drained :
      (reorder : Bool) (rounds : ℕ) (b : Benchmark)
      → IsRunning own peer (length text) b
      → IsFaithful (loop_while is_active reorder rounds b)
  drained reorder rounds b i =
      conclusion (loop_while is_active reorder rounds b)
        (loop_while-IsRunning own peer (length text) is_active reorder rounds b i)
    where
      conclusion :
          (o : Outcome) → Keeps (IsRunning own peer (length text)) is_active o → IsFaithful o
      conclusion (finished b') k = (
        whole (length text) b' k.0 (complete_length b' k.0),
        ground (arith, k.1),
        ground (arith, k.1),
      )
      conclusion (running b') k = beginning (length text) b' k
      conclusion thrown k = k

  compared :
      (reorder : Bool) (rounds : ℕ) (o : Outcome)
      → Keeps (IsRunning own peer 0) not_received o
      → IsFaithful (after_transfer reorder text rounds o)
  unfolding after_transfer
  compared reorder rounds (finished b) k =
      let e = all_received own peer 0 b k.0 k.1 in
      let same : same_string b.string_received text ≡ true =
        ap (λ t. same_string t text) (whole 0 b k.0 e) ∙ same_string_self text in
      rw same (
        drained reorder rounds b (record {
          sends = k.0.sends;
          receives = k.0.receives;
          received = k.0.received;
          left = k.0.left;
          grown = omega (arith, e);
        }))
  compared reorder rounds (running b) k = beginning 0 b k
  compared reorder rounds thrown k = k

  -- For a text of less than 2 ^ 32 - 1 bytes, any initial numbers, with or without reordering, and
  -- any number of rounds, the benchmark does not throw; when it finishes, the string received is
  -- the text and both connections are inactive; and as long as it runs, what was received is a
  -- prefix of the text.
  pub main_loop-IsFaithful :
      (reorder : Bool) (rounds : ℕ) → IsFaithful (main_loop reorder text x_random y_random rounds)
  unfolding main_loop
  main_loop-IsFaithful reorder rounds =
      let b = start text x_random y_random in
      compared reorder rounds (loop_while not_received reorder rounds b)
        (loop_while-IsRunning own peer 0 not_received reorder rounds b start-IsRunning)
