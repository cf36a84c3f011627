-- ===== src/Examples/Reassembler.antt =====
-- A reassembler that is given a stream of five bytes with a gap.
use cs144_lab.Base.{List, [], arith, false, length, refl, slice, true, ℕ, ◌+◌, ◌<◌, ◌∷◌, ◌≡◌}
use cs144_lab.ByteStream
use cs144_lab.Reassembler
use cs144_lab.Reassembler.{StreamReassembler, push_substring}
use cs144_lab.Reassembler.Chunks
use cs144_lab.Reassembler.Delivery.{IsPart, Pushed, push_substring-Pushed}
use cs144_lab.Reassembler.Invariant.{has}
use cs144_lab.Reassembler.History.{
  Event, push, read, run, outputs, Holds, new-Holds, run-outputs, run_maximal, run_complete, step,
}
use cs144_lab.Examples.{sample}

new-Holds_here : (N : ℕ) → N < 6 → Holds sample N (Reassembler.new 8)
new-Holds_here N h = new-Holds sample N 8 (omega arith)

later : IsPart sample 5 (12 ∷ 13 ∷ []) 2 false
later = record { whole = unfold slice in refl; inside = omega arith; last = λ e. cc }

earlier : IsPart sample 5 (10 ∷ 11 ∷ 12 ∷ []) 0 false
earlier = record { whole = unfold slice in refl; inside = omega arith; last = λ e. cc }

last_byte : IsPart sample 5 (14 ∷ []) 4 true
last_byte = record { whole = unfold slice in refl; inside = omega arith; last = λ e. refl }

all_bytes : IsPart sample 2 (10 ∷ 11 ∷ []) 0 true
all_bytes = record { whole = unfold slice in refl; inside = omega arith; last = λ e. refl }

abbrev gapped : StreamReassembler
gapped = push_substring (Reassembler.new 8) (12 ∷ 13 ∷ []) 2 false

Pushed-here : Pushed sample 5 (Reassembler.new 8) (12 ∷ 13 ∷ []) 2 gapped
Pushed-here =
    let h = new-Holds_here 5 (omega arith) in
    push_substring-Pushed sample 5 (Reassembler.new 8) (12 ∷ 13 ∷ []) 2 false h.valid h.ended later

-- The first three bytes close the gap before the two that wait.
push_substring-Pushed_example :
    Pushed sample 5 gapped (10 ∷ 11 ∷ 12 ∷ []) 0 (push_substring gapped (10 ∷ 11 ∷ 12 ∷ []) 0 false)
push_substring-Pushed_example =
    push_substring-Pushed sample 5 gapped (10 ∷ 11 ∷ 12 ∷ []) 0 false Pushed-here.valid
      Pushed-here.ended earlier

abbrev history : List Event
history =
    push (12 ∷ 13 ∷ []) 2 false
    ∷ push (10 ∷ 11 ∷ 12 ∷ []) 0 false
    ∷ read 3
    ∷ push (14 ∷ []) 4 true
    ∷ read 9
    ∷ []

run-outputs_example :
    Holds sample 5 (run (Reassembler.new 8) history)
    × (outputs (Reassembler.new 8) history
        ≡ slice sample
            (Reassembler.new 8).output.totout
            (length (outputs (Reassembler.new 8) history)))
    × ((run (Reassembler.new 8) history).output.totout
        ≡ (Reassembler.new 8).output.totout + length (outputs (Reassembler.new 8) history))
run-outputs_example =
    run-outputs sample 5 (Reassembler.new 8) history (new-Holds_here 5 (omega arith))
      (later, (earlier, (last_byte, tt)))

abbrev gap : List Event
gap = push (12 ∷ 13 ∷ []) 2 false ∷ []

run_maximal_example :
    has (run (Reassembler.new 8) gap) (run (Reassembler.new 8) gap).output.totin ≡ false
run_maximal_example =
    run_maximal sample 5 (Reassembler.new 8) gap (new-Holds_here 5 (omega arith)) (later, tt)

abbrev full : StreamReassembler
full = push_substring (Reassembler.new 8) (10 ∷ 11 ∷ []) 0 true

full-Pushed : Pushed sample 2 (Reassembler.new 8) (10 ∷ 11 ∷ []) 0 full
full-Pushed =
    let h = new-Holds_here 2 (omega arith) in
    push_substring-Pushed sample 2 (Reassembler.new 8) (10 ∷ 11 ∷ []) 0 true h.valid h.ended
      all_bytes

full-has : (i : ℕ) → i < 2 → has full i ≡ true
unfolding Reassembler.Chunks.within Reassembler.new ByteStream.new
full-has i h = ground (arith, full-Pushed.taken i, full-Pushed.same_reader)

full_known : full.pos_eof ≡ 2
unfolding ByteStream.new ByteStream.read ByteStream.peek_output ByteStream.pop_output
    ByteStream.write ByteStream.remaining_capacity ByteStream.eof ByteStream.end_input
    Reassembler.new Reassembler.scan Reassembler.keep Reassembler.place
    Reassembler.push_unassembled_string Reassembler.pop_unassembled_string Reassembler.finish
    Reassembler.deliver Reassembler.accept Reassembler.push_substring
full_known = refl

run_complete_example :
    (full.output.totin ≡ 2) × (full.unassembled_count ≡ 0) × (full.output.is_input_end ≡ true)
unfolding run step
run_complete_example =
    run_complete sample 2 (Reassembler.new 8) (push (10 ∷ 11 ∷ []) 0 true ∷ [])
      (new-Holds_here 2 (omega arith)) (all_bytes, tt) full-has full_known
