-- ===== src/ByteStream/Fifo.antt =====
-- A byte stream against a queue: what goes in comes out, once, in order.
use cs144_lab.Base.{
  List, [], ap, append-nil, append_assoc, length, min, refl, sym, take, take-append-drop, ℕ, ◌++◌,
  ◌∙◌, ◌∷◌, ◌≡◌,
}
use cs144_lab.ByteStream.{ByteStream, write, read, peek_output, pop_output, end_input, set_error}
use cs144_lab.ByteStream.Laws.{read_lem}

-- The calls of a writer and a reader.
pub data Call : Type 0 where
  writes : List ℕ → Call
  reads : ℕ → Call
  ends errs : Call

pub after : ByteStream → Call → ByteStream
after s (writes bytes) = (write s bytes).0
after s (reads len) = (read s len).0
after s ends = end_input s
after s errs = set_error s

pub run : ByteStream → List Call → ByteStream
run s [] = s
run s (c ∷ cs) = run (after s c) cs

-- The bytes that the writes of a history put into the stream: of each the prefix whose length
-- `write` returned.
accepted_by : ByteStream → Call → List ℕ
accepted_by s (writes bytes) = take ((write s bytes).1) bytes
accepted_by s _ = []

pub accepted : ByteStream → List Call → List ℕ
accepted s [] = []
accepted s (c ∷ cs) = accepted_by s c ++ accepted (after s c) cs

-- The bytes that its reads returned.
returned_by : ByteStream → Call → List ℕ
returned_by s (reads len) = (read s len).1
returned_by s _ = []

pub returned : ByteStream → List Call → List ℕ
returned s [] = []
returned s (c ∷ cs) = returned_by s c ++ returned (after s c) cs

peek-append-pop : (s : ByteStream) (len : ℕ) → peek_output s len ++ (pop_output s len).buff ≡ s.buff
unfolding peek_output pop_output
peek-append-pop s len = take-append-drop (min len (length s.buff)) s.buff

after_fifo :
    (s : ByteStream) (c : Call) → returned_by s c ++ (after s c).buff ≡ s.buff ++ accepted_by s c
unfolding after returned_by accepted_by write end_input set_error
after_fifo s (writes bytes) = refl
after_fifo s (reads len) =
    ap (λ p. p.1 ++ p.0.buff) (read_lem s len) ∙ peek-append-pop s len ∙ sym (append-nil s.buff)
after_fifo s ends = sym (append-nil s.buff)
after_fifo s errs = sym (append-nil s.buff)

-- Over any history of writes, reads, ends and errors, the bytes that the reads returned, followed
-- by what is still buffered, are the bytes buffered at first followed by those that the writes
-- accepted, in order.
pub run_fifo :
    (s : ByteStream) (cs : List Call) → returned s cs ++ (run s cs).buff ≡ s.buff ++ accepted s cs
unfolding run returned accepted
run_fifo s [] = sym (append-nil s.buff)
run_fifo s (c ∷ cs) =
    append_assoc (returned_by s c) (returned (after s c) cs) (run (after s c) cs).buff
    ∙ ap (λ t. returned_by s c ++ t) (run_fifo (after s c) cs)
    ∙ sym (append_assoc (returned_by s c) (after s c).buff (accepted (after s c) cs))
    ∙ ap (λ t. t ++ accepted (after s c) cs) (after_fifo s c)
    ∙ append_assoc s.buff (accepted_by s c) (accepted (after s c) cs)
