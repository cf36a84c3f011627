-- ===== src/Examples/Copy.antt =====
-- The copy program between a standard input of three bytes and a socket that gives two.
use cs144_lab.Base.{List, [], arith, drop, length, length-take, min, refl, some, take, ℕ, ◌∷◌}
use cs144_lab.EventLoop.{PollAnswer, PollFd}
use cs144_lab.Examples.Running.{all_ready, all_ready-AreSound}
use cs144_lab.FileDescriptor
use cs144_lab.StreamCopy.Loop.{Kernel, Copy, Round, bidirectional_stream_copy}
use cs144_lab.StreamCopy.Running.{
  Answers, AreSoundRounds, IsConserving, bidirectional_stream_copy-IsConserving,
}

-- What is left to be read of the two.
record Outside : Type 0 where
  input : List ℕ
  socket : List ℕ

abbrev kernel : Kernel Outside
kernel = record {
  input_read = λ e limit. (record e { input = drop limit e.input }, some (take limit e.input));
  socket_read = λ e limit. (record e { socket = drop limit e.socket }, some (take limit e.socket));
  socket_write = λ e bytes. some (min 2 (length bytes));
  output_write = λ e bytes. some (length bytes);
}

IsAny : Outside → Type 0
IsAny e = Unit {0}

kernel-Answers : Answers kernel IsAny
unfolding IsAny
kernel-Answers = record {
  input = λ e limit i. (
    record e { input = drop limit e.input },
    take limit e.input,
    refl,
    omega (arith, length-take limit e.input),
    tt,
  );
  socket = λ e limit i. (
    record e { socket = drop limit e.socket },
    take limit e.socket,
    refl,
    omega (arith, length-take limit e.socket),
    tt,
  );
  socket_takes = λ e i bytes. (min 2 (length bytes), refl, omega arith, ground arith);
  output_takes = λ e i bytes. (length bytes, refl, omega arith, ground arith);
}

abbrev round : Round Outside
round = record { elapse = λ w. w.outside; poll = λ w ps. PollAnswer.events (all_ready ps) }

abbrev rounds : List (Round Outside)
rounds = round ∷ round ∷ round ∷ []

rounds-AreSound : AreSoundRounds IsAny rounds
unfolding IsAny
rounds-AreSound =
    let kept : (w : Copy Outside) → IsAny w.outside → IsAny w.outside = λ w i. i in
    let answers = λ (w : Copy Outside) (ps : List PollFd). all_ready-AreSound ps in
    (kept, answers, (kept, answers, (kept, answers, tt)))

abbrev at_first : Outside
at_first = record { input = 1 ∷ 2 ∷ 3 ∷ []; socket = 8 ∷ 9 ∷ [] }

bidirectional_stream_copy-IsConserving_example : IsConserving (
    bidirectional_stream_copy kernel rounds
      (FileDescriptor.new 0)
      (FileDescriptor.new 1)
      (FileDescriptor.new 3)
      at_first)
bidirectional_stream_copy-IsConserving_example =
    bidirectional_stream_copy-IsConserving kernel IsAny kernel-Answers rounds (FileDescriptor.new 0)
      (FileDescriptor.new 1) (FileDescriptor.new 3) at_first rounds-AreSound (unfold IsAny in tt)
