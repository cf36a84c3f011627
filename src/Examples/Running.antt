-- ===== src/Examples/Running.antt =====
-- A socket in its event loop, with a peer that sends five bytes; and the benchmark with a text of three.
use cs144_lab.Base.{
  List, Option, [], arith, drop, false, if◌then◌else◌, inl, length, length-take, min, none, refl,
  slice, some, take, true, ℕ, ◌%◌, ◌+◌, ◌^◌, ◌∷◌, ◌≡◌,
}
use cs144_lab.Benchmark.{main_loop}
use cs144_lab.Benchmark.Outcomes.{IsFaithful, main_loop-IsFaithful}
use cs144_lab.Connection.{default_config}
use cs144_lab.Connection.Invariant.{Stream}
use cs144_lab.EventLoop.{PollAnswer, PollFd, Revents}
use cs144_lab.EventLoop.Waiting.{AreSound}
use cs144_lab.Examples.{sample}
use cs144_lab.FileDescriptor
use cs144_lab.FileDescriptor.{FileDescriptor}
use cs144_lab.Receiver.Genuine.{Carries, IsGenuine}
use cs144_lab.Segment.{TcpSegment, default_header}
use cs144_lab.Sender.Invariant.{AllGenuine}
use cs144_lab.SpongeSocket.Contract.{Answers, IsGot}
use cs144_lab.SpongeSocket.Loop.{Environment, Round, Opening, connect, listen_and_accept}
use cs144_lab.SpongeSocket.Running.{IsFaithfulEnd, IsSoundRound, AreSoundRounds, opened-IsFaithful}
use cs144_lab.TcpOverIp.{Endpoint, FdAdapter}
use cs144_lab.Wrapping.{wrap}

abbrev five_bytes : Stream
five_bytes = record { byte_at = sample; size = 5; isn = 100 }

abbrev opening_segment : TcpSegment
opening_segment = record {
  header = record default_header { seqno = 100; syn = true };
  payload = [];
}

abbrev last_segment : TcpSegment
last_segment = record {
  header = record default_header { seqno = 101; fin = true; ack = true; ackno = 10; win = 1000 };
  payload = 10 ∷ 11 ∷ 12 ∷ 13 ∷ 14 ∷ [];
}

opening-Carries : Carries sample 5 100 0 opening_segment
opening-Carries = record {
  part = record { whole = unfold slice in refl; inside = omega arith; last = λ e. cc };
  first = λ e. (refl, refl);
  later = λ e. cc;
}

last-Carries : Carries sample 5 100 0 last_segment
last-Carries = record {
  part = record { whole = unfold slice in refl; inside = omega arith; last = λ e. refl };
  first = λ e. cc;
  later = λ e. unfold wrap in refl;
}

-- The segments that arrive, and what the application writes.
record Outside : Type 0 where
  adapter : FileDescriptor
  base : FdAdapter
  inbox : List TcpSegment
  text : List ℕ

read_inbox : Outside → List TcpSegment → Option (Outside × Option TcpSegment)
read_inbox e [] =
    some (record e { adapter = FileDescriptor.register_read e.adapter; inbox = [] }, none)
read_inbox e (seg ∷ rest) =
    some (record e { adapter = FileDescriptor.register_read e.adapter; inbox = rest }, some seg)

-- The application takes two bytes at a time, until it was shown the end.
abbrev outside : Environment Outside
outside = record {
  adapter = λ e. e.adapter;
  base = λ e. e.base;
  with_base = λ b e. record e { base = b };
  adapter_read = λ e. read_inbox e e.inbox;
  adapter_write = λ e seg. some (record e { adapter = FileDescriptor.register_write e.adapter });
  offer = λ e limit. (record e { text = drop limit e.text }, some (take limit e.text));
  accept = λ e shut bytes. if shut then none else some (min 2 (length bytes));
  deliver = λ e sent. e;
}

AreGenuine : Outside → Type 0
AreGenuine e = AllGenuine sample 5 100 e.inbox

reads :
    (e : Outside) (inbox : List TcpSegment)
    → AllGenuine sample 5 100 inbox
    → (e' : Outside) × (got : Option TcpSegment) × (read_inbox e inbox ≡ some (e', got))
      × (e'.adapter.read_count ≡ (e.adapter.read_count + 1) % 2 ^ 32)
      × IsGot five_bytes got
      × AreGenuine e'
unfolding read_inbox AreGenuine FileDescriptor.register_read
reads e [] g = (
  record e { adapter = FileDescriptor.register_read e.adapter; inbox = [] },
  none,
  refl,
  refl,
  tt,
  tt,
)
reads e (seg ∷ rest) g = (
  record e { adapter = FileDescriptor.register_read e.adapter; inbox = rest },
  some seg,
  refl,
  refl,
  g.0,
  g.1,
)

outside-Answers : Answers outside five_bytes AreGenuine
unfolding AreGenuine
outside-Answers = record {
  reads = λ e g. reads e e.inbox g;
  writes = λ e seg g. (record e { adapter = FileDescriptor.register_write e.adapter }, refl, g);
  offers = λ e limit g. (
    record e { text = drop limit e.text },
    take limit e.text,
    refl,
    omega (arith, length-take limit e.text),
    g,
  );
  accepts = λ e g bytes. (min 2 (length bytes), refl, omega arith, ground arith);
  refuses = λ e bytes g. inl refl;
  delivers = λ e sent g. g;
  configures = λ e b g. g;
}

-- Every descriptor is ready.
abbrev pub ready : Revents
ready = record { readable = true; writable = true; hung_up = false; failed = false }

unfoldable pub all_ready : List PollFd → List Revents
all_ready [] = []
all_ready (p ∷ ps) = ready ∷ all_ready ps

pub all_ready-AreSound : (ps : List PollFd) → AreSound ps (all_ready ps)
unfolding all_ready
all_ready-AreSound [] = tt
all_ready-AreSound (p ∷ ps) = (refl, all_ready-AreSound ps)

abbrev round : Round Outside
round = record {
  elapse = λ e. e;
  poll = λ w ps. PollAnswer.events (all_ready ps);
  aborted = false;
  now = 5;
}

round-IsSoundRound : IsSoundRound AreGenuine round
round-IsSoundRound = record { elapses = λ e g. g; answers = λ w ps. all_ready-AreSound ps }

abbrev rounds : List (Round Outside)
rounds = round ∷ round ∷ round ∷ round ∷ round ∷ []

abbrev here : Endpoint
here = record { ipv4_numeric = 1; port = 1000 }

abbrev opening : Opening Outside
opening = record {
  app = FileDescriptor.new 3;
  thread_data = FileDescriptor.new 4;
  cfg = default_config;
  random = 9;
  source = here;
  destination = here;
  base_time = 0;
  rounds = rounds;
  main_base_time = 5;
  main_rounds = rounds;
}

abbrev at_first : Outside
at_first = record {
  adapter = FileDescriptor.new 5;
  base = record { source = here; destination = here; listening = false };
  inbox = opening_segment ∷ last_segment ∷ [];
  text = 1 ∷ 2 ∷ [];
}

at_first-AreGenuine : AreGenuine at_first
unfolding AreGenuine
at_first-AreGenuine = (IsGenuine.carries 0 opening-Carries, (IsGenuine.carries 0 last-Carries, tt))

rounds-AreSound : AreSoundRounds AreGenuine rounds
rounds-AreSound = let r = round-IsSoundRound in (r, (r, (r, (r, (r, tt)))))

opened-IsFaithful_example :
    IsFaithfulEnd five_bytes (connect outside opening at_first).0
    × IsFaithfulEnd five_bytes (listen_and_accept outside opening at_first).0
opened-IsFaithful_example =
    opened-IsFaithful outside five_bytes AreGenuine outside-Answers opening at_first (omega arith)
      (omega arith) (omega arith) (omega arith) rounds-AreSound rounds-AreSound at_first-AreGenuine

main_loop-IsFaithful_example :
    IsFaithful (7 ∷ 8 ∷ 9 ∷ []) 5 1000 (omega arith) (main_loop true (7 ∷ 8 ∷ 9 ∷ []) 5 1000 30)
main_loop-IsFaithful_example = main_loop-IsFaithful (7 ∷ 8 ∷ 9 ∷ []) 5 1000 (omega arith) true 30
