-- ===== src/EventLoop.antt =====
-- libsponge/util/eventloop.{hh,cc}: rules on descriptors, and one round of waiting for them.
pub mod Waiting
pub mod Turning
use cs144_lab.Base.{
  Bool, List, Option, [], false, if◌then◌else◌, none, not, some, true, ℕ, ◌&&◌, ◌==◌, ◌||◌, ◌∷◌,
}
use cs144_lab.FileDescriptor.{FileDescriptor}

pub data Direction : Type 0 where
  input output : Direction

pub data Result : Type 0 where
  success timeout exit : Result

-- The test of the loops over `wait_next_event`.
abbrev pub is_exit : Result → Bool
is_exit exit = true
is_exit _ = false

-- What the kernel is asked of a descriptor; `none` is the placeholder with no events.
pub record PollFd : Type 0 where
  pub fd : ℕ
  pub events : Option Direction

-- The bits of `revents`; `failed` is POLLERR or POLLNVAL.
pub record Revents : Type 0 where
  pub readable : Bool
  pub writable : Bool
  pub hung_up : Bool
  pub failed : Bool

abbrev pub no_revents : Revents
no_revents = record { readable = false; writable = false; hung_up = false; failed = false }

-- What `poll` returns: the bits of each descriptor, 0 for a timeout, or an error.
pub data PollAnswer : Type 0 where
  events : List Revents → PollAnswer
  nothing interrupted other_error : PollAnswer

abbrev pub poll_ready : PollFd → Revents → Bool
poll_ready p rev = elim p.events [
  | none ↦ false
  | some direction ↦ elim direction [ input ↦ rev.readable | output ↦ rev.writable ]
]

abbrev pub asked : PollFd → Bool
asked p = elim p.events [ none ↦ false | some _ ↦ true ]

-- No bit is set before the call.
pub untouched : List PollFd → List Revents
untouched [] = []
untouched (p ∷ ps) = no_revents ∷ untouched ps

-- `class Rule`, where `W` is all that the callbacks read and write. A callback may throw.
pub record Rule (W : Type 0) : Type 0 where
  pub fd : ℕ
  pub direction : Direction
  pub callback : W → Option W
  pub interest : W → Bool
  pub cancel : W → W

-- The result after the second loop.
abbrev pub serving : {W : Type 0} → Option (List (Rule W) × W) → Option (Result × List (Rule W) × W)
serving none = none
serving (some (rules, w)) = some (Result.success, rules, w)

-- The descriptors are a part of `W`, by their numbers.
module _ {W : Type 0} (descriptor : W → ℕ → FileDescriptor) where
  abbrev pub service_count : Rule W → W → ℕ
  service_count r w = elim r.direction [
    | input ↦ (descriptor w r.fd).read_count
    | output ↦ (descriptor w r.fd).write_count
  ]

  -- The two tests that cancel a rule before the call of `poll`.
  abbrev pub is_over : Rule W → W → Bool
  is_over r w =
      (elim r.direction [ input ↦ (descriptor w r.fd).eof | output ↦ false ])
      || (descriptor w r.fd).closed

  abbrev pub poll_fd : Rule W → W → PollFd
  poll_fd r w = record { fd = r.fd; events = if r.interest w then some r.direction else none }

  -- The first loop: the rules that stay, what is asked of each, and whether anything is.
  unfoldable pub set_up : List (Rule W) → W → List (Rule W) × List PollFd × Bool × W
  set_up [] w = ([], [], false, w)
  set_up (r ∷ rules) w =
      let over = is_over r w in
      let rest = set_up rules (if over then r.cancel w else w) in
      if over then rest else (r ∷ rest.0, poll_fd r w ∷ rest.1, r.interest w || rest.2, rest.3)

  -- One round of the second loop: whether the rule stays; `none` is an exception.
  unfoldable pub serve : Rule W → PollFd → Revents → W → Option (Bool × W)
  serve r p rev w =
      if rev.failed
      then none
      else if rev.hung_up && (asked p && not (poll_ready p rev))
      then some (false, r.cancel w)
      else if poll_ready p rev
      then (elim (r.callback w) [
        | none ↦ none
        | some w' ↦
            if service_count r w == service_count r w' && r.interest w'
            then none
            else some (true, w')
      ])
      else some (true, w)

  -- The second loop. There is one `pollfd` for each rule; without one there is nothing to read.
  pub serve_all : List (Rule W) → List PollFd → List Revents → W → Option (List (Rule W) × W)
  serve_all [] ps revs w = some ([], w)
  serve_all (r ∷ rules) [] revs w = none
  serve_all (r ∷ rules) (p ∷ ps) [] w = none
  serve_all (r ∷ rules) (p ∷ ps) (rev ∷ revs) w = elim (serve r p rev w) [
    | none ↦ none
    | some (kept, w') ↦ elim (serve_all rules ps revs w') [
      | none ↦ none
      | some (rules', w'') ↦ some (if kept then r ∷ rules' else rules', w'')
    ]
  ]

  -- What follows the call of `poll`. An error other than EINTR is caught, and the loop goes through bits
  -- that were never set.
  unfoldable pub after_poll :
      List (Rule W) → List PollFd → W → PollAnswer → Option (Result × List (Rule W) × W)
  after_poll rules ps w (events revs) = serving (serve_all rules ps revs w)
  after_poll rules ps w nothing = some (Result.timeout, rules, w)
  after_poll rules ps w interrupted = some (Result.exit, rules, w)
  after_poll rules ps w other_error = serving (serve_all rules ps (untouched ps) w)

  -- `wait_next_event`, with what `poll` answers; `none` is an exception.
  unfoldable pub wait_next_event :
      (W → List PollFd → PollAnswer) → List (Rule W) → W → Option (Result × List (Rule W) × W)
  wait_next_event poll rules w =
      let (rules', ps, something_to_poll, w') = set_up rules w in
      if not something_to_poll
      then some (Result.exit, rules', w')
      else after_poll rules' ps w' (poll w' ps)
