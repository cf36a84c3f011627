-- ===== src/SpongeSocket/Rounds.antt =====
-- A round of a socket: from which worlds it may throw, and what it leaves.
use cs144_lab.Base.{
  <-cases, Bool-cases, List, Option, ap, arith, inl, inr, length, none, slice, some, true, ◌<◌, ◌∙◌,
  ◌≡◌, ◌≤◌, ◌⊎◌,
}
use cs144_lab.Connection.{inbound}
use cs144_lab.Connection.Invariant.{Stream}
use cs144_lab.EventLoop.{PollAnswer, PollFd, Result, Rule, wait_next_event}
use cs144_lab.EventLoop.Turning.{Once, wait_next_event_turns}
use cs144_lab.EventLoop.Waiting.{IsSoundAnswer}
use cs144_lab.SpongeSocket.Contract.{Answers, Holds, open_yet, all_given, any_stage}
use cs144_lab.SpongeSocket.Shutting.{Holds-any, Keeping, Ending}
use cs144_lab.SpongeSocket.Loop.{Environment, World, descriptor}

-- The application was given the beginning of the stream, and was shown its end only where that was all
-- or the connection has failed.
pub record IsFaithful {E : Type 0} (peer : Stream) (w : World E) : Type 0 where
  pub prefix : w.delivered ≡ slice peer.byte_at 0 (length w.delivered)
  pub bounded : length w.delivered ≤ peer.size
  pub ended :
      w.socket.write_shut ≡ true
      → ((inbound w.socket.tcp).has_error ≡ true) ⊎ (w.delivered ≡ slice peer.byte_at 0 peer.size)

-- The inbound stream has failed, and the application was shown the end before it was given all.
pub record IsCutShort {E : Type 0} (peer : Stream) (w : World E) : Type 0 where
  pub shut : w.socket.write_shut ≡ true
  pub failed : (inbound w.socket.tcp).has_error ≡ true
  pub missing : length w.delivered < peer.size

module _ {E : Type 0} (env : Environment E) (peer : Stream) (I : E → Type 0)
    (a : Answers env peer I) where
  pub Holds-IsFaithful : (w : World E) → Holds peer I any_stage w → IsFaithful peer w
  Holds-IsFaithful w h =
      let v = h.passed.tracks.holds.valid in
      record {
        prefix = h.prefix;
        bounded = omega (arith, h.passed.consumed, v.stream.counted, v.written-le);
        ended = λ e. elim (h.passed.over e) [
          | inl wrong ↦ inl wrong
          | inr all ↦ inr (h.prefix ∙ ap (slice peer.byte_at 0) all)
        ];
      }

  -- In which stage a world is, or whether it was cut short.
  Stage-cases :
      (w : World E)
      → Holds peer I any_stage w
      → Holds peer I open_yet w ⊎ (Holds peer I all_given w ⊎ IsCutShort peer w)
  Stage-cases w h = elim (Bool-cases w.socket.write_shut) [
    | inr unshut ↦ inl (record {
      fits = h.fits;
      outside = h.outside;
      passed = h.passed;
      prefix = h.prefix;
      both = h.both;
      shown = unshut;
    })
    | inl shut ↦ elim (<-cases (length w.delivered) peer.size) [
      | inr all ↦ inr (
          inl (record {
            fits = h.fits;
            outside = h.outside;
            passed = h.passed;
            prefix = h.prefix;
            both = h.both;
            shown = (shut, omega (arith, all, (Holds-IsFaithful w h).bounded));
          }))
      | inl missing ↦ inr (
          inr (record {
            shut = shut;
            failed = elim (h.passed.over shut) [
              | inl wrong ↦ wrong
              | inr all ↦ absurd (omega (arith, all, missing))
            ];
            missing = missing;
          }))
    ]
  ]

  -- The rules that are left.
  abbrev pub AreLeft : List (Rule (World E)) → Type 0
  AreLeft rs = Once (descriptor env) (Keeping env peer I a) (Ending env peer I a) rs

  -- A round throws only from a world that was cut short.
  abbrev pub RoundEnded : World E → Option (Result × List (Rule (World E)) × World E) → Type 0
  RoundEnded w out =
      ((out ≡ none) × IsCutShort peer w)
      ⊎ ((result : Result) × (rs' : List (Rule (World E))) × (w' : World E) × (out
            ≡ some (result, rs', w'))
          × AreLeft rs'
          × Holds peer I any_stage w')

  pub wait_next_event-RoundEnded :
      (poll : World E → List PollFd → PollAnswer) (rs : List (Rule (World E))) (w : World E)
      → ((w : World E) (ps : List PollFd) → IsSoundAnswer ps (poll w ps))
      → AreLeft rs
      → Holds peer I any_stage w
      → RoundEnded w (wait_next_event (descriptor env) poll rs w)
  wait_next_event-RoundEnded poll rs w sound s h = elim (Stage-cases w h) [
    | inl unshut ↦
        elim (wait_next_event_turns (descriptor env) (Keeping env peer I a) (Ending env peer I a)
          (Holds peer I open_yet) (Holds peer I any_stage) ⊥ (Holds-any peer I open_yet)
          (λ r k. k open_yet) (λ r k. k any_stage) (λ r t. t.0) poll rs w sound s unshut) [
            | inl threw ↦ absurd threw.1
            | inr went ↦ inr went
          ]
    | inr (inl all) ↦
        elim (wait_next_event_turns (descriptor env) (Keeping env peer I a) (Ending env peer I a)
          (Holds peer I all_given) (Holds peer I any_stage) ⊥ (Holds-any peer I all_given)
          (λ r k. k all_given) (λ r k. k any_stage) (λ r t. t.1) poll rs w sound s all) [
            | inl threw ↦ absurd threw.1
            | inr went ↦ inr went
          ]
    | inr (inr short) ↦
        elim (wait_next_event_turns (descriptor env) (Keeping env peer I a) (Ending env peer I a)
          (Holds peer I any_stage) (Holds peer I any_stage) (Unit {0}) (λ w h. h)
          (λ r k. k any_stage) (λ r k. k any_stage) (λ r t. t.2) poll rs w sound s h) [
            | inl threw ↦ inl (threw.0, short)
            | inr went ↦ inr went
          ]
  ]
