-- ===== src/EventLoop/Waiting.antt =====
-- When a round of the event loop returns, and what an error of `poll` does.
use cs144_lab.Base.{
  Bool, Bool-cases, List, Option-cases, [], ap, arith, false, if◌then◌else◌, inl, inr, length, not,
  refl, some, suc, true, ℕ, ◌&&◌, ◌==◌, ◌∷◌, ◌≡◌,
}
use cs144_lab.EventLoop.{
  after_poll, poll_ready, serving, events, asked, is_over, Rule, Revents, PollFd, PollAnswer,
  Result, service_count, set_up, serve, serve_all, untouched, wait_next_event,
}
use cs144_lab.FileDescriptor.{FileDescriptor}

-- No error on a descriptor, and bits for each.
abbrev pub AreSound : List PollFd → List Revents → Type 0
AreSound [] revs = Unit {0}
AreSound (p ∷ ps) [] = ⊥
AreSound (p ∷ ps) (rev ∷ revs) = (rev.failed ≡ false) × AreSound ps revs

pub untouched-AreSound : (ps : List PollFd) → AreSound ps (untouched ps)
unfolding untouched
untouched-AreSound [] = tt
untouched-AreSound (p ∷ ps) = (refl, untouched-AreSound ps)

abbrev pub IsSoundAnswer : List PollFd → PollAnswer → Type 0
IsSoundAnswer ps (events revs) = AreSound ps revs
IsSoundAnswer ps _ = Unit {0}

module _ {W : Type 0} (descriptor : W → ℕ → FileDescriptor) where
  -- One `pollfd` for each rule that stays.
  pub length-set_up :
      (rules : List (Rule W)) (w : W)
      → length (set_up descriptor rules w).0 ≡ length (set_up descriptor rules w).1
  unfolding set_up
  length-set_up [] w = refl
  length-set_up (r ∷ rules) w = elim (Bool-cases (is_over descriptor r w)) [
    | inl over ↦ rw over (length-set_up rules (r.cancel w))
    | inr stays ↦ rw stays (ap suc (length-set_up rules w))
  ]

  -- Without a bit, nothing happens.
  serve_all-untouched :
      (rules : List (Rule W)) (ps : List PollFd) (w : W)
      → length rules ≡ length ps
      → serve_all descriptor rules ps (untouched ps) w ≡ some (rules, w)
  unfolding serve_all untouched serve
  serve_all-untouched [] ps w same = refl
  serve_all-untouched (r ∷ rules) [] w same = absurd (omega arith)
  serve_all-untouched (r ∷ rules) (p ∷ ps) w same = elim (Option-cases p.events) [
    | inl placeholder ↦ ground (arith, placeholder, serve_all-untouched rules ps w)
    | inr (direction, e) ↦ ground (arith, e, serve_all-untouched rules ps w)
  ]

  -- A rule as the documentation asks for, where `P` holds: its callback does not throw, and reads or
  -- writes the descriptor or is no longer interested. It keeps `P`, and so does its cancellation.
  pub record Serves (P : W → Type 0) (r : Rule W) : Type 0 where
    pub serves :
        (w : W)
        → P w
        → (w' : W) × (r.callback w ≡ some w')
          × ((service_count descriptor r w == service_count descriptor r w' && r.interest w')
              ≡ false)
          × P w'
    pub cancels : (w : W) → P w → P (r.cancel w)

  abbrev pub All : (Rule W → Type 0) → List (Rule W) → Type 0
  All K [] = Unit {0}
  All K (r ∷ rules) = K r × All K rules

  abbrev pub AllServe : (W → Type 0) → List (Rule W) → Type 0
  AllServe P rules = All (Serves P) rules

  pub All-kept :
      (K : Rule W → Type 0) (r : Rule W) (rules : List (Rule W)) (kept : Bool)
      → K r
      → All K rules
      → All K (if kept then r ∷ rules else rules)
  All-kept K r rules true s all = (s, all)
  All-kept K r rules false s all = all

  module _ (P : W → Type 0) where
    pub All-set_up :
        (K : Rule W → Type 0) (k : (r : Rule W) → K r → Serves P r) (rules : List (Rule W)) (w : W)
        → All K rules
        → P w
        → All K (set_up descriptor rules w).0 × P (set_up descriptor rules w).3
    unfolding set_up
    All-set_up K k [] w s p = (tt, p)
    All-set_up K k (r ∷ rules) w s p = elim (Bool-cases (is_over descriptor r w)) [
      | inl over ↦ rw over (All-set_up K k rules (r.cancel w) s.1 ((k r s.0).cancels w p))
      | inr stays ↦ let (all, q) = All-set_up K k rules w s.1 p in rw stays ((s.0, all), q)
    ]

    pub serve_returns :
        (r : Rule W) (p : PollFd) (rev : Revents) (w : W)
        → rev.failed ≡ false
        → Serves P r
        → P w
        → (kept : Bool) × (w' : W) × (serve descriptor r p rev w ≡ some (kept, w')) × P w'
    unfolding serve
    serve_returns r p rev w clean s h =
        elim (Bool-cases (rev.hung_up && (asked p && not (poll_ready p rev)))) [
          | inl gone ↦ (false, r.cancel w, ground (arith, gone), s.cancels w h)
          | inr stays ↦ elim (Bool-cases (poll_ready p rev)) [
            | inl ready ↦
                let (w', called, fine, h') = s.serves w h in
                (true, w', ground (arith, stays, ready, called, fine), h')
            | inr idle ↦ (true, w, ground (arith, stays, idle), h)
          ]
        ]

    -- The rules that stay after the second loop are some of those before it.
    pub serve_all_returns :
        (K : Rule W → Type 0) (k : (r : Rule W) → K r → Serves P r) (rules : List (Rule W))
        (ps : List PollFd) (revs : List Revents) (w : W)
        → length rules ≡ length ps
        → AreSound ps revs
        → All K rules
        → P w
        → (rules' : List (Rule W)) × (w' : W) × (serve_all descriptor rules ps revs w
            ≡ some (rules', w'))
          × All K rules'
          × P w'
    unfolding serve_all
    serve_all_returns K k [] ps revs w same clean s h = ([], w, refl, tt, h)
    serve_all_returns K k (r ∷ rules) [] revs w same clean s h = absurd (omega arith)
    serve_all_returns K k (r ∷ rules) (p ∷ ps) [] w same clean s h = absurd clean
    serve_all_returns K k (r ∷ rules) (p ∷ ps) (rev ∷ revs) w same clean s h =
        let (kept, w', served, h') = serve_returns r p rev w clean.0 (k r s.0) h in
        let (rules', w'', rest, all, h'') =
          serve_all_returns K k rules ps revs w' (omega arith) clean.1 s.1 h' in
        (
          if kept then r ∷ rules' else rules',
          w'',
          ground (arith, served, rest),
          All-kept K r rules' kept s.0 all,
          h'',
        )

    serving-some :
        (rules : List (Rule W)) (ps : List PollFd) (revs : List Revents) (w : W)
        → length rules ≡ length ps
        → AreSound ps revs
        → AllServe P rules
        → P w
        → (rules' : List (Rule W)) × (w' : W) × (serving (serve_all descriptor rules ps revs w)
            ≡ some (Result.success, rules', w'))
          × AllServe P rules'
          × P w'
    serving-some rules ps revs w same clean s h =
        let (rules', w', e, all, h') =
          serve_all_returns (Serves P) (λ r t. t) rules ps revs w same clean s h in
        (rules', w', rw e, all, h')

    after_poll_returns :
        (rules : List (Rule W)) (ps : List PollFd) (w : W) (answer : PollAnswer)
        → length rules ≡ length ps
        → IsSoundAnswer ps answer
        → AllServe P rules
        → P w
        → (result : Result) × (rules' : List (Rule W)) × (w' : W) × (after_poll descriptor rules ps
              w answer
            ≡ some (result, rules', w'))
          × AllServe P rules'
          × P w'
    unfolding after_poll
    after_poll_returns rules ps w (events revs) same sound s h =
        let (rules', w', e, all, h') = serving-some rules ps revs w same sound s h in
        (Result.success, rules', w', e, all, h')
    after_poll_returns rules ps w PollAnswer.nothing same sound s h =
        (Result.timeout, rules, w, refl, s, h)
    after_poll_returns rules ps w PollAnswer.interrupted same sound s h =
        (Result.exit, rules, w, refl, s, h)
    after_poll_returns rules ps w PollAnswer.other_error same sound s h =
        let clean = untouched-AreSound ps in
        let (rules', w', e, all, h') = serving-some rules ps (untouched ps) w same clean s h in
        (Result.success, rules', w', e, all, h')

  -- When `poll` answers with bits for each descriptor and no error among them, or with no bits at
  -- all, and, from a state where `P` holds, every callback returns, counts a read or write of its
  -- descriptor or ends its interest, and keeps `P`, as every cancellation does, then from such a
  -- state `wait_next_event` does not throw, `P` holds of the state after it, and all of this still
  -- of the rules that are left.
  pub wait_next_event_returns :
      (P : W → Type 0) (poll : W → List PollFd → PollAnswer) (rules : List (Rule W)) (w : W)
      → ((w : W) (ps : List PollFd) → IsSoundAnswer ps (poll w ps))
      → AllServe P rules
      → P w
      → (result : Result) × (rules' : List (Rule W)) × (w' : W) × (wait_next_event descriptor poll
            rules w
          ≡ some (result, rules', w'))
        × AllServe P rules'
        × P w'
  unfolding wait_next_event
  wait_next_event_returns P poll rules w sound s h =
      let out = set_up descriptor rules w in
      let (all, h') = All-set_up P (Serves P) (λ r t. t) rules w s h in
      elim (Bool-cases out.2) [
        | inl asks ↦
            let (result, rules', w', e, all', h'') =
              after_poll_returns P out.0 out.1 out.3 (poll out.3 out.1) (length-set_up rules w)
                (sound out.3 out.1) all h' in
            (result, rules', w', rw asks e, all', h'')
        | inr idle ↦ (Result.exit, out.0, out.3, rw idle, all, h')
      ]

  -- When something is to be polled and `poll` fails with an error other than EINTR,
  -- `wait_next_event` returns success, with the rules and the state that the first loop left.
  pub wait_next_event-other_error :
      (poll : W → List PollFd → PollAnswer) (rules : List (Rule W)) (w : W)
      → let (rules', ps, something_to_poll, w') = set_up descriptor rules w in
        something_to_poll ≡ true
        → poll w' ps ≡ PollAnswer.other_error
        → wait_next_event descriptor poll rules w ≡ some (Result.success, rules', w')
  unfolding wait_next_event after_poll
  wait_next_event-other_error poll rules w asked e =
      let out = set_up descriptor rules w in
      rw (asked, e) (ap serving (serve_all-untouched out.0 out.1 out.3 (length-set_up rules w)))
