-- ===== src/EventLoop/Turning.antt =====
-- A round of the event loop in which one rule may end a state that the other rules keep, or may throw.
use cs144_lab.Base.{
  Bool, Bool-cases, List, Option, Option-cases, [], arith, false, if◌then◌else◌, inl, inr, length,
  none, not, refl, some, subst, sym, true, ℕ, ◌&&◌, ◌==◌, ◌∷◌, ◌≡◌, ◌⊎◌,
}
use cs144_lab.EventLoop.{
  after_poll, poll_ready, serving, events, asked, is_over, Rule, Revents, PollFd, PollAnswer,
  Result, service_count, set_up, serve, serve_all, untouched, wait_next_event, poll_fd,
}
use cs144_lab.EventLoop.Waiting.{
  All-set_up, AreSound, IsSoundAnswer, untouched-AreSound, length-set_up, Serves, All,
  serve_returns, serve_all_returns,
}
use cs144_lab.FileDescriptor.{FileDescriptor}

-- A rule that may end the state `P`: what it leaves is `Q`, and `C` concedes that it throws.
module _ {W : Type 0} (descriptor : W → ℕ → FileDescriptor) (P Q : W → Type 0) (C : Type 0) where
  -- The rule returns and counts, or throws where that is conceded.
  abbrev pub Meets : Rule W → Type 0
  Meets r =
      (w : W)
      → P w
      → ((w' : W) × (r.callback w ≡ some w')
          × ((service_count descriptor r w == service_count descriptor r w' && r.interest w')
              ≡ false)
          × Q w')
        ⊎ ((r.callback w ≡ none) × C)

  -- It is not asked for, or meets the state.
  pub record Turns (r : Rule W) : Type 0 where
    pub meets : ((w : W) → P w → r.interest w ≡ false) ⊎ Meets r
    pub cancels : (w : W) → P w → P (r.cancel w)

-- The rules of which `K` holds, and at most one of which `T` does.
module _ {W : Type 0} (descriptor : W → ℕ → FileDescriptor) (K T : Rule W → Type 0) where
  abbrev pub Once : List (Rule W) → Type 0
  Once [] = Unit {0}
  Once (r ∷ rules) = (K r × Once rules) ⊎ (T r × All descriptor K rules)

  Once-All : (rules : List (Rule W)) → All descriptor K rules → Once rules
  Once-All [] a = tt
  Once-All (r ∷ rules) a = inl (a.0, Once-All rules a.1)

  Once-kept :
      (r : Rule W) (rules : List (Rule W)) (kept : Bool)
      → K r
      → Once rules
      → Once (if kept then r ∷ rules else rules)
  Once-kept r rules true k o = inl (k, o)
  Once-kept r rules false k o = o

  Once-turned :
      (r : Rule W) (rules : List (Rule W)) (kept : Bool)
      → T r
      → All descriptor K rules
      → Once (if kept then r ∷ rules else rules)
  Once-turned r rules true t a = inr (t, a)
  Once-turned r rules false t a = Once-All rules a

  -- The state is `P` until the one rule is served, and `Q` from there on; `C` concedes that it throws.
  module _ (P Q : W → Type 0) (C : Type 0) (weaken : (w : W) → P w → Q w)
      (before : (r : Rule W) → K r → Serves descriptor P r)
      (after : (r : Rule W) → K r → Serves descriptor Q r) where
    module _ (turns : (r : Rule W) → T r → Turns descriptor P Q C r) where
      -- The same of the rules and what was asked for each.
      abbrev Asked : List (Rule W) → List PollFd → Type 0
      Asked [] ps = Unit {0}
      Asked (r ∷ rules) [] = ⊥
      Asked (r ∷ rules) (p ∷ ps) =
          (K r × Asked rules ps)
          ⊎ (T r × ((asked p ≡ false) ⊎ Meets descriptor P Q C r) × All descriptor K rules)

      -- What is asked for the one rule.
      met :
          (r : Rule W) (w : W)
          → T r
          → P w
          → (asked (poll_fd descriptor r w) ≡ false) ⊎ Meets descriptor P Q C r
      met r w t p = elim (turns r t).meets [ inl rests ↦ inl (rw (rests w p) refl) | inr m ↦ inr m ]

      Once-set_up :
          (rules : List (Rule W)) (w : W)
          → Once rules
          → P w
          → let out = set_up descriptor rules w in Asked out.0 out.1 × Once out.0 × P out.3
      unfolding set_up
      Once-set_up [] w s p = (tt, tt, p)
      Once-set_up (r ∷ rules) w (inl s) p = elim (Bool-cases (is_over descriptor r w)) [
        | inl over ↦ rw over (Once-set_up rules (r.cancel w) s.1 ((before r s.0).cancels w p))
        | inr stays ↦
            let (ask, o, q) = Once-set_up rules w s.1 p in
            rw stays (inl (s.0, ask), inl (s.0, o), q)
      ]
      Once-set_up (r ∷ rules) w (inr s) p = elim (Bool-cases (is_over descriptor r w)) [
        | inl over ↦
            rw over
              (Once-set_up rules (r.cancel w) (Once-All rules s.1) ((turns r s.0).cancels w p))
        | inr stays ↦
            let (all, q) = All-set_up descriptor P K before rules w s.1 p in
            rw stays (inr (s.0, met r w s.0 p, all), inr (s.0, all), q)
      ]

      serve_turns :
          (r : Rule W) (p : PollFd) (rev : Revents) (w : W)
          → rev.failed ≡ false
          → T r
          → (asked p ≡ false) ⊎ Meets descriptor P Q C r
          → P w
          → ((serve descriptor r p rev w ≡ none) × C)
            ⊎ ((kept : Bool) × (w' : W) × (serve descriptor r p rev w ≡ some (kept, w')) × Q w')
      unfolding serve
      serve_turns r p rev w clean t m h =
          elim (Bool-cases (rev.hung_up && (asked p && not (poll_ready p rev)))) [
            | inl gone ↦ inr (
              false,
              r.cancel w,
              ground (arith, gone),
              weaken (r.cancel w) ((turns r t).cancels w h),
            )
            | inr stays ↦ elim (Bool-cases (poll_ready p rev)) [
              | inr idle ↦ inr (true, w, ground (arith, stays, idle), weaken w h)
              | inl ready ↦ elim m [
                | inl unasked ↦ absurd (elim (Option-cases p.events) [
                  | inl placeholder ↦ ground (arith, ready, placeholder)
                  | inr (direction, e) ↦ ground (arith, unasked, e)
                ])
                | inr meets ↦ elim (meets w h) [
                  | inl served ↦
                      inr
                        (true, served.0, ground (arith, stays, ready, served.1, served.2), served.3)
                  | inr threw ↦ inl (ground (arith, stays, ready, threw.0), threw.1)
                ]
              ]
            ]
          ]

      -- The second loop: an exception, where it is conceded, or a state that is `Q`.
      serve_all_turns :
          (rules : List (Rule W)) (ps : List PollFd) (revs : List Revents) (w : W)
          → length rules ≡ length ps
          → AreSound ps revs
          → Asked rules ps
          → P w
          → ((serve_all descriptor rules ps revs w ≡ none) × C)
            ⊎ ((rules' : List (Rule W)) × (w' : W) × (serve_all descriptor rules ps revs w
                  ≡ some (rules', w'))
                × Once rules'
                × Q w')
      unfolding serve_all
      serve_all_turns [] ps revs w same clean s h = inr ([], w, refl, tt, weaken w h)
      serve_all_turns (r ∷ rules) [] revs w same clean s h = absurd s
      serve_all_turns (r ∷ rules) (p ∷ ps) [] w same clean s h = absurd clean
      serve_all_turns (r ∷ rules) (p ∷ ps) (rev ∷ revs) w same clean (inl s) h =
          let (kept, w', served, h') =
            serve_returns descriptor P r p rev w clean.0 (before r s.0) h in
          elim (serve_all_turns rules ps revs w' (omega arith) clean.1 s.1 h') [
            | inl threw ↦ inl (ground (arith, served, threw.0), threw.1)
            | inr (rules', w'', rest, o, q) ↦ inr (
              if kept then r ∷ rules' else rules',
              w'',
              ground (arith, served, rest),
              Once-kept r rules' kept s.0 o,
              q,
            )
          ]
      serve_all_turns (r ∷ rules) (p ∷ ps) (rev ∷ revs) w same clean (inr s) h =
          elim (serve_turns r p rev w clean.0 s.0 s.1 h) [
            | inl threw ↦ inl (ground (arith, threw.0), threw.1)
            | inr (kept, w', served, q) ↦
                let (rules', w'', rest, all, q') =
                  serve_all_returns descriptor Q K after rules ps revs w' (omega arith) clean.1 s.2
                    q in
                inr (
                  if kept then r ∷ rules' else rules',
                  w'',
                  ground (arith, served, rest),
                  Once-turned r rules' kept s.0 all,
                  q',
                )
          ]

      abbrev Turned : Option (Result × List (Rule W) × W) → Type 0
      Turned out =
          ((out ≡ none) × C)
          ⊎ ((result : Result) × (rules' : List (Rule W)) × (w' : W) × (out
                ≡ some (result, rules', w'))
              × Once rules'
              × Q w')

      serving-Turned :
          (rules : List (Rule W)) (ps : List PollFd) (revs : List Revents) (w : W)
          → length rules ≡ length ps
          → AreSound ps revs
          → Asked rules ps
          → P w
          → Turned (serving (serve_all descriptor rules ps revs w))
      serving-Turned rules ps revs w same clean s h =
          elim (serve_all_turns rules ps revs w same clean s h) [
            | inl threw ↦ inl (rw threw.0 refl, threw.1)
            | inr (rules', w', e, o, q) ↦ inr (Result.success, rules', w', rw e refl, o, q)
          ]

      after_poll-Turned :
          (rules : List (Rule W)) (ps : List PollFd) (w : W) (answer : PollAnswer)
          → length rules ≡ length ps
          → IsSoundAnswer ps answer
          → Asked rules ps
          → Once rules
          → P w
          → Turned (after_poll descriptor rules ps w answer)
      unfolding after_poll
      after_poll-Turned rules ps w (events revs) same sound s o h =
          serving-Turned rules ps revs w same sound s h
      after_poll-Turned rules ps w PollAnswer.nothing same sound s o h =
          inr (Result.timeout, rules, w, refl, o, weaken w h)
      after_poll-Turned rules ps w PollAnswer.interrupted same sound s o h =
          inr (Result.exit, rules, w, refl, o, weaken w h)
      after_poll-Turned rules ps w PollAnswer.other_error same sound s o h =
          serving-Turned rules ps (untouched ps) w same (untouched-AreSound ps) s h

      -- A round throws only where that is conceded; otherwise the state after it is `Q`, and the rules
      -- that are left are of the same kinds.
      pub wait_next_event_turns :
          (poll : W → List PollFd → PollAnswer) (rules : List (Rule W)) (w : W)
          → ((w : W) (ps : List PollFd) → IsSoundAnswer ps (poll w ps))
          → Once rules
          → P w
          → Turned (wait_next_event descriptor poll rules w)
      unfolding wait_next_event
      wait_next_event_turns poll rules w sound o h =
          let out = set_up descriptor rules w in
          let (ask, o', h') = Once-set_up rules w o h in
          elim (Bool-cases out.2) [
            | inl asks ↦ subst Turned (sym (rw asks refl)) (
                after_poll-Turned out.0 out.1 out.3 (poll out.3 out.1)
                  (length-set_up descriptor rules w) (sound out.3 out.1) ask o' h')
            | inr idle ↦ inr (Result.exit, out.0, out.3, rw idle refl, o', weaken out.3 h')
          ]
