-- ===== src/SpongeSocket/Shutting.antt =====
-- Rule 3 before and after it has shown the application the end of the inbound stream.
use cs144_lab.Base.{
  Bool-cases, ap, arith, false, inl, inr, length, none, refl, some, sym, ◌&&◌, ◌++◌, ◌==◌, ◌||◌,
  ◌∙◌, ◌≡◌, ◌⊎◌,
}
use cs144_lab.ByteStream
use cs144_lab.Connection.{inbound}
use cs144_lab.Connection.Invariant.{Stream}
use cs144_lab.EventLoop.{Rule, service_count}
use cs144_lab.EventLoop.Waiting.{Serves}
use cs144_lab.EventLoop.Turning.{Turns, Once}
use cs144_lab.FileDescriptor.Writing.{AcceptsOf}
use cs144_lab.SpongeSocket.{incoming_interest}
use cs144_lab.SpongeSocket.Contract.{
  Answers, Holds, Stage, open_yet, all_given, any_stage, passed_on, reads_datagrams-Serves,
  reads_outgoing-Serves, writes_segments-Serves,
}
use cs144_lab.SpongeSocket.Loop.{Environment, World, descriptor, writes_incoming, rules}
use cs144_lab.SpongeSocket.Serving.{offered, incoming_ready_serves, incoming_ready_refused}

pub Holds-any :
    {E : Type 0} (peer : Stream) (I : E → Type 0) (stage : Stage) (w : World E)
    → Holds peer I stage w
    → Holds peer I any_stage w
Holds-any peer I stage w h = record {
  fits = h.fits;
  outside = h.outside;
  passed = h.passed;
  prefix = h.prefix;
  both = h.both;
  shown = tt;
}

module _ {E : Type 0} (env : Environment E) (peer : Stream) (I : E → Type 0)
    (a : Answers env peer I) where
  -- What the stage before it becomes, and whether an exception is conceded.
  abbrev pub TurnsFrom : Stage → Type 0 → Rule (World E) → Type 0
  TurnsFrom stage C r = Turns (descriptor env) (Holds peer I stage) (Holds peer I any_stage) C r

  -- It returns and counts a write where the kernel takes what it offers.
  writes_accepted :
      (stage : Stage) (C : Type 0) (w : World E)
      → Holds peer I stage w
      → AcceptsOf (env.accept w.env w.socket.write_shut) (offered w.socket)
      → ((w' : World E) × ((writes_incoming env).callback w ≡ some w')
          × ((service_count (descriptor env) (writes_incoming env) w
                  == service_count (descriptor env) (writes_incoming env) w'
                && (writes_incoming env).interest w')
              ≡ false)
          × Holds peer I any_stage w')
        ⊎ (((writes_incoming env).callback w ≡ none) × C)
  unfolding writes_incoming
  writes_accepted stage C w h takes =
      let (s, sent, n, served, moved, within, given_up, left, shut, inside) =
        incoming_ready_serves w.socket (env.accept w.env w.socket.write_shut) takes in
      inl (
        record { socket = s; env = env.deliver w.env sent; delivered = w.delivered ++ sent },
        ground (arith, served),
        rw moved refl,
        passed_on env peer I a stage w s sent n h within given_up left shut (
            inside
            ∙ ap (λ b. b || (ByteStream.eof (inbound s.tcp) || ByteStream.error (inbound s.tcp)))
                h.both
            ∙ sym shut),
      )

  -- All bytes were given: nothing is left to write, and the end was shown.
  all_given_rests : (w : World E) → Holds peer I all_given w → incoming_interest w.socket ≡ false
  all_given_rests w h =
      let v = h.passed.tracks.holds.valid in
      let empty : length (inbound w.socket.tcp).buff ≡ 0 =
        omega (arith, h.passed.consumed, v.stream.counted, v.written-le, h.shown.1) in
      ground (arith, empty, h.both, h.shown.0)

  writes_open : TurnsFrom open_yet ⊥ (writes_incoming env)
  unfolding writes_incoming
  writes_open = record {
    meets = inr (λ w h.
        writes_accepted open_yet ⊥ w h (rw h.shown (a.accepts w.env h.outside (offered w.socket))));
    cancels = λ w h. h;
  }

  writes_all_given : TurnsFrom all_given ⊥ (writes_incoming env)
  unfolding writes_incoming
  writes_all_given = record { meets = inl all_given_rests; cancels = λ w h. h }

  -- Where the end was shown, what is left to write is refused.
  writes_any : TurnsFrom any_stage (Unit {0}) (writes_incoming env)
  unfolding writes_incoming
  writes_any = record {
    meets = inr (λ w h. elim (Bool-cases w.socket.write_shut) [
      | inr unshut ↦
          writes_accepted any_stage (Unit {0}) w h
            (rw unshut (a.accepts w.env h.outside (offered w.socket)))
      | inl shut ↦ elim (a.refuses w.env (offered w.socket) h.outside) [
        | inl refused ↦ inr (
          ground (
            arith,
            incoming_ready_refused w.socket (env.accept w.env w.socket.write_shut)
                (rw shut refused),
          ),
          tt,
        )
        | inr (empty, none_taken) ↦
            writes_accepted any_stage (Unit {0}) w h
              (0, rw shut none_taken, omega arith, ground (arith, empty))
      ]
    ]);
    cancels = λ w h. h;
  }

  -- A rule that keeps each stage, and the one that may end it.
  abbrev pub Keeping : Rule (World E) → Type 0
  Keeping r = (stage : Stage) → Serves (descriptor env) (Holds peer I stage) r

  abbrev pub Ending : Rule (World E) → Type 0
  Ending r = TurnsFrom open_yet ⊥ r × TurnsFrom all_given ⊥ r × TurnsFrom any_stage (Unit {0}) r

  pub rules-Once : Once (descriptor env) Keeping Ending (rules env)
  rules-Once = inl (
    reads_datagrams-Serves env peer I a,
    inl (
      reads_outgoing-Serves env peer I a,
      inr ((writes_open, writes_all_given, writes_any), (writes_segments-Serves env peer I a, tt)),
    ),
  )
