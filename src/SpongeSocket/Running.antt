-- ===== src/SpongeSocket/Running.antt =====
-- What the application is given by a socket that runs, from its opening on.
use cs144_lab.Base.{
  Bool, Bool-cases, List, [], arith, inl, inr, length, refl, slice, sub64, true, ℕ, ◌+◌, ◌<◌, ◌^◌,
  ◌||◌, ◌∷◌,
}
use cs144_lab.ByteStream
use cs144_lab.Connection
use cs144_lab.Connection.Inbound.{tick_keeps_receiver, receiver-connect}
use cs144_lab.Connection.Invariant.{Stream}
use cs144_lab.Connection.Outbound.{tick_keeps_outbound, connect_keeps}
use cs144_lab.EventLoop.{is_exit, PollFd, Rule}
use cs144_lab.EventLoop.Waiting.{IsSoundAnswer}
use cs144_lab.FileDescriptor.{FileDescriptor}
use cs144_lab.Reassembler
use cs144_lab.Receiver
use cs144_lab.Sender
use cs144_lab.Receiver.Genuine.{new-Tracks}
use cs144_lab.SpongeSocket.{SpongeSocket, initialize_tcp}
use cs144_lab.SpongeSocket.Contract.{Answers, Holds, any_stage}
use cs144_lab.SpongeSocket.Shutting.{rules-Once}
use cs144_lab.SpongeSocket.Delivery.{HasPassed, failed-HasPassed}
use cs144_lab.SpongeSocket.Loop.{
  Environment, World, Round, LoopEnd, returned, waiting, thrown, Opening, configured, set_listening,
  rules, after_wait, tcp_loop, tcp_main, shut_down, start_thread, is_connecting, is_accepting,
  connect, listen_and_accept,
}
use cs144_lab.SpongeSocket.Rounds.{
  IsFaithful, IsCutShort, Holds-IsFaithful, AreLeft, wait_next_event-RoundEnded,
}
use cs144_lab.SpongeSocket.Rules.{start_connect-some}
use cs144_lab.SpongeSocket.Serving.{Fits, IsKept-Fits}

-- In a round, what happens outside keeps what the environment relies on, and `poll` answers without
-- an error on a descriptor.
pub record IsSoundRound {E : Type 0} (I : E → Type 0) (round : Round E) : Type 0 where
  pub elapses : (e : E) → I e → I (round.elapse e)
  pub answers : (w : World E) (ps : List PollFd) → IsSoundAnswer ps (round.poll w ps)

abbrev pub AreSoundRounds : {E : Type 0} → (E → Type 0) → List (Round E) → Type 0
AreSoundRounds I [] = Unit {0}
AreSoundRounds I (round ∷ rounds) = IsSoundRound I round × AreSoundRounds I rounds

-- An exception has left the loop only in a round that began so.
abbrev pub IsFaithfulEnd : {E : Type 0} → Stream → LoopEnd E → Type 0
IsFaithfulEnd peer (returned rs w) = IsFaithful peer w
IsFaithfulEnd peer (waiting rs w) = IsFaithful peer w
IsFaithfulEnd peer (thrown w) = IsFaithful peer w × IsCutShort peer w

module _ {E : Type 0} (env : Environment E) (peer : Stream) (I : E → Type 0)
    (a : Answers env peer I) where
  -- What holds of a loop, whether or not it has thrown.
  abbrev Ended : LoopEnd E → Type 0
  Ended (returned rs w) = AreLeft env peer I a rs × Holds peer I any_stage w
  Ended (waiting rs w) = AreLeft env peer I a rs × Holds peer I any_stage w
  Ended (thrown w) = Holds peer I any_stage w × IsCutShort peer w

  Ended-IsFaithful : (l : LoopEnd E) → Ended l → IsFaithfulEnd peer l
  Ended-IsFaithful (returned rs w) h = Holds-IsFaithful env peer I a w h.1
  Ended-IsFaithful (waiting rs w) h = Holds-IsFaithful env peer I a w h.1
  Ended-IsFaithful (thrown w) h = (Holds-IsFaithful env peer I a w h.0, h.1)

  after_wait-Holds :
      (base_time next_time : ℕ) (w : World E)
      → Holds peer I any_stage w
      → Holds peer I any_stage (after_wait base_time next_time w).1
  unfolding after_wait
  after_wait-Holds base_time next_time w h =
      let ms = sub64 next_time base_time in
      let d = length w.delivered in
      let ticked : World E = record w {
        socket = record w.socket { tcp = Connection.tick w.socket.tcp ms };
      } in
      let kept : Holds peer I any_stage ticked = record {
        fits = tick_keeps_outbound Fits IsKept-Fits w.socket.tcp ms h.fits;
        outside = h.outside;
        passed =
            tick_keeps_receiver (HasPassed peer d w.socket.write_shut)
              (failed-HasPassed peer d w.socket.write_shut) w.socket.tcp ms h.passed;
        prefix = h.prefix;
        both = h.both;
        shown = tt;
      } in
      ground (arith, kept, h)

  tcp_loop-Ended :
      (condition : SpongeSocket → Bool) (base_time : ℕ) (rounds : List (Round E))
      (rs : List (Rule (World E))) (w : World E)
      → AreSoundRounds I rounds
      → AreLeft env peer I a rs
      → Holds peer I any_stage w
      → Ended (tcp_loop env condition base_time rounds rs w)
  unfolding tcp_loop
  tcp_loop-Ended condition base_time [] rs w sound s h = elim (Bool-cases (condition w.socket)) [
    | inl on ↦ rw on (s, h)
    | inr off ↦ rw off (s, h)
  ]
  tcp_loop-Ended condition base_time (round ∷ rounds) rs w sound s h =
      let w₀ : World E = record w { env = round.elapse w.env } in
      let h₀ : Holds peer I any_stage w₀ = record {
        fits = h.fits;
        outside = sound.0.elapses w.env h.outside;
        passed = h.passed;
        prefix = h.prefix;
        both = h.both;
        shown = tt;
      } in
      elim (Bool-cases (condition w.socket)) [
        | inr off ↦ rw off (s, h)
        | inl on ↦
            elim (wait_next_event-RoundEnded env peer I a round.poll rs w₀ sound.0.answers s h₀) [
              | inl (threw, short) ↦
                  rw (on, threw)
                    (
                      h,
                      record { shut = short.shut; failed = short.failed; missing = short.missing },
                    )
              | inr (result, rs', w', waited, s', h') ↦
                  let next = after_wait base_time round.now w' in
                  let again =
                    tcp_loop-Ended condition next.0 rounds rs' next.1 sound.1 s'
                      (after_wait-Holds base_time round.now w' h') in
                  elim (Bool-cases (is_exit result || round.aborted)) [
                    | inl stops ↦ rw (on, waited, stops) (s', h')
                    | inr goes_on ↦ rw (on, waited, goes_on) again
                  ]
            ]
      ]

  shut_down-Ended : (app : FileDescriptor) (l : LoopEnd E) → Ended l → Ended (shut_down app l).0
  unfolding shut_down
  shut_down-Ended app (returned rs w) h = h
  shut_down-Ended app (waiting rs w) h = h
  shut_down-Ended app (thrown w) h = h

  start_thread-Ended :
      (base_time : ℕ) (rounds : List (Round E)) (app : FileDescriptor) (l : LoopEnd E)
      → AreSoundRounds I rounds
      → Ended l
      → Ended (start_thread env base_time rounds app l).0
  unfolding start_thread tcp_main
  start_thread-Ended base_time rounds app (returned rs w) sound h =
      shut_down-Ended app (tcp_loop env (λ s. true) base_time rounds rs w)
        (tcp_loop-Ended (λ s. true) base_time rounds rs w sound h.0 h.1)
  start_thread-Ended base_time rounds app (waiting rs w) sound h = h
  start_thread-Ended base_time rounds app (thrown w) sound h = h

  module _ (o : Opening E) (e : E) (out : o.cfg.send_capacity < 2 ^ 64)
      (into : o.cfg.recv_capacity < 2 ^ 31) (short : peer.size + 1 < 2 ^ 32)
      (isn_small : peer.isn < 2 ^ 32) (sound : AreSoundRounds I o.rounds)
      (main_sound : AreSoundRounds I o.main_rounds) (i : I e) where
    abbrev fresh : SpongeSocket
    fresh = initialize_tcp o.thread_data o.cfg o.random

    fresh-Holds :
        (e' : E)
        → I e'
        → Holds peer I any_stage (record { socket = fresh; env = e'; delivered = [] })
    unfolding initialize_tcp Connection.new Sender.new ByteStream.new Receiver.new Reassembler.new
        slice
    fresh-Holds e' i' = record {
      fits = omega arith;
      outside = i';
      passed = record {
        tracks =
            new-Tracks peer.byte_at peer.size peer.isn o.cfg.recv_capacity isn_small into short;
        consumed = refl;
        over = λ h. cc;
      };
      prefix = refl;
      both = refl;
      shown = tt;
    }

    connecting-Holds :
        (e' : E)
        → I e'
        → Holds peer I any_stage (record {
          socket = record fresh { tcp = Connection.connect fresh.tcp };
          env = e';
          delivered = [];
        })
    unfolding slice initialize_tcp
    connecting-Holds e' i' =
        let h = fresh-Holds e' i' in
        record {
          fits = connect_keeps Fits IsKept-Fits fresh.tcp h.fits;
          outside = i';
          passed = rw (receiver-connect fresh.tcp) h.passed;
          prefix = refl;
          both = refl;
          shown = tt;
        }

    connect-Ended : Ended (connect env o e).0
    unfolding connect Connection.new initialize_tcp
    connect-Ended =
        let e' = configured env o.source o.destination e in
        let w : World E = record {
          socket = record fresh { tcp = Connection.connect fresh.tcp };
          env = e';
          delivered = [];
        } in
        rw (start_connect-some o.thread_data o.cfg o.random) (
          start_thread-Ended o.main_base_time o.main_rounds o.app
            (tcp_loop env is_connecting o.base_time o.rounds (rules env) w) main_sound
            (tcp_loop-Ended is_connecting o.base_time o.rounds (rules env) w sound
              (rules-Once env peer I a) (connecting-Holds e' (a.configures e _ i))))

    listen_and_accept-Ended : Ended (listen_and_accept env o e).0
    unfolding listen_and_accept
    listen_and_accept-Ended =
        let e' = set_listening env (configured env o.source o.destination e) in
        let w : World E = record { socket = fresh; env = e'; delivered = [] } in
        start_thread-Ended o.main_base_time o.main_rounds o.app
          (tcp_loop env is_accepting o.base_time o.rounds (rules env) w) main_sound
          (tcp_loop-Ended is_accepting o.base_time o.rounds (rules env) w sound
            (rules-Once env peer I a)
            (fresh-Holds e'
              (a.configures (configured env o.source o.destination e) _ (a.configures e _ i))))

    -- For an environment that keeps its contract for the stream of a peer (reads of the adapter
    -- return, count on its descriptor, and give nothing or a segment of the peer, in any order, any
    -- number of times or never; writes of the adapter return; the application gives no more than it
    -- is asked for; the kernel takes some of what it is offered for the application, until
    -- `thread_data` is shut for writing, and refuses any bytes from there on), a stream and its
    -- flags numbered in 32 bits, capacities below 2 ^ 64 and 2 ^ 31, and rounds in which `poll`
    -- answers with bits for each descriptor and no error among them, or without bits: whether
    -- opened by `connect` or by `listen_and_accept`, where the loop has returned or waits after its
    -- rounds, and at the beginning of a round in which it throws, what the application was given is
    -- a prefix of the stream of the peer, and when it was shown the end, it was given the whole
    -- stream, or the inbound stream is marked as failed; and an exception leaves the socket only in
    -- a round that began with `thread_data` shut for writing and the inbound stream failed before
    -- all of the stream was given.
    pub opened-IsFaithful :
        IsFaithfulEnd peer (connect env o e).0 × IsFaithfulEnd peer (listen_and_accept env o e).0
    opened-IsFaithful = (
      Ended-IsFaithful (connect env o e).0 connect-Ended,
      Ended-IsFaithful (listen_and_accept env o e).0 listen_and_accept-Ended,
    )
