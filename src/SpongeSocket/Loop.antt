-- ===== src/SpongeSocket/Loop.antt =====
-- libsponge/tcp_helpers/tcp_sponge_socket.cc: the rules put into the event loop, `_tcp_loop` over it,
-- and its callers `connect`, `listen_and_accept` and `_tcp_main`.
use cs144_lab.Base.{
  Bool, List, Option, [], if◌then◌else◌, min, none, not, some, sub64, true, ℕ, ◌++◌, ◌==◌, ◌||◌,
  ◌∷◌,
}
use cs144_lab.Connection
use cs144_lab.Connection.{TcpConfig, remaining_outbound_capacity}
use cs144_lab.EventLoop.{is_exit, Direction, PollAnswer, PollFd, Rule, wait_next_event}
use cs144_lab.FileDescriptor
use cs144_lab.FileDescriptor.{FileDescriptor}
use cs144_lab.Segment.{TcpSegment}
use cs144_lab.SpongeSocket.{
  SpongeSocket, datagram_ready, datagram_interest, outgoing_cancel, outgoing_ready,
  outgoing_interest, incoming_ready, incoming_interest, segments_ready, segments_interest,
  initialize_tcp, start_connect,
}
use cs144_lab.TcpOverIp.{Endpoint, FdAdapter}
use cs144_lab.TcpState
use cs144_lab.TcpState.{of_state, state, listen, syn_rcvd, syn_sent}

-- What the loop works with outside the socket: the adapter and its descriptor, the kernel behind
-- `thread_data`, which is told whether that is shut for writing, and the application.
pub record Environment (E : Type 0) : Type 0 where
  pub adapter : E → FileDescriptor
  pub base : E → FdAdapter
  pub with_base : FdAdapter → E → E
  pub adapter_read : E → Option (E × Option TcpSegment)
  pub adapter_write : E → TcpSegment → Option E
  pub offer : E → ℕ → E × Option (List ℕ)
  pub accept : E → Bool → List ℕ → Option ℕ
  pub deliver : E → List ℕ → E

-- `FdAdapterBase::tick`, which every adapter inherits, or passes on to the one it wraps.
abbrev pub adapter_tick : {E : Type 0} → ℕ → E → E
adapter_tick ms e = e

-- With all that the kernel has taken for the application.
pub record World (E : Type 0) : Type 0 where
  pub socket : SpongeSocket
  pub env : E
  pub delivered : List ℕ

module _ {E : Type 0} (env : Environment E) where
  -- The adapter is number 0, `thread_data` is number 1.
  abbrev pub descriptor : World E → ℕ → FileDescriptor
  descriptor w n = if n == 0 then env.adapter w.env else w.socket.thread_data

  -- Rule 1. No rule but the second has a cancellation of its own.
  unfoldable pub reads_datagrams : Rule (World E)
  reads_datagrams = record {
    fd = 0;
    direction = Direction.input;
    callback = λ w. elim (env.adapter_read w.env) [
      | none ↦ none
      | some (e, got) ↦ some (record w { socket = datagram_ready w.socket got; env = e })
    ];
    interest = λ w. datagram_interest w.socket;
    cancel = λ w. w;
  }

  -- Rule 2. The kernel is asked for no more than `FileDescriptor::read` has room for.
  unfoldable pub reads_outgoing : Rule (World E)
  reads_outgoing = record {
    fd = 1;
    direction = Direction.input;
    callback = λ w.
        let asked = min FileDescriptor.buffer_size (remaining_outbound_capacity w.socket.tcp) in
        let (e, answer) = env.offer w.env asked in
        elim (outgoing_ready w.socket answer) [
          | none ↦ none
          | some s ↦ some (record w { socket = s; env = e })
        ];
    interest = λ w. outgoing_interest w.socket;
    cancel = λ w. record w { socket = outgoing_cancel w.socket };
  }

  -- Rule 3.
  unfoldable pub writes_incoming : Rule (World E)
  writes_incoming = record {
    fd = 1;
    direction = Direction.output;
    callback = λ w. elim (incoming_ready w.socket (env.accept w.env w.socket.write_shut)) [
      | none ↦ none
      | some (s, sent) ↦
          some
            (record { socket = s; env = env.deliver w.env sent; delivered = w.delivered ++ sent })
    ];
    interest = λ w. incoming_interest w.socket;
    cancel = λ w. w;
  }

  -- Rule 4. An adapter that throws leaves segments in the queue.
  unfoldable pub writes_segments : Rule (World E)
  writes_segments = record {
    fd = 0;
    direction = Direction.output;
    callback = λ w.
        let (e, s) = segments_ready env.adapter_write w.env w.socket in
        if segments_interest s then none else some (record w { socket = s; env = e });
    interest = λ w. segments_interest w.socket;
    cancel = λ w. w;
  }

  -- The rules that `_initialize_TCP` adds.
  abbrev pub rules : List (Rule (World E))
  rules = reads_datagrams ∷ reads_outgoing ∷ writes_incoming ∷ writes_segments ∷ []

-- One round of `_tcp_loop`: what happens outside while it waits, the answer of `poll`, whether `_abort`
-- is set after it, and the time.
pub record Round (E : Type 0) : Type 0 where
  pub elapse : E → E
  pub poll : World E → List PollFd → PollAnswer
  pub aborted : Bool
  pub now : ℕ

-- The loop has returned, or waits for another round, or an exception has left it, in the round that
-- began with this world.
pub data LoopEnd (E : Type 0) : Type 0 where
  returned waiting : List (Rule (World E)) → World E → LoopEnd E
  thrown : World E → LoopEnd E

-- The end of a round: the base of the next one, and the connection after the time that has passed.
unfoldable pub after_wait : {E : Type 0} → ℕ → ℕ → World E → ℕ × World E
after_wait base_time next_time w =
    let ms = sub64 next_time base_time in
    if w.socket.tcp.active
    then (
      next_time,
      record w {
        socket = record w.socket { tcp = Connection.tick w.socket.tcp ms };
        env = adapter_tick ms w.env;
      },
    )
    else (base_time, w)

-- The condition of the loop of `connect`.
abbrev pub is_connecting : SpongeSocket → Bool
is_connecting s = TcpState.equal (state s.tcp) (of_state syn_sent)

-- The condition of the loop of `listen_and_accept`.
abbrev pub is_accepting : SpongeSocket → Bool
is_accepting s =
    TcpState.equal (state s.tcp) (of_state listen)
    || (TcpState.equal (state s.tcp) (of_state syn_rcvd)
        || TcpState.equal (state s.tcp) (of_state syn_sent))

-- The end of `_tcp_main`.
unfoldable pub shut_down : {E : Type 0} → FileDescriptor → LoopEnd E → LoopEnd E × FileDescriptor
shut_down app (returned rs w) =
    (returned rs w, FileDescriptor.shutdown app FileDescriptor.shut_rdwr)
shut_down app (waiting rs w) = (waiting rs w, app)
shut_down app (thrown w) = (thrown w, app)

module _ {E : Type 0} (env : Environment E) where
  -- `_tcp_loop`, for at most as many rounds as are given.
  unfoldable pub tcp_loop :
      (SpongeSocket → Bool) → ℕ → List (Round E) → List (Rule (World E)) → World E → LoopEnd E
  tcp_loop condition base_time [] rs w = if condition w.socket then waiting rs w else returned rs w
  tcp_loop condition base_time (round ∷ rounds) rs w =
      let w₀ = record w { env = round.elapse w.env } in
      let waited : LoopEnd E = elim (wait_next_event (descriptor env) round.poll rs w₀) [
        | none ↦ thrown w
        | some (result, rs', w') ↦
            let (base_time', w'') = after_wait base_time round.now w' in
            let again = tcp_loop condition base_time' rounds rs' w'' in
            if is_exit result || round.aborted then returned rs' w' else again
      ] in
      if not (condition w.socket) then returned rs w else waited

  -- `_tcp_main`, with the socket of the application, which it shuts down when the loop returns.
  unfoldable pub tcp_main :
      ℕ
      → List (Round E)
      → List (Rule (World E))
      → World E
      → FileDescriptor
      → LoopEnd E × FileDescriptor
  unfolding tcp_loop
  tcp_main base_time rounds rs w app = shut_down app (tcp_loop (λ s. true) base_time rounds rs w)

  -- The thread that `connect` and `listen_and_accept` start when their own loop returns.
  unfoldable pub start_thread :
      ℕ → List (Round E) → FileDescriptor → LoopEnd E → LoopEnd E × FileDescriptor
  unfolding tcp_main
  start_thread base_time rounds app (returned rs w) = tcp_main base_time rounds rs w app
  start_thread base_time rounds app (waiting rs w) = (waiting rs w, app)
  start_thread base_time rounds app (thrown w) = (thrown w, app)

  -- The adapter with its configuration.
  abbrev pub configured : Endpoint → Endpoint → E → E
  configured source destination e =
      env.with_base (record (env.base e) { source = source; destination = destination }) e

  -- `set_listening(true)`.
  abbrev pub set_listening : E → E
  set_listening e = env.with_base (record (env.base e) { listening = true }) e

-- What `connect` and `listen_and_accept` are given: the two ends of the socket pair, the configurations,
-- the random number, and what happens in the rounds of the two loops and when these begin.
pub record Opening (E : Type 0) : Type 0 where
  pub app : FileDescriptor
  pub thread_data : FileDescriptor
  pub cfg : TcpConfig
  pub random : ℕ
  pub source : Endpoint
  pub destination : Endpoint
  pub base_time : ℕ
  pub rounds : List (Round E)
  pub main_base_time : ℕ
  pub main_rounds : List (Round E)

module _ {E : Type 0} (env : Environment E) where
  unfoldable pub connect : Opening E → E → LoopEnd E × FileDescriptor
  unfolding start_thread
  connect o e =
      let fresh = initialize_tcp o.thread_data o.cfg o.random in
      let w : World E = record {
        socket = fresh;
        env = configured env o.source o.destination e;
        delivered = [];
      } in
      let ended : LoopEnd E = elim (start_connect fresh) [
        | none ↦ thrown w
        | some s ↦
            tcp_loop env is_connecting o.base_time o.rounds (rules env) (record w { socket = s })
      ] in
      start_thread env o.main_base_time o.main_rounds o.app ended

  unfoldable pub listen_and_accept : Opening E → E → LoopEnd E × FileDescriptor
  unfolding start_thread
  listen_and_accept o e =
      let w : World E = record {
        socket = initialize_tcp o.thread_data o.cfg o.random;
        env = set_listening env (configured env o.source o.destination e);
        delivered = [];
      } in
      start_thread env o.main_base_time o.main_rounds o.app
        (tcp_loop env is_accepting o.base_time o.rounds (rules env) w)
