-- ===== src/Sender/Timer.antt =====
-- `tick` and `send_empty_segment`: the retransmission timer, and segments that carry nothing.
use cs144_lab.Base.{
  <-cases, List, [], ap, append-nil, append_assoc, arith, inl, inr, refl, subst, suc, sym, u32,
  zero, ℕ, ◌*◌, ◌++◌, ◌+◌, ◌-◌, ◌<◌, ◌^◌, ◌∙◌, ◌∷◌, ◌≡◌, ◌⊎◌,
}
use cs144_lab.Segment.{TcpSegment}
use cs144_lab.Receiver.Genuine.{IsGenuine, carries, blank}
use cs144_lab.Sender.{TcpSender, Outstanding, tick, retransmit, send_empty_segment}
use native.Mathlib.Nat.{pow-suc}
use cs144_lab.Sender.Tiles.{Tiles}
use cs144_lab.Sender.Invariant.{IsValid, AllGenuine, AllGenuine-snoc}

-- A tick only counts, or sends the oldest outstanding segment again.
pub tick_cases :
    (s : TcpSender) (ms : ℕ)
    → let s' = record s { retransmission_timecount = u32 (s.retransmission_timecount + ms) } in
      (tick s ms ≡ s')
      ⊎ ((o : Outstanding) × (rest : List Outstanding) × (s.segments_outgoing ≡ o ∷ rest)
          × (tick s ms ≡ retransmit s' o))
unfolding tick
tick_cases s ms = go s.segments_outgoing refl
  where
    go :
        (l : List Outstanding)
        → s.segments_outgoing ≡ l
        → let s' = record s { retransmission_timecount = u32 (s.retransmission_timecount + ms) } in
          (tick s ms ≡ s')
          ⊎ ((o : Outstanding) × (rest : List Outstanding) × (s.segments_outgoing ≡ o ∷ rest)
              × (tick s ms ≡ retransmit s' o))
    go [] e = inl (ground arith)
    go (o ∷ rest) e =
        elim (<-cases (u32 (s.retransmission_timecount + ms)) s.retransmission_timeout) [
          | inl h ↦ inl (ground arith)
          | inr h ↦ inr (o, rest, e, ground arith)
        ]

module _ (S : ℕ → ℕ) (N isn : ℕ) where
  -- The timer and the queue may change; the rest of a valid state is what the invariant is about.
  retimed-IsValid :
      (s s' : TcpSender)
      → IsValid S N isn s
      → s' ≡ record s {
        retransmission_timeout = s'.retransmission_timeout;
        retransmission_timecount = s'.retransmission_timecount;
        consecutive_retransmissions = s'.consecutive_retransmissions;
        segments_out = s'.segments_out;
      }
      → AllGenuine S N isn s'.segments_out
      → IsValid S N isn s'
  retimed-IsValid s s' v e g = subst (IsValid S N isn) (sym e) (record {
    stream = v.stream;
    buffered = v.buffered;
    written-le = v.written-le;
    ended_complete = v.ended_complete;
    same_isn = v.same_isn;
    numbered = v.numbered;
    unsent = v.unsent;
    finished = v.finished;
    in_flight = v.in_flight;
    tiles = v.tiles;
    genuine = g;
    small = v.small;
    isn_small = v.isn_small;
  })

  -- A tick of any length keeps a sender valid: what it sends again is a genuine segment.
  pub tick-IsValid : (s : TcpSender) (ms : ℕ) → IsValid S N isn s → IsValid S N isn (tick s ms)
  tick-IsValid s ms v = elim (tick_cases s ms) [
    | inl quiet ↦ rw quiet (
        retimed-IsValid s
          (record s { retransmission_timecount = u32 (s.retransmission_timecount + ms) }) v refl
          v.genuine)
    | inr (o, rest, e, again) ↦ rw again (
        retimed-IsValid s
          (retransmit
            (record s { retransmission_timecount = u32 (s.retransmission_timecount + ms) }) o)
          v (unfold retransmit in refl)
          (unfold retransmit in
            AllGenuine-snoc S N isn s.segments_out o.segment v.genuine (oldest o rest e)))
  ]
    where
      oldest :
          (o : Outstanding) (rest : List Outstanding)
          → s.segments_outgoing ≡ o ∷ rest
          → IsGenuine S N isn o.segment
      oldest o rest e =
          carries (o.key - 1)
            (subst (Tiles S N isn (s.next_seqno - s.outgoing_bytes) s.next_seqno) e
              v.tiles).1.carried

  -- An empty segment carries nothing.
  pub send_empty_segment-IsValid :
      (s : TcpSender) → IsValid S N isn s → IsValid S N isn (send_empty_segment s)
  unfolding send_empty_segment
  send_empty_segment-IsValid s v =
      retimed-IsValid s (send_empty_segment s) v refl
        (AllGenuine-snoc S N isn s.segments_out _ v.genuine (blank refl refl refl))

-- The timer runs out `n` times, each time just as its timeout has passed since the last.
pub expire : ℕ → TcpSender → TcpSender
expire zero s = s
expire (suc n) s = let s' = expire n s in tick s' s'.retransmission_timeout

pub copies : ℕ → TcpSegment → List TcpSegment
copies zero seg = []
copies (suc n) seg = copies n seg ++ (seg ∷ [])

pub tick_expired :
    (s : TcpSender) (o : Outstanding) (rest : List Outstanding)
    → s.segments_outgoing ≡ o ∷ rest
    → 0 < s.win_size
    → s.retransmission_timecount ≡ 0
    → s.retransmission_timeout * 2 < 2 ^ 32
    → s.consecutive_retransmissions + 1 < 2 ^ 32
    → tick s s.retransmission_timeout ≡ record s {
      retransmission_timeout = s.retransmission_timeout * 2;
      retransmission_timecount = 0;
      consecutive_retransmissions = s.consecutive_retransmissions + 1;
      segments_out = s.segments_out ++ (o.segment ∷ []);
    }
unfolding tick retransmit
tick_expired s o rest e w t fits few = ground arith

-- The state after `n` timeouts.
abbrev pub backed_off : ℕ → TcpSender → Outstanding → TcpSender
backed_off n s o = record s {
  retransmission_timeout = s.retransmission_timeout * 2 ^ n;
  retransmission_timecount = 0;
  consecutive_retransmissions = s.consecutive_retransmissions + n;
  segments_out = s.segments_out ++ copies n o.segment;
}

-- With the timer just reset, a window above 0, `o` the oldest outstanding segment, and neither the
-- timeout nor the count passing 32 bits, `n` ticks in a row, each as long as the timeout at that
-- moment, send `o` again `n` times, count `n` retransmissions, multiply the timeout by 2 ^ n, and
-- change nothing else.
pub expire_lem :
    (n : ℕ) (s : TcpSender) (o : Outstanding) (rest : List Outstanding)
    → s.segments_outgoing ≡ o ∷ rest
    → 0 < s.win_size
    → s.retransmission_timecount ≡ 0
    → s.retransmission_timeout * 2 ^ n < 2 ^ 32
    → s.consecutive_retransmissions + n < 2 ^ 32
    → expire n s ≡ backed_off n s o
unfolding expire copies
expire_lem zero s o rest e w t fits few = ground (arith, append-nil s.segments_out)
expire_lem (suc n) s o rest e w t fits few =
    ap (λ q. tick q q.retransmission_timeout)
      (expire_lem n s o rest e w t (omega (arith, doubled)) (omega arith))
    ∙ tick_expired (backed_off n s o) o rest e w refl (rw doubled at fits) (omega arith)
    ∙ ground (arith, doubled, append_assoc s.segments_out (copies n o.segment) (o.segment ∷ []))
  where
    doubled : s.retransmission_timeout * 2 ^ suc n ≡ s.retransmission_timeout * 2 ^ n * 2
    doubled = omega (arith, ap (λ k. s.retransmission_timeout * k) (pow-suc 2 n))

pub win_size-tick : (s : TcpSender) (ms : ℕ) → (tick s ms).win_size ≡ s.win_size
unfolding tick retransmit
win_size-tick s ms = elim (tick_cases s ms) [
  | inl quiet ↦ ap (λ q. q.win_size) quiet
  | inr (o, rest, e, again) ↦ ap (λ q. q.win_size) again
]

pub win_size-send_empty_segment : (s : TcpSender) → (send_empty_segment s).win_size ≡ s.win_size
unfolding send_empty_segment
win_size-send_empty_segment s = refl
