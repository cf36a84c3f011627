-- ===== src/Sender/Acknowledge.antt =====
-- `ack_received`: what is acknowledged leaves the outstanding segments, and the window is filled.
use cs144_lab.Base.{
  <-cases, List, [], ap, append-nil, append_assoc, arith, if◌then◌else◌, inl, inr, length, ltb,
  refl, sub64, subst, suc, sym, true, ℕ, ◌++◌, ◌+◌, ◌-◌, ◌<◌, ◌==◌, ◌^◌, ◌∙◌, ◌∷◌, ◌≡◌, ◌≤◌, ◌⊎◌,
}
use cs144_lab.Wrapping.{wrap, unwrap}
use cs144_lab.Wrapping.Unwrap.{unwrap-wrap}
use cs144_lab.Segment.{length_in_sequence_space}
use cs144_lab.Sender.{
  TcpSender, Outstanding, insert, make_segment, after_read, send, round, drop_acked, fill_window,
  fill_loop, ack_received, usable_window,
}
use cs144_lab.Sender.Tiles.{Tiles, Tiles-le, size_of}
use cs144_lab.Sender.Invariant.{IsValid, round-IsValid, round_lem, after_read_idle}
use cs144_lab.Sender.Window.{fill_window-Filled, fill_loop_inv, usable-lt, win_size-fill_window}

-- No outstanding segment is acknowledged whole by `ack`.
abbrev pub AllBeyond : ℕ → List Outstanding → Type 0
AllBeyond ack [] = Unit {0}
AllBeyond ack (o ∷ rest) = (ack < o.key + size_of o) × AllBeyond ack rest

-- The outstanding segments that `ack` does not acknowledge whole.
pub beyond : ℕ → List Outstanding → List Outstanding
beyond ack [] = []
beyond ack (o ∷ rest) = if ltb ack (o.key + size_of o) then o ∷ beyond ack rest else beyond ack rest

beyond_all : (ack : ℕ) (l : List Outstanding) → AllBeyond ack l → beyond ack l ≡ l
unfolding beyond
beyond_all ack [] b = refl
beyond_all ack (o ∷ rest) b = ground (arith, b.0, beyond_all ack rest b.1)

module _ (S : ℕ → ℕ) (N isn : ℕ) where
  Tiles-AllBeyond :
      (ack lo hi : ℕ) (l : List Outstanding) → ack ≤ lo → Tiles S N isn lo hi l → AllBeyond ack l
  Tiles-AllBeyond ack lo hi [] h t = tt
  Tiles-AllBeyond ack lo hi (o ∷ rest) h t = (
    omega (arith, t.0, t.1.occupied),
    Tiles-AllBeyond ack (lo + size_of o) hi rest (omega arith) t.2,
  )

  popped : TcpSender → Outstanding → TcpSender
  popped s o = record s {
    outgoing_bytes = sub64 s.outgoing_bytes (length_in_sequence_space o.segment);
    retransmission_timeout = s.initial_retransmission_timeout;
    retransmission_timecount = 0;
  }

  module _ (ack : ℕ) (s : TcpSender) (o : Outstanding) (rest : List Outstanding)
      (v : IsValid S N isn (record s { segments_outgoing = o ∷ rest })) where
    end-le : o.key + size_of o ≤ s.next_seqno
    end-le = omega (arith, v.tiles.0, Tiles-le S N isn _ _ rest v.tiles.2)

    next-le : s.next_seqno ≤ N + 2
    next-le = ground (arith, v.numbered, v.stream.counted, v.written-le)

    drop_stop :
        ack < o.key + size_of o
        → drop_acked ack s (o ∷ rest) ≡ record s { segments_outgoing = o ∷ rest }
    unfolding drop_acked
    drop_stop h = ground (arith, end-le, next-le, v.small)

    drop_next :
        o.key + size_of o ≤ ack → drop_acked ack s (o ∷ rest) ≡ drop_acked ack (popped s o) rest
    unfolding drop_acked popped
    drop_next h = ground (arith, end-le, next-le, v.small)

    sizes : sub64 s.outgoing_bytes (size_of o) ≡ s.outgoing_bytes - size_of o
    sizes = omega (arith, end-le, next-le, v.small, v.in_flight, v.tiles.0)

    popped-IsValid : IsValid S N isn (record (popped s o) { segments_outgoing = rest })
    unfolding popped
    popped-IsValid = record {
      stream = v.stream;
      buffered = v.buffered;
      written-le = v.written-le;
      ended_complete = v.ended_complete;
      same_isn = v.same_isn;
      numbered = v.numbered;
      unsent = v.unsent;
      finished = v.finished;
      in_flight = omega (arith, sizes, v.in_flight);
      tiles =
          subst (λ k. Tiles S N isn k s.next_seqno rest)
            (omega (arith, sizes, v.in_flight, v.tiles.0, end-le)) v.tiles.2;
      genuine = v.genuine;
      small = v.small;
      isn_small = v.isn_small;
    }

  -- The loop over the outstanding segments `l` of a state that is valid with them keeps it valid, and
  -- leaves none that is acknowledged whole.
  drop_acked-IsValid :
      (ack : ℕ) (l : List Outstanding) (s : TcpSender)
      → IsValid S N isn (record s { segments_outgoing = l })
      → IsValid S N isn (drop_acked ack s l) × AllBeyond ack (drop_acked ack s l).segments_outgoing
  unfolding drop_acked
  drop_acked-IsValid ack [] s v = (v, tt)
  drop_acked-IsValid ack (o ∷ rest) s v = elim (<-cases ack (o.key + size_of o)) [
    | inl beyond ↦ rw (drop_stop ack s o rest v beyond) (
      v,
      (
        beyond,
        Tiles-AllBeyond ack (o.key + size_of o) s.next_seqno rest (omega arith)
            (rw v.tiles.0 v.tiles.2),
      ),
    )
    | inr acked ↦
        rw (drop_next ack s o rest v acked)
          (drop_acked-IsValid ack rest (popped s o) (popped-IsValid ack s o rest v))
  ]

  -- It leaves all those that are not.
  drop_acked-beyond :
      (ack : ℕ) (l : List Outstanding) (s : TcpSender)
      → IsValid S N isn (record s { segments_outgoing = l })
      → (drop_acked ack s l).segments_outgoing ≡ beyond ack l
  unfolding drop_acked beyond
  drop_acked-beyond ack [] s v = refl
  drop_acked-beyond ack (o ∷ rest) s v = elim (<-cases ack (o.key + size_of o)) [
    | inl unacked ↦
        let later : AllBeyond ack rest =
          Tiles-AllBeyond ack (o.key + size_of o) s.next_seqno rest (omega arith)
            (rw v.tiles.0 v.tiles.2) in
        ap (λ t. t.segments_outgoing) (drop_stop ack s o rest v unacked)
        ∙ ground (arith, beyond_all ack rest later)
    | inr acked ↦
        ap (λ t. t.segments_outgoing) (drop_next ack s o rest v acked)
        ∙ drop_acked-beyond ack rest (popped s o) (popped-IsValid ack s o rest v)
        ∙ ground arith
  ]

  -- A segment that starts where the others end goes behind them.
  insert-append :
      (lo hi : ℕ) (l : List Outstanding) (o : Outstanding)
      → Tiles S N isn lo hi l
      → o.key ≡ hi
      → insert o l ≡ l ++ (o ∷ [])
  unfolding insert
  insert-append lo hi [] o t k = refl
  insert-append lo hi (p ∷ rest) o t k = ground (
    arith,
    Tiles-le S N isn (lo + size_of p) hi rest t.2,
    t.1.occupied,
    insert-append (lo + size_of p) hi rest o t.2 k,
  )

  -- Filling the window keeps the outstanding segments, and adds behind them.
  fill_window-append :
      (s : TcpSender)
      → IsValid S N isn s
      → s.win_size < 2 ^ 16
      → (added : List Outstanding) × ((fill_window s).segments_outgoing
          ≡ s.segments_outgoing ++ added)
  unfolding fill_window
  fill_window-append s v h =
      let g : Grown (fill_loop (suc win) win s) =
        fill_loop_inv win Grown
          (λ q room none_left p. rw (after_read_idle S N isn win q p.0 room narrow none_left) p)
          (λ q room some_left p.
            let o : Outstanding = record { key = q.next_seqno; segment = make_segment win q } in
            let grown =
              insert-append _ q.next_seqno q.segments_outgoing o p.0.tiles refl
              ∙ ap (λ l. l ++ (o ∷ [])) p.2
              ∙ append_assoc s.segments_outgoing p.1 (o ∷ []) in
            (
              round-IsValid S N isn win q p.0 room narrow some_left,
              p.1 ++ (o ∷ []),
              unfold round send after_read in grown,
            ))
          (suc win) s (v, [], sym (append-nil s.segments_outgoing)) in
      (g.1, g.2)
    where
      win : ℕ
      win = usable_window s

      narrow : win < 2 ^ 62
      narrow = usable-lt s h

      Grown : TcpSender → Type 0
      Grown q =
          IsValid S N isn q
          × (added : List Outstanding) × (q.segments_outgoing ≡ s.segments_outgoing ++ added)

  insert-AllBeyond :
      (ack : ℕ) (l : List Outstanding) (o : Outstanding)
      → ack < o.key + size_of o
      → AllBeyond ack l
      → AllBeyond ack (insert o l)
  unfolding insert
  insert-AllBeyond ack [] o h b = (h, tt)
  insert-AllBeyond ack (p ∷ rest) o h b = ground (arith, insert-AllBeyond ack rest o h b.1)

  -- Filling the window adds only segments beyond what is acknowledged.
  pub fill_window-AllBeyond :
      (ack : ℕ) (s : TcpSender)
      → IsValid S N isn s
      → s.win_size < 2 ^ 16
      → ack ≤ s.next_seqno
      → AllBeyond ack s.segments_outgoing
      → AllBeyond ack (fill_window s).segments_outgoing
  unfolding fill_window
  fill_window-AllBeyond ack s v h k b =
      (fill_loop_inv win Keeps
        (λ q room none_left p. rw (after_read_idle S N isn win q p.0 room narrow none_left) p)
        (λ q room some_left p. (
          round-IsValid S N isn win q p.0 room narrow some_left,
          omega (arith, round_lem S N isn win q p.0 room narrow some_left, p.1),
          unfold round send after_read in
              insert-AllBeyond ack q.segments_outgoing
                (record { key = q.next_seqno; segment = make_segment win q }) (omega (arith, p.1))
                p.2,
        ))
        (suc win) s (v, k, b)).2
    where
      win : ℕ
      win = usable_window s

      narrow : win < 2 ^ 62
      narrow = usable-lt s h

      Keeps : TcpSender → Type 0
      Keeps q = IsValid S N isn q × (ack ≤ q.next_seqno) × AllBeyond ack q.segments_outgoing

  -- An acknowledgment of something not yet sent is ignored.
  pub ack_received_unreliable :
      (s : TcpSender) (ackno window_size : ℕ)
      → s.next_seqno < unwrap ackno s.isn s.next_seqno
      → ack_received s ackno window_size ≡ s
  unfolding ack_received
  ack_received_unreliable s ackno window_size h = ground arith

  -- The state in which the window is filled.
  acknowledged : TcpSender → ℕ → ℕ → TcpSender
  acknowledged s ack window_size = record (drop_acked ack s s.segments_outgoing) {
    win_size = window_size;
    consecutive_retransmissions = 0;
  }

  drop_acked_next :
      (ack : ℕ) (l : List Outstanding) (s : TcpSender)
      → (drop_acked ack s l).next_seqno ≡ s.next_seqno
  unfolding drop_acked
  drop_acked_next ack [] s = refl
  drop_acked_next ack (o ∷ rest) s = ground (
    arith,
    drop_acked_next ack rest (record s {
      outgoing_bytes = sub64 s.outgoing_bytes (length_in_sequence_space o.segment);
      retransmission_timeout = s.initial_retransmission_timeout;
      retransmission_timecount = 0;
    }),
  )

  acknowledged-IsValid :
      (s : TcpSender) (ack window_size : ℕ)
      → IsValid S N isn s
      → IsValid S N isn (acknowledged s ack window_size)
  unfolding acknowledged
  acknowledged-IsValid s ack window_size v =
      let w = (drop_acked-IsValid ack s.segments_outgoing s v).0 in
      record {
        stream = w.stream;
        buffered = w.buffered;
        written-le = w.written-le;
        ended_complete = w.ended_complete;
        same_isn = w.same_isn;
        numbered = w.numbered;
        unsent = w.unsent;
        finished = w.finished;
        in_flight = w.in_flight;
        tiles = w.tiles;
        genuine = w.genuine;
        small = w.small;
        isn_small = w.isn_small;
      }

  acknowledges :
      (s : TcpSender) (ackno window_size : ℕ)
      → unwrap ackno s.isn s.next_seqno ≤ s.next_seqno
      → ack_received s ackno window_size
        ≡ fill_window (acknowledged s (unwrap ackno s.isn s.next_seqno) window_size)
  unfolding ack_received acknowledged
  acknowledges s ackno window_size h = ground arith

  -- Whatever acknowledgment arrives, the state stays valid.
  pub ack_received-IsValid :
      (s : TcpSender) (ackno window_size : ℕ)
      → IsValid S N isn s
      → window_size < 2 ^ 16
      → IsValid S N isn (ack_received s ackno window_size)
  ack_received-IsValid s ackno window_size v h =
      let ack = unwrap ackno s.isn s.next_seqno in
      elim (<-cases s.next_seqno ack) [
        | inl early ↦ rw (ack_received_unreliable s ackno window_size early) v
        | inr known ↦
            rw (acknowledges s ackno window_size known)
              (fill_window-Filled S N isn (acknowledged s ack window_size)
                (acknowledged-IsValid s ack window_size v) (unfold acknowledged in h)).valid
      ]

  -- On a valid sender, the wrapped acknowledgment of an absolute number up to the next one to be
  -- sent and less than 2 ^ 31 behind it, with a 16-bit window, leaves a valid sender whose
  -- outstanding segments are those from before that end beyond that number, in their order,
  -- followed by new ones, all of which end beyond it; and the advertised window (1 where it is 0)
  -- is full, or the buffer is empty and the FIN sent if the stream is ended.
  pub ack_received_lem :
      (s : TcpSender) (ack window_size : ℕ)
      → IsValid S N isn s
      → window_size < 2 ^ 16
      → ack ≤ s.next_seqno
      → s.next_seqno < ack + 2 ^ 31
      → let s' = ack_received s (wrap ack isn) window_size in
        IsValid S N isn s'
        × AllBeyond ack s'.segments_outgoing
        × ((added : List Outstanding) × (s'.segments_outgoing
              ≡ beyond ack s.segments_outgoing ++ added))
        × (((if window_size == 0 then 1 else window_size) ≤ s'.outgoing_bytes)
            ⊎ ((length s'.stream.buff ≡ 0) × (s'.stream.is_input_end ≡ true → s'.fin ≡ true)))
  ack_received_lem s ack window_size v h sent near =
      let t = acknowledged s ack window_size in
      let w = acknowledged-IsValid s ack window_size v in
      let f = fill_window-Filled S N isn t w (unfold acknowledged in h) in
      let more = fill_window-append t w (unfold acknowledged in h) in
      rw filled (
        f.valid,
        fill_window-AllBeyond ack t w (unfold acknowledged in h)
            (unfold acknowledged in rw (drop_acked_next ack s.segments_outgoing s) sent)
            (unfold acknowledged in (drop_acked-IsValid ack s.segments_outgoing s v).1),
        (
          more.0,
          more.1
              ∙ ap (λ l. l ++ more.0)
                  (unfold acknowledged in drop_acked-beyond ack s.segments_outgoing s v),
        ),
        unfold acknowledged in f.complete,
      )
    where
      read_back : unwrap (wrap ack isn) s.isn s.next_seqno ≡ ack
      read_back = rw v.same_isn (
          unwrap-wrap ack isn s.next_seqno v.isn_small
            (ground (arith, v.numbered, v.stream.counted, v.written-le, v.small)) (omega arith)
            near)

      filled :
          ack_received s (wrap ack isn) window_size ≡ fill_window (acknowledged s ack window_size)
      filled =
          acknowledges s (wrap ack isn) window_size (rw read_back sent)
          ∙ ap (λ k. fill_window (acknowledged s k window_size)) read_back

-- The window is the advertised one, or the old one if the acknowledgment is ignored.
pub win_size-ack_received :
    (s : TcpSender) (ackno window_size : ℕ)
    → s.win_size < 2 ^ 16
    → window_size < 2 ^ 16
    → (ack_received s ackno window_size).win_size < 2 ^ 16
unfolding ack_received
win_size-ack_received s ackno window_size h k =
    let t : TcpSender =
      record (drop_acked (unwrap ackno s.isn s.next_seqno) s s.segments_outgoing) {
        win_size = window_size;
        consecutive_retransmissions = 0;
      } in
    ground (arith, win_size-fill_window t)
