-- ===== src/Sender/Window.antt =====
-- `fill_window`: it ends, keeps the state, respects the window and leaves nothing that fits unsent.
use cs144_lab.Base.{
  <-cases, Bool-cases, arith, false, inl, inr, length, max, not, refl, suc, sym, true, zero, ℕ, ◌+◌,
  ◌-◌, ◌<◌, ◌^◌, ◌∙◌, ◌≡◌, ◌≤◌, ◌⊎◌,
}
use cs144_lab.Segment.{length_in_sequence_space, flag}
use cs144_lab.Sender.{
  TcpSender, make_segment, after_read, round, send, usable_window, fill_window, fill_loop,
  usable_window, fill_window,
}
use cs144_lab.Sender.Invariant.{IsValid, round-IsValid, round_lem, after_read_idle, idle_lem}

module _ (win : ℕ) (s : TcpSender) where
  abbrev len : ℕ
  len = length_in_sequence_space (make_segment win s)

  -- The four ways in which a turn of the loop goes on.
  data Turn (fuel : ℕ) : Type 0 where
    full : win ≤ s.outgoing_bytes → fill_loop (suc fuel) win s ≡ s → Turn fuel
    idle :
        s.outgoing_bytes < win → len ≡ 0 → fill_loop (suc fuel) win s ≡ after_read win s → Turn fuel
    last :
        s.outgoing_bytes < win
        → 0 < len
        → (make_segment win s).header.fin ≡ true
        → fill_loop (suc fuel) win s ≡ round win s
        → Turn fuel
    more :
        s.outgoing_bytes < win
        → 0 < len
        → (make_segment win s).header.fin ≡ false
        → fill_loop (suc fuel) win s ≡ fill_loop fuel win (round win s)
        → Turn fuel

  turn : (fuel : ℕ) → Turn fuel
  unfolding fill_loop
  turn fuel = elim (<-cases s.outgoing_bytes win) [
    | inr h ↦ full h (ground arith)
    | inl room ↦ elim (<-cases 0 len) [
      | inr none_left ↦ idle room (omega arith) (ground arith)
      | inl occupied ↦ elim (Bool-cases (make_segment win s).header.fin) [
        | inl e ↦ last room occupied e (ground arith)
        | inr e ↦ more room occupied e (ground arith)
      ]
    ]
  ]

pub usable-lt : (s : TcpSender) → s.win_size < 2 ^ 16 → usable_window s < 2 ^ 62
usable-lt s h = ground arith

round_fin :
    (win : ℕ) (s : TcpSender) → (make_segment win s).header.fin ≡ true → (round win s).fin ≡ true
unfolding make_segment round send after_read
round_fin win s f = ground arith

-- What `fill_window` has done when it stops.
pub record Filled (S : ℕ → ℕ) (N isn win : ℕ) (s s' : TcpSender) : Type 0 where
  pub valid : IsValid S N isn s'
  -- The window is full, or every byte of the stream is sent, and the FIN if the stream is ended.
  pub complete :
      (win ≤ s'.outgoing_bytes)
      ⊎ ((length s'.stream.buff ≡ 0) × (s'.stream.is_input_end ≡ true → s'.fin ≡ true))
  pub bounded : s'.outgoing_bytes ≤ max s.outgoing_bytes (win + flag (not s.syn))

module _ (S : ℕ → ℕ) (N isn : ℕ) (win : ℕ) (narrow : win < 2 ^ 62) where
  -- Every run of the loop keeps the state.
  pub fill_loop-IsValid :
      (fuel : ℕ) (s : TcpSender) → IsValid S N isn s → IsValid S N isn (fill_loop fuel win s)
  unfolding fill_loop
  fill_loop-IsValid zero s v = v
  fill_loop-IsValid (suc fuel) s v = go (turn win s fuel) (fill_loop-IsValid fuel (round win s))
    where
      go :
          Turn win s fuel
          → (IsValid S N isn (round win s) → IsValid S N isn (fill_loop fuel win (round win s)))
          → IsValid S N isn (fill_loop (suc fuel) win s)
      go (full h e) ih = rw e v
      go (idle room h e) ih = rw (e, after_read_idle S N isn win s v room narrow h) v
      go (last room h f e) ih = rw e (round-IsValid S N isn win s v room narrow h)
      go (more room h f e) ih = rw e (ih (round-IsValid S N isn win s v room narrow h))

  -- More fuel than the window has room makes no difference: the loop ends by its own tests.
  pub fill_loop_stable :
      (fuel more_fuel : ℕ) (s : TcpSender)
      → IsValid S N isn s
      → win - s.outgoing_bytes < fuel
      → fuel ≤ more_fuel
      → fill_loop more_fuel win s ≡ fill_loop fuel win s
  fill_loop_stable zero more_fuel s v h k = absurd (omega arith)
  fill_loop_stable (suc fuel) zero s v h k = absurd (omega arith)
  fill_loop_stable (suc fuel) (suc more_fuel) s v h k =
      go (turn win s fuel) (turn win s more_fuel) (fill_loop_stable fuel more_fuel (round win s))
    where
      go :
          Turn win s fuel
          → Turn win s more_fuel
          → (IsValid S N isn (round win s)
              → win - (round win s).outgoing_bytes < fuel
              → fuel ≤ more_fuel
              → fill_loop more_fuel win (round win s) ≡ fill_loop fuel win (round win s))
          → fill_loop (suc more_fuel) win s ≡ fill_loop (suc fuel) win s
      go (full a e) (full b e') ih = e' ∙ sym e
      go (idle r a e) (idle r' b e') ih = e' ∙ sym e
      go (last r a f e) (last r' b f' e') ih = e' ∙ sym e
      go (more r a f e) (more r' b f' e') ih =
          e'
          ∙ ih (round-IsValid S N isn win s v r narrow a)
              (omega (arith, round_lem S N isn win s v r narrow a)) (omega arith)
          ∙ sym e
      go (full a e) (idle r b e') ih = absurd (omega arith)
      go (full a e) (last r b f e') ih = absurd (omega arith)
      go (full a e) (more r b f e') ih = absurd (omega arith)
      go (idle r b e') (full a e) ih = absurd (omega arith)
      go (idle r a e) (last r' b f e') ih = absurd (omega arith)
      go (idle r a e) (more r' b f e') ih = absurd (omega arith)
      go (last r b f e') (full a e) ih = absurd (omega arith)
      go (last r b f e') (idle r' a e) ih = absurd (omega arith)
      go (last r b f e') (more r' a f' e) ih = cc
      go (more r b f e') (full a e) ih = absurd (omega arith)
      go (more r b f e') (idle r' a e) ih = absurd (omega arith)
      go (more r b f e') (last r' a f' e) ih = cc

  finished_lem : (s : TcpSender) → IsValid S N isn s → s.fin ≡ true → length s.stream.buff ≡ 0
  finished_lem s v e = omega (arith, v.finished e, v.stream.counted, v.written-le)

  pub fill_loop-Filled :
      (fuel : ℕ) (s : TcpSender)
      → IsValid S N isn s
      → win - s.outgoing_bytes < fuel
      → Filled S N isn win s (fill_loop fuel win s)
  fill_loop-Filled zero s v h = absurd (omega arith)
  fill_loop-Filled (suc fuel) s v h = go (turn win s fuel) (fill_loop-Filled fuel (round win s))
    where
      go :
          Turn win s fuel
          → (IsValid S N isn (round win s)
              → win - (round win s).outgoing_bytes < fuel
              → Filled S N isn win (round win s) (fill_loop fuel win (round win s)))
          → Filled S N isn win s (fill_loop (suc fuel) win s)
      go (full a e) ih = rw e (record { valid = v; complete = inl a; bounded = omega arith })
      go (idle r a e) ih =
          rw (e, after_read_idle S N isn win s v r narrow a)
            (record {
              valid = v;
              complete = inr (idle_lem S N isn win s v r narrow a);
              bounded = omega arith;
            })
      go (last r a f e) ih =
          let q = round_lem S N isn win s v r narrow a in
          let w = round-IsValid S N isn win s v r narrow a in
          rw e (record {
            valid = w;
            complete =
                inr (finished_lem (round win s) w (round_fin win s f), λ _. round_fin win s f);
            bounded = omega (arith, q);
          })
      go (more r a f e) ih =
          let q = round_lem S N isn win s v r narrow a in
          let i = ih (round-IsValid S N isn win s v r narrow a) (omega (arith, q)) in
          rw e (record {
            valid = i.valid;
            complete = i.complete;
            bounded = ground (arith, i.bounded, q);
          })

-- On a valid sender whose window is a 16-bit number, `fill_window` leaves a valid sender, all of
-- whose segments are genuine; stops with the window full or with the stream buffer empty and, if
-- the stream is ended, the FIN sent; and puts no more in flight than was there or fits the window,
-- or one number more when it sends the SYN.
pub fill_window-Filled :
    (S : ℕ → ℕ) (N isn : ℕ) (s : TcpSender)
    → IsValid S N isn s
    → s.win_size < 2 ^ 16
    → Filled S N isn (usable_window s) s (fill_window s)
unfolding fill_window
fill_window-Filled S N isn s v h =
    fill_loop-Filled S N isn (usable_window s) (usable-lt s h) (suc (usable_window s)) s v
      (omega arith)

-- On a valid sender whose window is a 16-bit number, the loop of `fill_window` with any fuel above
-- the window gives what `fill_window` gives: its fuel is enough.
pub fill_window_stable :
    (S : ℕ → ℕ) (N isn fuel : ℕ) (s : TcpSender)
    → IsValid S N isn s
    → s.win_size < 2 ^ 16
    → usable_window s < fuel
    → fill_loop fuel (usable_window s) s ≡ fill_window s
unfolding fill_window
fill_window_stable S N isn fuel s v h k =
    fill_loop_stable S N isn (usable_window s) (usable-lt s h) (suc (usable_window s)) fuel s v
      (omega arith) k

-- A property that the rounds keep is kept by the loop.
module _ (win : ℕ) (P : TcpSender → Type 0)
    (reads : (s : TcpSender)
      → s.outgoing_bytes < win
      → length_in_sequence_space (make_segment win s) ≡ 0
      → P s
      → P (after_read win s))
    (sends : (s : TcpSender)
      → s.outgoing_bytes < win
      → 0 < length_in_sequence_space (make_segment win s)
      → P s
      → P (round win s)) where
  pub fill_loop_inv : (fuel : ℕ) (s : TcpSender) → P s → P (fill_loop fuel win s)
  unfolding fill_loop
  fill_loop_inv zero s p = p
  fill_loop_inv (suc fuel) s p = go (turn win s fuel) (fill_loop_inv fuel (round win s))
    where
      go :
          Turn win s fuel
          → (P (round win s) → P (fill_loop fuel win (round win s)))
          → P (fill_loop (suc fuel) win s)
      go (full h e) ih = rw e p
      go (idle room h e) ih = rw e (reads s room h p)
      go (last room h f e) ih = rw e (sends s room h p)
      go (more room h f e) ih = rw e (ih (sends s room h p))

-- Filling the window leaves its size.
pub win_size-fill_window : (s : TcpSender) → (fill_window s).win_size ≡ s.win_size
unfolding fill_window
win_size-fill_window s =
    fill_loop_inv (usable_window s) (λ q. q.win_size ≡ s.win_size)
      (λ q r e k. unfold after_read in k) (λ q r e k. unfold round send after_read in k)
      (suc (usable_window s)) s refl
