-- ===== src/Sender/Outbound.antt =====
-- What reads, the end mark and the error mark keep of the stream of a sender, the sender keeps.
use cs144_lab.Base.{Bool-cases, List, [], arith, inl, inr, ltb, refl, sub64, suc, ℕ, ◌∷◌, ◌≡◌}
use cs144_lab.ByteStream
use cs144_lab.ByteStream.{ByteStream}
use cs144_lab.Segment.{length_in_sequence_space}
use cs144_lab.Sender.{
  unwrap, TcpSender, Outstanding, after_read, round, send, stream_after, payload_size,
  usable_window, fill_window, drop_acked, ack_received, tick, retransmit,
}
use cs144_lab.Sender.Window.{fill_loop_inv}
use cs144_lab.Sender.Timer.{tick_cases}

-- A property of a byte stream that all but its writer keeps.
pub record IsKept (P : ByteStream → Type 0) : Type 0 where
  pub reads : (s : ByteStream) (len : ℕ) → P s → P (ByteStream.read s len).0
  pub ends : (s : ByteStream) → P s → P (ByteStream.end_input s)
  pub fails : (s : ByteStream) → P s → P (ByteStream.set_error s)

module _ (P : ByteStream → Type 0) (k : IsKept P) where
  pub fill_window_keeps : (s : TcpSender) → P s.stream → P (fill_window s).stream
  unfolding fill_window
  fill_window_keeps s p =
      fill_loop_inv (usable_window s) (λ q. P q.stream)
        (λ q r e h.
          unfold after_read stream_after in k.reads q.stream (payload_size (usable_window s) q) h)
        (λ q r e h.
          unfold round send after_read stream_after in
          k.reads q.stream (payload_size (usable_window s) q) h)
        (suc (usable_window s)) s p

  drop_acked_stream :
      (n : ℕ) (s : TcpSender) (l : List Outstanding) → (drop_acked n s l).stream ≡ s.stream
  unfolding drop_acked
  drop_acked_stream n s [] = refl
  drop_acked_stream n s (o ∷ rest) = ground (
    arith,
    drop_acked_stream n
        (record s {
          outgoing_bytes = sub64 s.outgoing_bytes (length_in_sequence_space o.segment);
          retransmission_timeout = s.initial_retransmission_timeout;
          retransmission_timecount = 0;
        })
        rest,
  )

  pub ack_received_keeps :
      (s : TcpSender) (ackno window_size : ℕ)
      → P s.stream
      → P (ack_received s ackno window_size).stream
  unfolding ack_received
  ack_received_keeps s ackno window_size p =
      let n = unwrap ackno s.isn s.next_seqno in
      let t : TcpSender = record (drop_acked n s s.segments_outgoing) {
        win_size = window_size;
        consecutive_retransmissions = 0;
      } in
      elim (Bool-cases (ltb s.next_seqno n)) [
        | inl ignored ↦ rw ignored p
        | inr taken ↦
            rw taken (fill_window_keeps t (rw (drop_acked_stream n s s.segments_outgoing) p))
      ]

  pub tick_keeps : (s : TcpSender) (ms : ℕ) → P s.stream → P (tick s ms).stream
  unfolding retransmit
  tick_keeps s ms p = elim (tick_cases s ms) [
    | inl quiet ↦ rw quiet p
    | inr (o, rest, e, again) ↦ rw again p
  ]
