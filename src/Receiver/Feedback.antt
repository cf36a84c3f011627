-- ===== src/Receiver/Feedback.antt =====
-- What a receiver tells its peer, and the numbers beyond which it misreads it.
use cs144_lab.Base.{
  ap, arith, false, if◌then◌else◌, some, true, u32, ulong_max, ℕ, ◌+◌, ◌<◌, ◌^◌, ◌≡◌, ◌≢◌, ◌≤◌,
}
use cs144_lab.Wrapping.{wrap, unwrap}
use cs144_lab.Wrapping.Unwrap.{unwrap-lt, wrap-lt}
use cs144_lab.Segment.{TcpHeader}
use cs144_lab.Receiver.{
  TcpReceiver, absolute_index, stream_index, ackno, window_size, unassembled_bytes,
}
use cs144_lab.Receiver.Genuine.{Tracks}

module _ (S : ℕ → ℕ) (N isn : ℕ) where
  -- On a receiver that tracks a stream and has the SYN, the acknowledgment number is the wrapped
  -- absolute number of the first byte that it has not delivered, the SYN counted, and one more once
  -- its output is ended.
  pub ackno_lem :
      (r : TcpReceiver)
      → Tracks S N isn r
      → r.syn ≡ true
      → ackno r
        ≡ some (
            wrap
              (1
                + r.reassembler.output.totin
                + (if r.reassembler.output.is_input_end then 1 else 0))
              isn)
  unfolding ackno
  ackno_lem r t known =
      let isn_read : u32 r.isn ≡ isn = omega (arith, t.knows_isn known, t.isn_small) in
      ground (
        arith,
        ap (wrap (1 + r.reassembler.output.totin)) isn_read,
        ap (wrap (1 + r.reassembler.output.totin + 1)) isn_read,
        t.holds.valid.written-le,
        t.stream_small,
      )

  -- On a receiver that tracks a stream, the window reaches from the first byte not delivered to
  -- `capacity` past the first byte not read.
  pub window_size_lem :
      (r : TcpReceiver)
      → Tracks S N isn r
      → r.reassembler.output.totin + window_size r
        ≡ r.reassembler.output.totout + r.reassembler.capacity
  unfolding window_size
  window_size_lem r t = omega (arith, t.holds.valid, t.holds.valid.stream)

-- Where a receiver waits for less than 2 ^ 31 bytes, a segment without SYN that is numbered for a
-- position at which the absolute number is 2 ^ 32 or more is not given that position.
pub stream_index_far :
    (r : TcpReceiver) (header : TcpHeader) (index : ℕ)
    → header.syn ≡ false
    → u32 r.isn ≡ r.isn
    → unassembled_bytes r < 2 ^ 31
    → header.seqno ≡ wrap (index + 1) r.isn
    → 2 ^ 32 ≤ index + 1
    → index < ulong_max
    → stream_index r header ≢ index
unfolding stream_index absolute_index
stream_index_far r header index s i u e far last = ground (
  arith,
  ap (λ k. unwrap k r.isn (unassembled_bytes r)) e,
  unwrap-lt (wrap (index + 1) r.isn) r.isn (unassembled_bytes r),
  wrap-lt (index + 1) r.isn,
  ap (λ k. unwrap header.seqno k (unassembled_bytes r)) i,
)
