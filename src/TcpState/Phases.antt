-- ===== src/TcpState/Phases.antt =====
-- The official states, told apart, and the branches that `TCPConnection::segment_received` takes in
-- them.
use cs144_lab.Base.{Bool, arith, if◌then◌else◌, true, ◌+◌, ◌<◌, ◌^◌, ◌≡◌, ◌≤◌}
use cs144_lab.ByteStream
use cs144_lab.Connection.{TcpConnection, Phase, phase}
use cs144_lab.TcpState.{
  State, of_state, state, receiver_summary, sender_summary, summarize, listen, syn_rcvd, syn_sent,
  established, close_wait, fin_wait_1, fin_wait_2, time_wait, closed, reset,
}

-- The constructor from an official state gives every state a summary of its own.
pub of_state-injective : (a b : State) → of_state a ≡ of_state b → a ≡ b
unfolding of_state
of_state-injective a b e = ground arith

-- The branch of `segment_received` for each official state, by whether the outgoing stream is at its
-- end. CLOSE_WAIT shares that of ESTABLISHED; CLOSING, LAST_ACK and a FIN that waits for room have
-- none of their own.
pub branch : State → Bool → Phase
branch listen eof = Phase.closed
branch syn_sent eof = Phase.syn_sent
branch syn_rcvd eof = Phase.syn_rcvd
branch established eof = if eof then Phase.other else Phase.estab
branch close_wait eof = if eof then Phase.other else Phase.estab
branch fin_wait_1 eof = Phase.fin_wait_1
branch fin_wait_2 eof = Phase.fin_wait_2
branch time_wait eof = Phase.time_wait
branch _ eof = Phase.other

-- An active connection whose summary is that of an official state, with no more numbers in flight
-- than were used and no more used than the bytes written, the SYN and the FIN, handles a segment by
-- the branch of `segment_received` that `branch` gives: for LISTEN that of CLOSE/LISTEN; for
-- SYN_SENT, SYN_RCVD, FIN_WAIT_1, FIN_WAIT_2 and TIME_WAIT the one of that name; for ESTABLISHED
-- and CLOSE_WAIT that of ESTAB while the outbound stream is not at its end, and the last one once
-- it is; for CLOSING and LAST_ACK the last one.
pub phase-of_state :
    (q : State) (c : TcpConnection)
    → state c ≡ of_state q
    → c.active ≡ true
    → c.sender.outgoing_bytes ≤ c.sender.next_seqno
    → c.sender.next_seqno ≤ c.sender.stream.totin + 2
    → c.sender.stream.totin + 2 < 2 ^ 64
    → phase c ≡ branch q (ByteStream.eof c.sender.stream)
unfolding of_state summarize receiver_summary sender_summary phase branch
phase-of_state closed c e a f n w = cc
phase-of_state reset c e a f n w = cc
phase-of_state listen c e a f n w = ground arith
phase-of_state _ c e a f n w = ground arith
