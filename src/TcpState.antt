-- ===== src/TcpState.antt =====
-- libsponge/tcp_helpers/tcp_state.{hh,cc}: a connection summarised, and the states that RFC 793 names.
pub mod Phases
use cs144_lab.Base.{Bool, add64, false, if◌then◌else◌, ltb, none, not, refl, some, true, ◌==◌, ◌≡◌}
use cs144_lab.ByteStream
use cs144_lab.Receiver
use cs144_lab.Receiver.{TcpReceiver}
use cs144_lab.Sender
use cs144_lab.Sender.{TcpSender}
use cs144_lab.Connection.{TcpConnection}

-- `TCPReceiverStateSummary`; a constructor stands for each string.
pub data ReceiverSummary : Type 0 where
  error listen syn_recv fin_recv : ReceiverSummary

-- `TCPSenderStateSummary`
pub data SenderSummary : Type 0 where
  error closed syn_sent syn_acked fin_sent fin_acked : SenderSummary

-- `class TCPState`
pub record TcpState : Type 0 where
  pub sender : SenderSummary
  pub receiver : ReceiverSummary
  pub active : Bool
  pub linger_after_streams_finish : Bool

-- `enum class State`
pub data State : Type 0 where
  listen syn_rcvd syn_sent established close_wait last_ack fin_wait_1 fin_wait_2 closing time_wait
        closed reset :
      State

pub TcpState-discrete : Discrete TcpState
TcpState-discrete = hlevel

pub equal : TcpState → TcpState → Bool
unfolding TcpState-discrete
equal a b = elim (TcpState-discrete a b) [ yes _ ↦ true | no _ ↦ false ]

pub equal_self : (a : TcpState) → equal a a ≡ true
unfolding equal
equal_self a =
    elim (TcpState-discrete a a) as (λ d. elim d [ yes _ ↦ true | no _ ↦ false ] ≡ true) [
      | yes _ ↦ refl
      | no different ↦ absurd (different refl)
    ]

-- The constructor from an official state.
unfoldable pub of_state : State → TcpState
of_state listen = record {
  receiver = ReceiverSummary.listen;
  sender = SenderSummary.closed;
  active = true;
  linger_after_streams_finish = true;
}
of_state syn_rcvd = record {
  receiver = ReceiverSummary.syn_recv;
  sender = SenderSummary.syn_sent;
  active = true;
  linger_after_streams_finish = true;
}
of_state syn_sent = record {
  receiver = ReceiverSummary.listen;
  sender = SenderSummary.syn_sent;
  active = true;
  linger_after_streams_finish = true;
}
of_state established = record {
  receiver = ReceiverSummary.syn_recv;
  sender = SenderSummary.syn_acked;
  active = true;
  linger_after_streams_finish = true;
}
of_state close_wait = record {
  receiver = ReceiverSummary.fin_recv;
  sender = SenderSummary.syn_acked;
  active = true;
  linger_after_streams_finish = false;
}
of_state last_ack = record {
  receiver = ReceiverSummary.fin_recv;
  sender = SenderSummary.fin_sent;
  active = true;
  linger_after_streams_finish = false;
}
of_state closing = record {
  receiver = ReceiverSummary.fin_recv;
  sender = SenderSummary.fin_sent;
  active = true;
  linger_after_streams_finish = true;
}
of_state fin_wait_1 = record {
  receiver = ReceiverSummary.syn_recv;
  sender = SenderSummary.fin_sent;
  active = true;
  linger_after_streams_finish = true;
}
of_state fin_wait_2 = record {
  receiver = ReceiverSummary.syn_recv;
  sender = SenderSummary.fin_acked;
  active = true;
  linger_after_streams_finish = true;
}
of_state time_wait = record {
  receiver = ReceiverSummary.fin_recv;
  sender = SenderSummary.fin_acked;
  active = true;
  linger_after_streams_finish = true;
}
of_state reset = record {
  receiver = ReceiverSummary.error;
  sender = SenderSummary.error;
  active = false;
  linger_after_streams_finish = false;
}
of_state closed = record {
  receiver = ReceiverSummary.fin_recv;
  sender = SenderSummary.fin_acked;
  active = false;
  linger_after_streams_finish = false;
}

unfoldable pub receiver_summary : TcpReceiver → ReceiverSummary
receiver_summary r =
    if ByteStream.error (Receiver.stream_out r)
    then ReceiverSummary.error
    else elim (Receiver.ackno r) [
      | none ↦ ReceiverSummary.listen
      | some _ ↦
          if ByteStream.input_ended (Receiver.stream_out r)
          then ReceiverSummary.fin_recv
          else ReceiverSummary.syn_recv
    ]

unfoldable pub sender_summary : TcpSender → SenderSummary
sender_summary s =
    if ByteStream.error s.stream
    then SenderSummary.error
    else if s.next_seqno == 0
    then SenderSummary.closed
    else if s.next_seqno == s.outgoing_bytes
    then SenderSummary.syn_sent
    else if not (ByteStream.eof s.stream)
    then SenderSummary.syn_acked
    else if ltb s.next_seqno (add64 (ByteStream.bytes_written s.stream) 2)
    then SenderSummary.syn_acked
    else if not (s.outgoing_bytes == 0)
    then SenderSummary.fin_sent
    else SenderSummary.fin_acked

-- The constructor from the two halves and the two flags of a connection.
unfoldable pub summarize : TcpSender → TcpReceiver → Bool → Bool → TcpState
unfolding receiver_summary sender_summary
summarize s r active linger = record {
  sender = sender_summary s;
  receiver = receiver_summary r;
  active = active;
  linger_after_streams_finish = if active then linger else false;
}

-- `TCPConnection::state`
abbrev pub state : TcpConnection → TcpState
state c = summarize c.sender c.receiver c.active c.linger_after_streams_finish
