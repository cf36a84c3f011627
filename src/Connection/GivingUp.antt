-- ===== src/Connection/GivingUp.antt =====
-- Timeouts without an acknowledgment, up to `TCPConfig::MAX_RETX_ATTEMPTS`.
use cs144_lab.Base.{List, suc, true, zero, ℕ, ◌*◌, ◌<◌, ◌^◌, ◌∷◌, ◌≡◌}
use cs144_lab.ByteStream
use cs144_lab.Sender
use cs144_lab.Sender.{Outstanding}
use cs144_lab.Connection.{TcpConnection, tick}

-- The connection after so many ticks, each as long as the timeout at that moment.
pub time_out : ℕ → TcpConnection → TcpConnection
time_out zero c = c
time_out (suc n) c = let c' = time_out n c in tick c' c'.sender.retransmission_timeout

-- An active connection that waits for the acknowledgment of `o`, with `k` timeouts behind it, the
-- first of which came after `timeout`.
pub record Waits (timeout k : ℕ) (o : Outstanding) (rest : List Outstanding) (c : TcpConnection)
    : Type 0 where
  pub active : c.active ≡ true
  pub outstanding : c.sender.segments_outgoing ≡ o ∷ rest
  pub open_window : 0 < c.sender.win_size
  pub in_flight : 0 < c.sender.outgoing_bytes
  pub timer : c.sender.retransmission_timecount ≡ 0
  pub backed_off : c.sender.retransmission_timeout ≡ timeout * 2 ^ k
  pub counted : c.sender.consecutive_retransmissions ≡ k
