-- ===== src/Examples.antt =====
-- Runs of the code at concrete inputs, and its theorems applied there: a stream of two bytes and one
-- of five.
use cs144_lab.Base.{ℕ, ◌+◌}
mod Packets
mod Sockets
mod Running
mod Options
mod Copy
mod Formats
mod Duplex
mod Connection
mod Datagrams
mod Sender
mod Receiver
mod Reassembler

-- The byte at each position of the stream.
abbrev pub sample : ℕ → ℕ
sample i = 10 + i
