-- ===== src/Receiver/Reading.antt =====
-- The application reads from the output of a receiver.
use cs144_lab.Base.{ap, length, length-slice, refl, slice, sym, ℕ, ◌+◌, ◌∙◌, ◌≡◌}
use cs144_lab.ByteStream
use cs144_lab.Reassembler.History.{step, read-Holds, read_out, totout-read, size}
use cs144_lab.Receiver.{TcpReceiver}
use cs144_lab.Receiver.Genuine.{Tracks, Tracks-after}

-- The receiver after a read.
abbrev pub reader : TcpReceiver → ℕ → TcpReceiver
reader r len = record r {
  reassembler = record r.reassembler { output = (ByteStream.read r.reassembler.output len).0 };
}

module _ (S : ℕ → ℕ) (N isn : ℕ) (r : TcpReceiver) (len : ℕ) (t : Tracks S N isn r) where
  pub read-Tracks : Tracks S N isn (reader r len)
  read-Tracks =
      Tracks-after S N isn r (reader r len) t
        (unfold step in read-Holds S N r.reassembler len t.holds) refl refl t.knows_isn

  pub read_moves :
      (reader r len).reassembler.output.totout
      ≡ r.reassembler.output.totout + length (ByteStream.read r.reassembler.output len).1
  read_moves = unfold step in totout-read S N r.reassembler len t.holds

  -- What is read is the next stretch of the stream.
  pub read_stretch :
      let out = (ByteStream.read r.reassembler.output len).1 in
      out ≡ slice S r.reassembler.output.totout (length out)
  read_stretch =
      let o = read_out S N r.reassembler len t.holds in
      o
      ∙ ap (slice S r.reassembler.output.totout) (
          sym (
            ap length o
            ∙ length-slice S r.reassembler.output.totout (size S N r.reassembler len t.holds)))
