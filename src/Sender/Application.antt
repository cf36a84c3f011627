-- ===== src/Sender/Application.antt =====
-- What the application does to a sender: it writes the next bytes of its stream, and ends it.
use cs144_lab.Base.{
  List, Option, ap, ap₂, arith, length, length-take, min, refl, slice, slice_zero, sym, take,
  take-slice, ℕ, ◌+◌, ◌-◌, ◌<◌, ◌^◌, ◌∙◌, ◌≡◌, ◌≤◌,
}
use cs144_lab.ByteStream
use cs144_lab.ByteStream.{ByteStream}
use cs144_lab.ByteStream.Laws.{write_lem, write-IsValid}
use cs144_lab.Reassembler.Extract.{slices_meet}
use cs144_lab.Sender.{TcpSender, new}
use cs144_lab.Sender.Invariant.{IsValid}

module _ (S : ℕ → ℕ) (N isn : ℕ) (s : TcpSender) (v : IsValid S N isn s) where
  module _ (bytes : List ℕ) (next : bytes ≡ slice S s.stream.totin (length bytes))
      (inside : s.stream.totin + length bytes ≤ N) where
    abbrev room : ℕ
    room = min (length bytes) (s.stream.capacity - length s.stream.buff)

    small : s.stream.totin + length bytes < 2 ^ 64
    small = omega (arith, v.small)

    taken :
        take room bytes
        ≡ slice S (s.stream.totout + length s.stream.buff) (length (take room bytes))
    taken =
        ap (take room) next
        ∙ take-slice S room s.stream.totin (length bytes)
        ∙ ap₂ (slice S) v.stream.counted (sym (length-take room bytes))

    -- Writing the next bytes of the stream keeps the state.
    pub write-IsValid_sender :
        IsValid S N isn (record s { stream = (ByteStream.write s.stream bytes).0 })
    write-IsValid_sender = record {
      stream = write-IsValid s.stream bytes v.stream small;
      buffered =
          rw (write_lem s.stream bytes v.stream small)
            (slices_meet S s.stream.totout s.stream.buff (take room bytes) v.buffered taken);
      written-le = rw (write_lem s.stream bytes v.stream small) (omega arith);
      ended_complete =
          rw (write_lem s.stream bytes v.stream small) (λ e. omega (arith, v.ended_complete e));
      same_isn = v.same_isn;
      numbered = rw (write_lem s.stream bytes v.stream small) v.numbered;
      unsent = rw (write_lem s.stream bytes v.stream small) v.unsent;
      finished = rw (write_lem s.stream bytes v.stream small) v.finished;
      in_flight = v.in_flight;
      tiles = v.tiles;
      genuine = v.genuine;
      small = v.small;
      isn_small = v.isn_small;
    }

  -- Ending the stream behind its last byte keeps the state.
  pub end_input-IsValid :
      s.stream.totin ≡ N → IsValid S N isn (record s { stream = ByteStream.end_input s.stream })
  unfolding ByteStream.end_input
  end_input-IsValid e = record {
    stream = omega (arith, v.stream);
    buffered = v.buffered;
    written-le = v.written-le;
    ended_complete = λ _. e;
    same_isn = v.same_isn;
    numbered = v.numbered;
    unsent = v.unsent;
    finished = v.finished;
    in_flight = v.in_flight;
    tiles = v.tiles;
    genuine = v.genuine;
    small = v.small;
    isn_small = v.isn_small;
  }

-- A new sender is valid for every stream that leaves room in its counters.
pub new-IsValid :
    (S : ℕ → ℕ) (N isn capacity retx_timeout : ℕ) (fixed_isn : Option ℕ) (random : ℕ)
    → (new capacity retx_timeout fixed_isn random).isn ≡ isn
    → capacity < 2 ^ 64
    → N + 1 < 2 ^ 32
    → isn < 2 ^ 32
    → IsValid S N isn (new capacity retx_timeout fixed_isn random)
unfolding new ByteStream.new
new-IsValid S N isn capacity retx_timeout fixed_isn random e c n i = record {
  stream = omega arith;
  buffered = sym (slice_zero S 0);
  written-le = omega arith;
  ended_complete = λ h. cc;
  same_isn = e;
  numbered = refl;
  unsent = λ h. (refl, refl);
  finished = λ h. cc;
  in_flight = omega arith;
  tiles = refl;
  genuine = tt;
  small = omega arith;
  isn_small = i;
}
