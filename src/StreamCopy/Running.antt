-- ===== src/StreamCopy/Running.antt =====
-- The copy program does not throw, and loses, repeats and reorders no byte of either way.
use cs144_lab.Base.{
  Bool-cases, List, [], arith, inl, inr, length, refl, some, subst, sym, ℕ, ◌∙◌, ◌∷◌, ◌≡◌, ◌≤◌,
}
use cs144_lab.EventLoop.{is_exit, PollFd, Rule}
use cs144_lab.EventLoop.Waiting.{AllServe, IsSoundAnswer, Serves, wait_next_event_returns}
use cs144_lab.FileDescriptor
use cs144_lab.FileDescriptor.{FileDescriptor}
use cs144_lab.FileDescriptor.Writing.{Accepts}
use cs144_lab.StreamCopy.{Pipe, cancel, new}
use cs144_lab.StreamCopy.Conservation.{
  IsSound, new-IsSound, fill-IsSound, drain-IsSound, cancel-IsSound,
}
use cs144_lab.StreamCopy.Serving.{fill_serves, drain_serves, shut_wr-CountsOn, close-CountsOn}
use cs144_lab.StreamCopy.Loop.{
  Kernel, Copy, with_outbound, with_inbound, asked, descriptor, reads_input, writes_socket,
  reads_socket, writes_output, rules, Round, CopyEnd, returned, waiting, thrown, copy_loop,
  bidirectional_stream_copy,
}

-- What the kernel promises where `I` holds, which its reads keep: no more than it was asked for, and
-- something of what it is offered.
pub record Answers {E : Type 0} (kernel : Kernel E) (I : E → Type 0) : Type 0 where
  pub input :
      (e : E) (limit : ℕ)
      → I e
      → (e' : E) × (bytes : List ℕ) × (kernel.input_read e limit ≡ (e', some bytes))
        × (length bytes ≤ limit)
        × I e'
  pub socket :
      (e : E) (limit : ℕ)
      → I e
      → (e' : E) × (bytes : List ℕ) × (kernel.socket_read e limit ≡ (e', some bytes))
        × (length bytes ≤ limit)
        × I e'
  pub socket_takes : (e : E) → I e → Accepts (kernel.socket_write e)
  pub output_takes : (e : E) → I e → Accepts (kernel.output_write e)

-- Of each way, what was read is what was written and then what the stream still holds, and that fits.
pub record AreConserved {E : Type 0} (w : Copy E) : Type 0 where
  pub outbound : IsSound w.outbound
  pub inbound : IsSound w.inbound

record Holds {E : Type 0} (I : E → Type 0) (w : Copy E) : Type 0 where
  conserved : AreConserved w
  one_socket : w.outbound.to ≡ w.inbound.from
  outside : I w.outside

-- The program has not been left by an exception, and nothing is lost so far.
abbrev pub IsConserving : {E : Type 0} → CopyEnd E → Type 0
IsConserving (returned w) = AreConserved w
IsConserving (waiting w) = AreConserved w
IsConserving thrown = ⊥

-- What happens outside keeps what the kernel relies on, and `poll` answers without an error.
abbrev pub AreSoundRounds : {E : Type 0} → (E → Type 0) → List (Round E) → Type 0
AreSoundRounds I [] = Unit {0}
AreSoundRounds I (round ∷ rounds) =
    ((w : Copy _) → I w.outside → I (round.elapse w))
    × ((w : Copy _) (ps : List PollFd) → IsSoundAnswer ps (round.poll w ps))
    × AreSoundRounds I rounds

module _ {E : Type 0} (kernel : Kernel E) (I : E → Type 0) (a : Answers kernel I) where
  -- Cancellations.
  cancel_outbound : (w : Copy E) → Holds I w → Holds I (record w { outbound = cancel w.outbound })
  unfolding cancel
  cancel_outbound w h = record {
    conserved = record {
      outbound = cancel-IsSound w.outbound h.conserved.outbound;
      inbound = h.conserved.inbound;
    };
    one_socket = h.one_socket;
    outside = h.outside;
  }

  cancel_inbound : (w : Copy E) → Holds I w → Holds I (record w { inbound = cancel w.inbound })
  unfolding cancel
  cancel_inbound w h = record {
    conserved = record {
      outbound = h.conserved.outbound;
      inbound = cancel-IsSound w.inbound h.conserved.inbound;
    };
    one_socket = h.one_socket;
    outside = h.outside;
  }

  reads_input-Serves : Serves descriptor (Holds I) (reads_input kernel)
  unfolding reads_input
  reads_input-Serves = record {
    serves = λ w h.
        let (e, bytes, given, within, i) = a.input w.outside (asked w.outbound) h.outside in
        let (p, filled, moved, same) = fill_serves w.outbound bytes within in
        (
          record w { outbound = p; outside = e },
          ground (arith, given, filled),
          rw moved refl,
          record {
            conserved = record {
              outbound = fill-IsSound w.outbound p (some bytes) h.conserved.outbound filled;
              inbound = h.conserved.inbound;
            };
            one_socket = same ∙ h.one_socket;
            outside = i;
          },
        );
    cancels = cancel_outbound;
  }

  -- What is kept when one of the two ways has changed.
  with_outbound-Holds :
      (w : Copy E) (p : Pipe) → Holds I w → IsSound p → Holds I (with_outbound p w)
  with_outbound-Holds w p h v = record {
    conserved = record { outbound = v; inbound = ground (arith, h.conserved.inbound) };
    one_socket = refl;
    outside = h.outside;
  }

  with_inbound-Holds :
      (w : Copy E) (p : Pipe) (e : E)
      → Holds I w
      → IsSound p
      → I e
      → Holds I (with_inbound p (record w { outside = e }))
  with_inbound-Holds w p e h v i = record {
    conserved = record { outbound = ground (arith, h.conserved.outbound); inbound = v };
    one_socket = refl;
    outside = i;
  }

  writes_socket-Serves : Serves descriptor (Holds I) (writes_socket kernel)
  unfolding writes_socket
  writes_socket-Serves = record {
    serves = λ w h.
        let (p, drained, moved, same) =
          drain_serves (λ f. FileDescriptor.shutdown f FileDescriptor.shut_wr) w.outbound
            (kernel.socket_write w.outside) shut_wr-CountsOn (a.socket_takes w.outside h.outside) in
        (
          with_outbound p w,
          ground (arith, drained),
          rw moved refl,
          with_outbound-Holds w p h (
              drain-IsSound (λ f. FileDescriptor.shutdown f FileDescriptor.shut_wr) w.outbound p
                (kernel.socket_write w.outside) h.conserved.outbound drained),
        );
    cancels = cancel_outbound;
  }

  reads_socket-Serves : Serves descriptor (Holds I) (reads_socket kernel)
  unfolding reads_socket
  reads_socket-Serves = record {
    serves = λ w h.
        let (e, bytes, given, within, i) = a.socket w.outside (asked w.inbound) h.outside in
        let (p, filled, moved, same) = fill_serves w.inbound bytes within in
        (
          with_inbound p (record w { outside = e }),
          ground (arith, given, filled),
          rw (h.one_socket, moved) refl,
          with_inbound-Holds w p e h
              (fill-IsSound w.inbound p (some bytes) h.conserved.inbound filled) i,
        );
    cancels = cancel_inbound;
  }

  writes_output-Serves : Serves descriptor (Holds I) (writes_output kernel)
  unfolding writes_output
  writes_output-Serves = record {
    serves = λ w h.
        let (p, drained, moved, same) =
          drain_serves FileDescriptor.close w.inbound (kernel.output_write w.outside) close-CountsOn
            (a.output_takes w.outside h.outside) in
        (
          record w { inbound = p },
          ground (arith, drained),
          rw moved refl,
          record {
            conserved = record {
              outbound = h.conserved.outbound;
              inbound =
                  drain-IsSound FileDescriptor.close w.inbound p (kernel.output_write w.outside)
                    h.conserved.inbound drained;
            };
            one_socket = h.one_socket ∙ sym same;
            outside = h.outside;
          },
        );
    cancels = cancel_inbound;
  }

  conserving : (c c' : CopyEnd E) → c ≡ c' → IsConserving c' → IsConserving c
  conserving c c' e h = subst IsConserving (sym e) h

  copy_loop-IsConserving :
      (rounds : List (Round E)) (rs : List (Rule (Copy E))) (w : Copy E)
      → AreSoundRounds I rounds
      → AllServe descriptor (Holds I) rs
      → Holds I w
      → IsConserving (copy_loop rounds rs w)
  unfolding copy_loop
  copy_loop-IsConserving [] rs w sound s h = h.conserved
  copy_loop-IsConserving (round ∷ rounds) rs w sound s h =
      let w₀ : Copy E = record w { outside = round.elapse w } in
      let h₀ : Holds I w₀ = record {
        conserved = record { outbound = h.conserved.outbound; inbound = h.conserved.inbound };
        one_socket = h.one_socket;
        outside = sound.0 w h.outside;
      } in
      let (result, rs', w', waited, s', h') =
        wait_next_event_returns descriptor (Holds I) round.poll rs w₀ sound.1 s h₀ in
      let again = copy_loop-IsConserving rounds rs' w' sound.2 s' h' in
      elim (Bool-cases (is_exit result)) [
        | inl stops ↦
            conserving (copy_loop (round ∷ rounds) rs w) (returned w')
              (ground (arith, waited, stops)) h'.conserved
        | inr goes_on ↦
            conserving (copy_loop (round ∷ rounds) rs w) (copy_loop rounds rs' w')
              (ground (arith, waited, goes_on)) again
      ]

  -- On a kernel that keeps its contract (reads return no more than was asked for, and of what they
  -- are offered the socket and the standard output take some), and for rounds in which `poll`
  -- answers with bits for each descriptor and no error among them, or without bits, the copy
  -- program is never left by an exception, and at each moment, of either way, the bytes read are
  -- the bytes written followed by those in its stream, which fit its capacity.
  pub bidirectional_stream_copy-IsConserving :
      (rounds : List (Round E)) (input output socket : FileDescriptor) (e : E)
      → AreSoundRounds I rounds
      → I e
      → IsConserving (bidirectional_stream_copy kernel rounds input output socket e)
  unfolding bidirectional_stream_copy new
  bidirectional_stream_copy-IsConserving rounds input output socket e sound i =
      copy_loop-IsConserving rounds (rules kernel) _ sound
        (
          reads_input-Serves,
          (writes_socket-Serves, (reads_socket-Serves, (writes_output-Serves, tt))),
        )
        (record {
          conserved = record {
            outbound = new-IsSound input socket;
            inbound = new-IsSound socket output;
          };
          one_socket = refl;
          outside = i;
        })
