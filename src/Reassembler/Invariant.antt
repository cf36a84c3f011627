-- ===== src/Reassembler/Invariant.antt =====
-- The state of a reassembler that is fed parts of one stream `S` of `N` bytes.
use cs144_lab.Base.{
  Bool, List, ap, arith, length, length-append, min, refl, slice, suc, take, take_all, true,
  ulong_max, ℕ, ◌++◌, ◌+◌, ◌<◌, ◌||◌, ◌∙◌, ◌≡◌, ◌≤◌, ◌⊎◌,
}
use cs144_lab.ByteStream
use cs144_lab.ByteStream.{ByteStream}
use cs144_lab.ByteStream.Laws.{write_lem}
use cs144_lab.Reassembler.{
  StreamReassembler, Chunk, deliver, push_unassembled_string, pop_unassembled_string,
}
use cs144_lab.Reassembler.Chunks.{
  within, within_join, covers, total, AreChunks, AreChunks-mono, total-le,
}
use cs144_lab.Reassembler.Insert.{Inserted, push-Inserted, covers-push}
use cs144_lab.Reassembler.Extract.{Extracted, pop-Extracted, covers-pop, slices_meet}

-- Whether the byte at position `i` has been taken in: it was delivered, or it waits.
abbrev pub has : StreamReassembler → ℕ → Bool
has r i = within 0 r.output.totin i || covers r.unassembled_buffer i

-- `push_substring` writes; what was read, and the capacity, stay.
pub deliver_reader :
    (r : StreamReassembler) (bytes : List ℕ) (start first : ℕ)
    → let r' = deliver r bytes start first in
      (r'.output.totout ≡ r.output.totout) × (r'.capacity ≡ r.capacity)
unfolding deliver ByteStream.write
deliver_reader r bytes start first = (refl, refl)

module _ (S : ℕ → ℕ) (N : ℕ) where
  pub record IsValid (r : StreamReassembler) : Type 0 where
    pub stream : ByteStream.Laws.IsValid r.output
    pub same_capacity : r.output.capacity ≡ r.capacity
    pub buffered : r.output.buff ≡ slice S r.output.totout (length r.output.buff)
    pub written-le : r.output.totin ≤ N
    pub chunks :
        AreChunks S (suc r.output.totin) (min (r.output.totout + r.capacity) N) r.unassembled_buffer
    pub counted : r.unassembled_count ≡ total r.unassembled_buffer
    pub eof_known : (r.pos_eof ≡ ulong_max) ⊎ (r.pos_eof ≡ N)
    pub room : N + r.capacity < ulong_max
    pub ended_complete : r.output.is_input_end ≡ true → r.output.totin ≡ N

  abbrev pub limit : StreamReassembler → ℕ
  limit r = min (r.output.totout + r.capacity) N

  module _ (r : StreamReassembler) (bytes : List ℕ) (start : ℕ) (v : IsValid r)
      (whole : bytes ≡ slice S start (length bytes)) (above : r.output.totin ≤ start)
      (below : start + length bytes ≤ limit r) where
    abbrev pushed : List Chunk × ℕ
    pushed = push_unassembled_string r.unassembled_buffer bytes start

    abbrev popped : List ℕ × List Chunk
    popped = pop_unassembled_string pushed.0 r.output.totin

    lower : AreChunks S r.output.totin (limit r) r.unassembled_buffer
    lower =
        AreChunks-mono S (suc r.output.totin) r.output.totin (limit r) (limit r)
          r.unassembled_buffer (omega arith) (omega arith) v.chunks

    inserted : Inserted S r.output.totin (limit r) r.unassembled_buffer bytes start pushed
    inserted =
        push-Inserted S r.output.totin (limit r) r.unassembled_buffer bytes start whole above below
          (omega arith) lower

    extracted : Extracted S r.output.totin (limit r) pushed.0 popped
    extracted =
        pop-Extracted S r.output.totin (limit r) pushed.0 (omega arith) (omega arith)
          inserted.chunks

    -- The output takes all that is extracted.
    written : ByteStream.write r.output popped.0 ≡ (
      record r.output {
        totin = r.output.totin + length popped.0;
        buff = r.output.buff ++ popped.0;
      },
      length popped.0,
    )
    written =
        write_lem r.output popped.0 v.stream (omega (arith, extracted.within_reach))
        ∙ ap taken (omega (arith, extracted.within_reach))
        ∙ ap filled (take_all (length popped.0) popped.0 (omega arith))
      where
        taken : ℕ → ByteStream × ℕ
        taken n = (
          record r.output { totin = r.output.totin + n; buff = r.output.buff ++ take n popped.0 },
          n,
        )

        filled : List ℕ → ByteStream × ℕ
        filled t = (
          record r.output { totin = r.output.totin + length popped.0; buff = r.output.buff ++ t },
          length popped.0,
        )

    -- Storing new bytes of the stream keeps the state valid.
    pub deliver-IsValid : IsValid (deliver r bytes start r.output.totin)
    unfolding deliver
    deliver-IsValid = rw written (record {
      stream = omega (arith, extracted.within_reach, length-append r.output.buff popped.0);
      same_capacity = v.same_capacity;
      buffered =
          slices_meet S r.output.totout r.output.buff popped.0 v.buffered
            (extracted.stretch ∙ ap (λ k. slice S k (length popped.0)) v.stream.counted);
      written-le = omega (arith, extracted);
      chunks = extracted.rest_beyond;
      counted = omega (
        arith,
        extracted.counted,
        inserted.counted,
        total-le S r.output.totin (limit r) pushed.0 (omega arith) inserted.chunks,
      );
      eof_known = v.eof_known;
      room = v.room;
      ended_complete = λ e. omega (arith, extracted.within_reach, v.ended_complete e);
    })

    -- It takes in exactly those bytes.
    pub has-deliver :
        (i : ℕ)
        → has (deliver r bytes start r.output.totin) i
          ≡ (has r i || within start (start + length bytes) i)
    unfolding deliver
    has-deliver i = rw written (
        ground (
          arith,
          covers-pop S r.output.totin (limit r) i pushed.0 (omega arith) inserted.chunks,
          covers-push S r.output.totin (limit r) r.unassembled_buffer bytes start whole above below
              (omega arith) lower i,
          within_join 0 r.output.totin (r.output.totin + length popped.0) i,
        ))
