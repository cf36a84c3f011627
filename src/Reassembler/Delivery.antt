-- ===== src/Reassembler/Delivery.antt =====
-- `push_substring` on parts of one stream `S` of `N` bytes.
use cs144_lab.Base.{
  <-cases, Bool, List, [], add64, ap₂, arith, false, inl, inr, length, length-substr_of_slice, max,
  min, refl, slice, sub64, substr, substr_of_slice, sym, true, ℕ, ◌+◌, ◌-◌, ◌<◌, ◌||◌, ◌∙◌, ◌≡◌,
  ◌≤◌, ◌⊎◌,
}
use cs144_lab.ByteStream
use cs144_lab.ByteStream.{ByteStream}
use cs144_lab.Reassembler.{
  StreamReassembler, deliver, finish, accept, push_substring, first_unassembled, first_unacceptable,
}
use cs144_lab.Reassembler.Chunks.{
  within, within_empty, cover_beyond, cover_inside, within-max, covers,
}
use cs144_lab.Reassembler.Invariant.{
  IsValid, limit, has, deliver-IsValid, has-deliver, deliver_reader,
}

-- A substring with its place in the stream; `eof` only on one that reaches the end.
pub record IsPart (S : ℕ → ℕ) (N : ℕ) (bytes : List ℕ) (index : ℕ) (eof : Bool) : Type 0 where
  pub whole : bytes ≡ slice S index (length bytes)
  pub inside : index + length bytes ≤ N
  pub last : eof ≡ true → index + length bytes ≡ N

-- When the end is known and reached, the output is ended.
abbrev pub IsEnded : StreamReassembler → Type 0
IsEnded r = r.pos_eof ≡ r.output.totin → r.output.is_input_end ≡ true

-- What a call of `push_substring` comes to: the state stays valid, and the bytes that it takes in
-- are those of the substring that lie before the end of the window.
pub record Pushed (S : ℕ → ℕ) (N : ℕ) (r : StreamReassembler) (bytes : List ℕ) (index : ℕ)
    (r' : StreamReassembler) : Type 0 where
  pub valid : IsValid S N r'
  pub ended : IsEnded r'
  pub same_reader : (r'.output.totout ≡ r.output.totout) × (r'.capacity ≡ r.capacity)
  pub taken :
      (i : ℕ)
      → has r' i
        ≡ (has r i || within index (min (index + length bytes) (r.output.totout + r.capacity)) i)

module _ (S : ℕ → ℕ) (N : ℕ) where
  finish-IsValid :
      (r : StreamReassembler) → IsValid S N r → IsValid S N (finish r) × IsEnded (finish r)
  unfolding finish ByteStream.end_input
  finish-IsValid r v = ground (arith, v.ended_complete)

  finish_reader :
      (r : StreamReassembler)
      → ((finish r).output.totout ≡ r.output.totout) × ((finish r).capacity ≡ r.capacity)
  unfolding finish ByteStream.end_input
  finish_reader r = ground arith

  has-finish : (r : StreamReassembler) (i : ℕ) → has (finish r) i ≡ has r i
  unfolding finish ByteStream.end_input
  has-finish r i = ground arith

  module _ (r : StreamReassembler) (bytes : List ℕ) (index : ℕ) (v : IsValid S N r)
      (whole : bytes ≡ slice S index (length bytes)) (inside : index + length bytes ≤ N) where
    abbrev start : ℕ
    start = max index r.output.totin

    abbrev new_bytes : List ℕ
    new_bytes = substr bytes (start - index) (sub64 (first_unacceptable r) start)

    -- Neither the sum nor the difference that `push_substring` computes wraps.
    first_unassembled_lem : first_unassembled r ≡ r.output.totin
    first_unassembled_lem = omega (arith, v.stream)

    first_unacceptable_lem :
        index < first_unacceptable r
        → (min (index + length bytes) (first_unacceptable r)
            ≡ min (index + length bytes) (r.output.totout + r.capacity))
          × (r.output.totin ≤ first_unacceptable r)
          × (sub64 (first_unacceptable r) start ≡ first_unacceptable r - start)
    first_unacceptable_lem h = omega (arith, v)

    new_bytes-whole : new_bytes ≡ slice S start (length new_bytes)
    new_bytes-whole =
        let cut =
          substr_of_slice S bytes index (start - index) (sub64 (first_unacceptable r) start)
            whole in
        let n =
          length-substr_of_slice S bytes index (start - index) (sub64 (first_unacceptable r) start)
            whole in
        cut ∙ ap₂ (slice S) (omega arith) (sym n)

    end-new_bytes :
        index < first_unacceptable r
        → r.output.totin ≤ index + length bytes
        → start + length new_bytes
          ≡ max start (min (index + length bytes) (r.output.totout + r.capacity))
    end-new_bytes h k = omega (
      arith,
      first_unacceptable_lem h,
      length-substr_of_slice S bytes index (start - index) (sub64 (first_unacceptable r) start)
          whole,
    )

    stored : StreamReassembler
    stored = deliver r new_bytes start r.output.totin

    accept-stored :
        0 < length bytes
        → r.output.totin ≤ index + length bytes
        → index < first_unacceptable r
        → accept r bytes index ≡ finish stored
    unfolding accept stored
    accept-stored ne reach fits = ground (arith, first_unassembled_lem, v.room, v.eof_known)

    stored-Pushed :
        r.output.totin ≤ index + length bytes
        → index < first_unacceptable r
        → Pushed S N r bytes index (finish stored)
    unfolding stored
    stored-Pushed reach fits =
        let below : start + length new_bytes ≤ limit S N r =
          omega (arith, end-new_bytes fits reach) in
        let f =
          finish-IsValid stored
            (deliver-IsValid S N r new_bytes start v new_bytes-whole (omega arith) below) in
        record {
          valid = f.0;
          ended = f.1;
          same_reader = same;
          taken = λ i.
              has-finish stored i
              ∙ has-deliver S N r new_bytes start v new_bytes-whole (omega arith) below i
              ∙ (ground (
                arith,
                end-new_bytes fits reach,
                within-max start (min (index + length bytes) (r.output.totout + r.capacity)) i,
                cover_beyond r.output.totin index
                    (min (index + length bytes) (r.output.totout + r.capacity)) i
                    (covers r.unassembled_buffer i),
              ));
        }
      where
        same :
            ((finish stored).output.totout ≡ r.output.totout)
            × ((finish stored).capacity ≡ r.capacity)
        same = ground (arith, finish_reader stored, deliver_reader r new_bytes start r.output.totin)

    -- Nothing of the substring is new, or nothing of it fits.
    ignored-Pushed :
        IsEnded r ⊎ (index + length bytes ≡ N)
        → 0 < length bytes
        → (index + length bytes < r.output.totin) ⊎ (first_unacceptable r ≤ index)
        → Pushed S N r bytes index r
    ignored-Pushed e ne out = record {
      valid = v;
      ended = λ same. elim e [ inl k ↦ k same | inr all ↦ absurd (omega (arith, v)) ];
      same_reader = (refl, refl);
      taken = λ i. ground (
        arith,
        cover_inside r.output.totin index
            (min (index + length bytes) (r.output.totout + r.capacity)) i
            (covers r.unassembled_buffer i),
        within_empty index (min (index + length bytes) (r.output.totout + r.capacity)) i,
        nothing_fits,
      );
    }
      where
        nothing_fits :
            first_unacceptable r ≤ index
            → min (index + length bytes) (r.output.totout + r.capacity) ≤ index
        nothing_fits h = omega (arith, v)

    accept-ignored :
        0 < length bytes
        → (index + length bytes < r.output.totin) ⊎ (first_unacceptable r ≤ index)
        → accept r bytes index ≡ r
    unfolding accept
    accept-ignored ne out = ground (arith, first_unassembled_lem, v.room)

    accept-empty : length bytes ≡ 0 → accept r bytes index ≡ finish r
    unfolding accept
    accept-empty e = ground arith

    empty-Pushed : length bytes ≡ 0 → Pushed S N r bytes index (finish r)
    empty-Pushed e =
        let f = finish-IsValid r v in
        record {
          valid = f.0;
          ended = f.1;
          same_reader = finish_reader r;
          taken = λ i.
              has-finish r i
              ∙ ground (
                arith,
                within_empty index (min (index + length bytes) (r.output.totout + r.capacity)) i,
              );
        }

    accept-Pushed :
        IsEnded r ⊎ (index + length bytes ≡ N) → Pushed S N r bytes index (accept r bytes index)
    accept-Pushed e = elim (<-cases 0 (length bytes)) [
      | inr none_given ↦ rw (accept-empty (omega arith)) (empty-Pushed (omega arith))
      | inl ne ↦ elim (<-cases (index + length bytes) r.output.totin) [
        | inl old ↦ rw (accept-ignored ne (inl old)) (ignored-Pushed e ne (inl old))
        | inr reach ↦ elim (<-cases index (first_unacceptable r)) [
          | inr beyond ↦ rw (accept-ignored ne (inr beyond)) (ignored-Pushed e ne (inr beyond))
          | inl fits ↦ rw (accept-stored ne reach fits) (stored-Pushed reach fits)
        ]
      ]
    ]

  -- On a valid reassembler whose output is ended once the announced end is reached,
  -- `push_substring` of a part of the stream (marked `eof` only when it reaches the end) leaves a
  -- valid one of which the same holds; the bytes read and the capacity stay; and the positions that
  -- are now delivered or waiting are those from before together with the positions of the part that
  -- lie before the end of the window, which is `capacity` past the first unread byte.
  pub push_substring-Pushed :
      (r : StreamReassembler) (bytes : List ℕ) (index : ℕ) (eof : Bool)
      → IsValid S N r
      → IsEnded r
      → IsPart S N bytes index eof
      → Pushed S N r bytes index (push_substring r bytes index eof)
  unfolding push_substring
  push_substring-Pushed r bytes index true v e p =
      let marked : StreamReassembler = record r { pos_eof = add64 index (length bytes) } in
      let q =
        accept-Pushed marked bytes index
          (record {
            stream = v.stream;
            same_capacity = v.same_capacity;
            buffered = v.buffered;
            written-le = v.written-le;
            chunks = v.chunks;
            counted = v.counted;
            eof_known = inr (omega (arith, v.room, p.last refl));
            room = v.room;
            ended_complete = v.ended_complete;
          })
          p.whole p.inside (inr (p.last refl)) in
      record { valid = q.valid; ended = q.ended; same_reader = q.same_reader; taken = q.taken }
  push_substring-Pushed r bytes index false v e p =
      accept-Pushed r bytes index v p.whole p.inside (inl e)

-- An empty substring without the end mark has no place.
pub push_substring_nil :
    (r : StreamReassembler) (index index' : ℕ)
    → push_substring r [] index false ≡ push_substring r [] index' false
unfolding push_substring accept
push_substring_nil r index index' = refl
