-- ===== src/Reassembler/Insert.antt =====
-- `push_unassembledString` adds the new bytes in the gaps between those that are stored.
use cs144_lab.Base.{
  List, [], ap, ap₂, arith, inl, inr, length, length-substr_of_slice, max, min, min_right, refl,
  slice, substr, substr_of_slice, sym, ulong_max, ℕ, ◌+◌, ◌-◌, ◌<◌, ◌||◌, ◌∙◌, ◌∷◌, ◌≡◌, ◌≤◌,
}
use cs144_lab.Reassembler.{Chunk, scan, keep, place, push_unassembled_string}
use cs144_lab.Reassembler.Chunks.{
  within, within_empty, cover_skip, cover_place, covers, total, AreChunks,
}

-- The string that goes in front of a chunk, at `pos`, is the piece of `S` from there up to the chunk
-- or to the end of the new bytes.
module _ (S : ℕ → ℕ) (bytes : List ℕ) (index : ℕ)
    (whole : bytes ≡ slice S index (length bytes)) where
  length-piece :
      (pos start : ℕ)
      → index ≤ pos
      → pos ≤ index + length bytes
      → length (substr bytes (pos - index) (start - pos))
        ≡ min (start - pos) (index + length bytes - pos)
  length-piece pos start h k =
      omega (arith, length-substr_of_slice S bytes index (pos - index) (start - pos) whole)

  piece :
      (pos start : ℕ)
      → index ≤ pos
      → substr bytes (pos - index) (start - pos)
        ≡ slice S pos (length (substr bytes (pos - index) (start - pos)))
  piece pos start h =
      substr_of_slice S bytes index (pos - index) (start - pos) whole
      ∙ ap₂ (slice S) (omega arith)
          (sym (length-substr_of_slice S bytes index (pos - index) (start - pos) whole))

  -- Sorted chunks stay sorted chunks.
  scan-AreChunks :
      (pos lo hi : ℕ) (l : List Chunk)
      → index + length bytes ≤ hi
      → hi < ulong_max
      → max pos index ≡ max lo index
      → AreChunks S lo hi l
      → AreChunks S lo hi (scan bytes index pos l).0
  unfolding scan keep place
  scan-AreChunks pos lo hi [] h k e a = a
  scan-AreChunks pos lo hi (c ∷ []) h k e (inl a) =
      ground (arith, piece (max pos index) c.start, length-piece (max pos index) c.start)
  scan-AreChunks pos lo hi (c ∷ d ∷ rest) h k e (inl a) = cc (a.2)
  scan-AreChunks pos lo hi (c ∷ rest) h k e (inr a) = ground (
    arith,
    scan-AreChunks (c.start + length c.bytes) (c.start + length c.bytes) hi rest h k refl a.4,
    piece (max pos index) c.start,
    length-piece (max pos index) c.start,
  )

  covers-scan_last :
      (pos i : ℕ) (c : Chunk)
      → index + length bytes < ulong_max
      → c.start ≡ ulong_max
      → c.bytes ≡ []
      → covers (scan bytes index pos (c ∷ [])).0 i ≡ within (max pos index) (index + length bytes) i
  unfolding scan keep place
  covers-scan_last pos i c h s b = ground (
    arith,
    length-piece (max pos index) c.start,
    min_right c.start (index + length bytes),
    within_empty (max pos index) (index + length bytes) i,
    within_empty c.start c.start i,
  )

  covers-scan_step :
      (pos i : ℕ) (c : Chunk) (rest : List Chunk)
      → index + length bytes < ulong_max
      → c.start + length c.bytes < ulong_max
      → max pos index ≤ max c.start index
      → covers (scan bytes index (c.start + length c.bytes) rest).0 i
        ≡ (covers rest i || within (max (c.start + length c.bytes) index) (index + length bytes) i)
      → covers (scan bytes index pos (c ∷ rest)).0 i
        ≡ (covers (c ∷ rest) i || within (max pos index) (index + length bytes) i)
  unfolding scan keep place
  covers-scan_step pos i c rest h k m ih = ground (
    arith,
    length-piece (max pos index) c.start,
    within_empty (max pos index) (index + length bytes) i,
    within_empty (max pos index) (max pos index) i,
    cover_skip c.start (c.start + length c.bytes) index (index + length bytes) i (covers rest i),
    cover_place (max pos index) c.start (c.start + length c.bytes) (index + length bytes) i
        (covers rest i),
  )

  -- Exactly the positions from `max pos index` to the end of the new bytes are added.
  covers-scan :
      (pos lo hi i : ℕ) (l : List Chunk)
      → index + length bytes ≤ hi
      → hi < ulong_max
      → max pos index ≡ max lo index
      → AreChunks S lo hi l
      → covers (scan bytes index pos l).0 i
        ≡ (covers l i || within (max pos index) (index + length bytes) i)
  covers-scan pos lo hi i [] h k e a = absurd a
  covers-scan pos lo hi i (c ∷ []) h k e (inl a) =
      ground (arith, covers-scan_last pos i c, within_empty c.start (c.start + length c.bytes) i)
  covers-scan pos lo hi i (c ∷ d ∷ rest) h k e (inl a) = cc (a.2)
  covers-scan pos lo hi i (c ∷ rest) h k e (inr a) =
      covers-scan_step pos i c rest (omega arith) (omega arith) (omega arith)
        (covers-scan (c.start + length c.bytes) (c.start + length c.bytes) hi i rest h k refl a.4)

  -- The count that is returned is the growth of the list, and at most the room of the new bytes.
  total-scan :
      (pos lo hi : ℕ) (l : List Chunk)
      → index + length bytes ≤ hi
      → hi < ulong_max
      → max pos index ≡ max lo index
      → AreChunks S lo hi l
      → (total (scan bytes index pos l).0 ≡ total l + (scan bytes index pos l).1)
        × ((scan bytes index pos l).1 ≤ index + length bytes - max pos index)
  unfolding scan keep place
  total-scan pos lo hi [] h k e a = absurd a
  total-scan pos lo hi (c ∷ []) h k e (inl a) = ground (arith, length-piece (max pos index) c.start)
  total-scan pos lo hi (c ∷ d ∷ rest) h k e (inl a) = cc (a.2)
  total-scan pos lo hi (c ∷ rest) h k e (inr a) = ground (
    arith,
    total-scan (c.start + length c.bytes) (c.start + length c.bytes) hi rest h k refl a.4,
    length-piece (max pos index) c.start,
  )

-- What `push_unassembledString` does to a list of chunks from `lo` to `hi`.
pub record Inserted (S : ℕ → ℕ) (lo hi : ℕ) (l : List Chunk) (bytes : List ℕ) (index : ℕ)
    (out : List Chunk × ℕ) : Type 0 where
  pub chunks : AreChunks S lo hi out.0
  pub counted : total out.0 ≡ total l + out.1
  pub few : out.1 ≤ length bytes

module _ (S : ℕ → ℕ) (lo hi : ℕ) (l : List Chunk) (bytes : List ℕ) (index : ℕ)
    (whole : bytes ≡ slice S index (length bytes)) (above : lo ≤ index)
    (below : index + length bytes ≤ hi) (small : hi < ulong_max) (a : AreChunks S lo hi l) where
  pub push-Inserted : Inserted S lo hi l bytes index (push_unassembled_string l bytes index)
  unfolding push_unassembled_string
  push-Inserted =
      let t = total-scan S bytes index whole index lo hi l below small (omega arith) a in
      record {
        chunks = scan-AreChunks S bytes index whole index lo hi l below small (omega arith) a;
        counted = t.0;
        few = omega arith;
      }

  -- Into a sorted list of disjoint chunks of the stream, all from `lo` to `hi`,
  -- `push_unassembledString` of a part of the stream within that range brings exactly the positions
  -- of that part, in addition to those that were covered.
  pub covers-push :
      (i : ℕ)
      → covers (push_unassembled_string l bytes index).0 i
        ≡ (covers l i || within index (index + length bytes) i)
  unfolding push_unassembled_string
  covers-push i =
      covers-scan S bytes index whole index lo hi i l below small (omega arith) a
      ∙ ap (λ m. covers l i || within m (index + length bytes) i) (omega arith)
