-- ===== src/Reassembler/Chunks.antt =====
-- The list of unassembled strings against the stream `S` that they are cut from.
use cs144_lab.Base.{
  Bool, List, [], ap, arith, false, inl, inr, leb, length, ltb, max, min, min_left, min_right,
  slice, ulong_max, ℕ, ≤-cases, ◌&&◌, ◌+◌, ◌<◌, ◌||◌, ◌∷◌, ◌≡◌, ◌≤◌, ◌⊎◌,
}
use cs144_lab.Reassembler.{Chunk}

-- Whether `lo ≤ i < hi`.
unfoldable pub within : ℕ → ℕ → ℕ → Bool
within lo hi i = leb lo i && ltb i hi

pub within_empty : (lo hi i : ℕ) → hi ≤ lo → within lo hi i ≡ false
unfolding within
within_empty lo hi i h = ground arith

pub within_past : (lo hi i : ℕ) → hi ≤ i → within lo hi i ≡ false
unfolding within
within_past lo hi i h = ground arith

-- Two ranges that meet make one.
pub within_join :
    (lo mid hi i : ℕ) → lo ≤ mid → mid ≤ hi → (within lo mid i || within mid hi i) ≡ within lo hi i
unfolding within
within_join lo mid hi i h k = ground arith

-- A chunk from `s` to `t` lies in or beyond the new range from `p` to `e`: the piece before it, the
-- chunk, and what is covered beyond it make up the old cover and the new range.
pub cover_place :
    (p s t e i : ℕ) (covered : Bool)
    → p ≤ s
    → s ≤ t
    → p ≤ e
    → (within p (min s e) i || (within s t i || (covered || within t e i)))
      ≡ ((within s t i || covered) || within p e i)
cover_place p s t e i covered h k m = elim (≤-cases e s) [
  | inl below ↦ ground (arith, within_empty t e i, ap (λ b. within p b i) (min_right s e below))
  | inr above ↦ elim (≤-cases t e) [
    | inl inside ↦ ground (
      arith,
      ap (λ b. within p b i) (min_left s e above),
      within_join p s e i,
      within_join s t e i,
    )
    | inr over ↦ ground (
      arith,
      ap (λ b. within p b i) (min_left s e above),
      within_join p s e i,
      within_join s e t i,
      within_empty t e i,
    )
  ]
]

-- A chunk that begins before the new range covers some of it or none.
pub cover_skip :
    (s t index e i : ℕ) (covered : Bool)
    → s < index
    → (within s t i || (covered || within (max t index) e i))
      ≡ ((within s t i || covered) || within index e i)
unfolding within
cover_skip s t index e i covered h = ground arith

-- A new range counts only from the end `w` of what is before it.
pub cover_beyond :
    (w a e i : ℕ) (covered : Bool)
    → ((within 0 w i || covered) || within (max a w) e i)
      ≡ ((within 0 w i || covered) || within a e i)
unfolding within
cover_beyond w a e i covered = ground arith

pub within-max : (lo hi i : ℕ) → within lo (max lo hi) i ≡ within lo hi i
unfolding within
within-max lo hi i = ground arith

-- A range that lies in what is before `w` adds nothing.
pub cover_inside :
    (w a e i : ℕ) (covered : Bool)
    → e ≤ w
    → (within 0 w i || covered) ≡ ((within 0 w i || covered) || within a e i)
unfolding within
cover_inside w a e i covered h = ground arith

-- Whether the byte at position `i` is stored.
abbrev pub covers : List Chunk → ℕ → Bool
covers [] i = false
covers (c ∷ rest) i = within c.start (c.start + length c.bytes) i || covers rest i

-- How many bytes are stored.
abbrev pub total : List Chunk → ℕ
total [] = 0
total (c ∷ rest) = length c.bytes + total rest

module _ (S : ℕ → ℕ) where
  -- In the range from `lo` to `hi`, in order, without overlap, none empty, each the bytes of `S` at
  -- its place; then the sentinel.
  abbrev pub AreChunks : ℕ → ℕ → List Chunk → Type 0
  AreChunks lo hi [] = ⊥
  AreChunks lo hi (c ∷ rest) =
      ((c.start ≡ ulong_max) × (c.bytes ≡ []) × (rest ≡ []))
      ⊎ ((lo ≤ c.start)
          × (0 < length c.bytes)
          × (c.start + length c.bytes ≤ hi)
          × (c.bytes ≡ slice S c.start (length c.bytes))
          × AreChunks (c.start + length c.bytes) hi rest)

  pub AreChunks-mono :
      (lo lo' hi hi' : ℕ) (l : List Chunk)
      → lo' ≤ lo
      → hi ≤ hi'
      → AreChunks lo hi l
      → AreChunks lo' hi' l
  AreChunks-mono lo lo' hi hi' [] p q h = h
  AreChunks-mono lo lo' hi hi' (c ∷ rest) p q (inl h) = inl h
  AreChunks-mono lo lo' hi hi' (c ∷ rest) p q (inr h) = inr (
    omega arith,
    h.1,
    omega arith,
    h.3,
    AreChunks-mono (c.start + length c.bytes) (c.start + length c.bytes) hi hi' rest (omega arith) q
        h.4,
  )

  pub total-le : (lo hi : ℕ) (l : List Chunk) → lo ≤ hi → AreChunks lo hi l → total l + lo ≤ hi
  total-le lo hi [] h a = absurd a
  total-le lo hi (c ∷ []) h (inl a) = ground arith
  total-le lo hi (c ∷ d ∷ rest) h (inl a) = cc (a.2)
  total-le lo hi (c ∷ rest) h (inr a) =
      omega (arith, total-le (c.start + length c.bytes) hi rest a.2 a.4)

  -- No chunk covers a position in front of them all.
  pub covers_below :
      (lo hi i : ℕ) (l : List Chunk)
      → i < lo
      → i < ulong_max
      → AreChunks lo hi l
      → covers l i ≡ false
  unfolding within
  covers_below lo hi i [] h k a = absurd a
  covers_below lo hi i (c ∷ []) h k (inl a) = ground arith
  covers_below lo hi i (c ∷ d ∷ rest) h k (inl a) = cc (a.2)
  covers_below lo hi i (c ∷ rest) h k (inr a) =
      ground (arith, covers_below (c.start + length c.bytes) hi i rest (omega arith) k a.4)

  -- Chunks beyond the end of the stream hold nothing.
  pub total_beyond : (lo hi : ℕ) (l : List Chunk) → hi ≤ lo → AreChunks lo hi l → total l ≡ 0
  total_beyond lo hi [] h a = absurd a
  total_beyond lo hi (c ∷ []) h (inl a) = ground arith
  total_beyond lo hi (c ∷ d ∷ rest) h (inl a) = cc (a.2)
  total_beyond lo hi (c ∷ rest) h (inr a) = absurd (omega arith)
