-- ===== src/Sender/Tiles.antt =====
-- The outstanding segments of a sender lie end to end in the space of absolute numbers.
use cs144_lab.Base.{List, [], arith, false, sym, ℕ, ◌+◌, ◌-◌, ◌<◌, ◌∙◌, ◌∷◌, ◌≡◌, ◌≤◌}
use cs144_lab.Segment.{TcpSegment, length_in_sequence_space}
use cs144_lab.Receiver.Genuine.{Carries}
use cs144_lab.Sender.{Outstanding, insert}

abbrev pub size_of : Outstanding → ℕ
size_of o = length_in_sequence_space o.segment

module _ (S : ℕ → ℕ) (N isn : ℕ) where
  -- A segment that was sent at the absolute number `key`.
  pub record IsSent (key : ℕ) (seg : TcpSegment) : Type 0 where
    pub carried : Carries S N isn (key - 1) seg
    pub behind_syn : seg.header.syn ≡ false → 0 < key
    pub occupied : 0 < length_in_sequence_space seg

  abbrev pub Tiles : ℕ → ℕ → List Outstanding → Type 0
  Tiles lo hi [] = lo ≡ hi
  Tiles lo hi (o ∷ rest) = (o.key ≡ lo) × IsSent o.key o.segment × Tiles (lo + size_of o) hi rest

  pub Tiles-le : (lo hi : ℕ) (l : List Outstanding) → Tiles lo hi l → lo ≤ hi
  Tiles-le lo hi [] t = omega arith
  Tiles-le lo hi (o ∷ rest) t = omega (arith, Tiles-le (lo + size_of o) hi rest t.2)

  -- A new segment goes to the end.
  pub insert-Tiles :
      (lo hi : ℕ) (l : List Outstanding) (o : Outstanding)
      → Tiles lo hi l
      → o.key ≡ hi
      → IsSent o.key o.segment
      → Tiles lo (hi + size_of o) (insert o l)
  unfolding insert
  insert-Tiles lo hi [] o t k s = (k ∙ sym t, s, omega arith)
  insert-Tiles lo hi (p ∷ rest) o t k s = ground (
    arith,
    Tiles-le (lo + size_of p) hi rest t.2,
    t.1.occupied,
    insert-Tiles (lo + size_of p) hi rest o t.2 k s,
  )
