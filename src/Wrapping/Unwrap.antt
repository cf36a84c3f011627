-- ===== src/Wrapping/Unwrap.antt =====
-- What `wrap` and `unwrap` compute.
use cs144_lab.Base.{arith, ℕ, ◌+◌, ◌-◌, ◌<◌, ◌^◌, ◌≡◌, ◌≤◌}
use cs144_lab.Wrapping.{wrap, unwrap, advance, retreat}

-- For 32-bit `n` and `isn` and any checkpoint, the number that `unwrap` returns wraps to `n`.
pub wrap-unwrap :
    (n isn checkpoint : ℕ) → n < 2 ^ 32 → isn < 2 ^ 32 → wrap (unwrap n isn checkpoint) isn ≡ n
unfolding wrap unwrap
wrap-unwrap n isn checkpoint hn hi = ground arith

-- For a 32-bit `isn` and a checkpoint below 2 ^ 62, an absolute number less than 2 ^ 31 away from
-- the checkpoint, on either side, survives being wrapped and unwrapped.
pub unwrap-wrap :
    (x isn checkpoint : ℕ)
    → isn < 2 ^ 32
    → checkpoint < 2 ^ 62
    → x < checkpoint + 2 ^ 31
    → checkpoint < x + 2 ^ 31
    → unwrap (wrap x isn) isn checkpoint ≡ x
unfolding wrap unwrap
unwrap-wrap x isn checkpoint hi hc above below = ground arith

abbrev pub distance : ℕ → ℕ → ℕ
distance a b = (a - b) + (b - a)

-- For 32-bit `n` and `isn` and a checkpoint below 2 ^ 62, `unwrap` returns a number that wraps to
-- `n`, and is at least as close to the checkpoint as any 64-bit number that wraps to `n`.
pub unwrap_closest :
    (n isn checkpoint x : ℕ)
    → n < 2 ^ 32
    → isn < 2 ^ 32
    → checkpoint < 2 ^ 62
    → x < 2 ^ 64
    → wrap x isn ≡ n
    → (wrap (unwrap n isn checkpoint) isn ≡ n)
      × (distance (unwrap n isn checkpoint) checkpoint ≤ distance x checkpoint)
unfolding wrap unwrap
unwrap_closest n isn checkpoint x hn hi hc hx e = (wrap-unwrap n isn checkpoint hn hi, ground arith)

-- The point `b` steps before the point `b` steps past `a` is `a`.
pub retreat-advance : (a b : ℕ) → a < 2 ^ 32 → b < 2 ^ 32 → retreat (advance a b) b ≡ a
unfolding advance retreat
retreat-advance a b ha hb = omega arith

-- Near a checkpoint below 2 ^ 31 every absolute number below 2 ^ 32 survives the round trip.
pub unwrap-wrap_small :
    (x isn checkpoint : ℕ)
    → isn < 2 ^ 32
    → checkpoint < 2 ^ 31
    → x < 2 ^ 32
    → unwrap (wrap x isn) isn checkpoint ≡ x
unfolding wrap unwrap
unwrap-wrap_small x isn checkpoint hi hc hx = ground arith

-- Near such a checkpoint nothing unwraps to 2 ^ 32 or more.
pub unwrap-lt :
    (n isn checkpoint : ℕ)
    → n < 2 ^ 32
    → isn < 2 ^ 32
    → checkpoint < 2 ^ 31
    → unwrap n isn checkpoint < 2 ^ 32
unfolding wrap unwrap
unwrap-lt n isn checkpoint hn hi hc = ground arith

pub wrap-lt : (x isn : ℕ) → wrap x isn < 2 ^ 32
unfolding wrap
wrap-lt x isn = omega arith

pub wrap_zero : (isn : ℕ) → isn < 2 ^ 32 → wrap 0 isn ≡ isn
unfolding wrap
wrap_zero isn h = omega arith
