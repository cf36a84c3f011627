-- ===== src/FileDescriptor/Writing.antt =====
-- What `FileDescriptor::write` hands to the kernel, and that it ends.
use cs144_lab.Base.{
  Bool, Bool-cases, List, Option, Option-cases, [], add64, ap, append-nil, append_assoc, arith,
  false, inl, inr, length, length-drop, ltb, none, not, refl, some, suc, sym, take, take-add,
  take-append-drop, take_all, true, zero, ℕ, ◌%◌, ◌&&◌, ◌++◌, ◌+◌, ◌-◌, ◌<◌, ◌==◌, ◌^◌, ◌∙◌, ◌≡◌,
  ◌≤◌, ◌⊎◌,
}
use cs144_lab.Buffer.{view_remove_prefix, BufferViewList, view_bytes, view_size}
use cs144_lab.Buffer.Prefixes.{length-view_bytes, view_remove_prefix_lem}
use cs144_lab.FileDescriptor.{
  Outcome, thrown, unfinished, FileDescriptor, register_write, sent_of, write, write_loop, written,
}

-- What `writev` promises for a descriptor that blocks: it takes at least one byte, if there is one.
pub record Takes (kernel : ℕ → List ℕ → Option ℕ) : Type 0 where
  pub nothing : (k : ℕ) → kernel k [] ≡ some 0
  pub something :
      (k : ℕ) (bytes : List ℕ)
      → 0 < length bytes
      → (n : ℕ) × (kernel k bytes ≡ some n) × (0 < n) × (n ≤ length bytes)

module _ (kernel : ℕ → List ℕ → Option ℕ) where
  -- Whatever the kernel answers, what it was given is sent from the front, each byte once.
  write_loop-sent :
      (write_all : Bool) (fuel k : ℕ) (f : FileDescriptor) (buffer : BufferViewList) (sent : List ℕ)
      (total : ℕ)
      → (m : ℕ) × (sent_of (write_loop kernel write_all fuel k f buffer sent total)
          ≡ sent ++ take m (view_bytes buffer))
  unfolding write_loop
  write_loop-sent write_all zero k f buffer sent total = (0, sym (append-nil sent))
  write_loop-sent write_all (suc fuel) k f buffer sent total =
      elim (Option-cases (kernel k (view_bytes buffer))) [
        | inl failed ↦ (0, ground (arith, failed, append-nil sent))
        | inr (n, taken) ↦ elim (Bool-cases (n == 0 && not (view_size buffer == 0))) [
          | inl stuck ↦ (n, ground (arith, taken, stuck))
          | inr moved ↦ elim (Bool-cases (ltb (view_size buffer) n)) [
            | inl over ↦ (n, ground (arith, taken, moved, over))
            | inr within ↦
                let (rest, made, left) = view_remove_prefix_lem buffer n (ground arith) in
                elim (Bool-cases (write_all && not (view_size rest == 0))) [
                  | inl more ↦
                      let (m, later) =
                        write_loop-sent write_all fuel (k + 1) (register_write f) rest
                          (sent ++ take n (view_bytes buffer)) (add64 total n) in
                      let joined : take n (view_bytes buffer) ++ take m (view_bytes rest)
                          ≡ take (n + m) (view_bytes buffer) =
                        rw left (take-add n m (view_bytes buffer)) in
                      let whole =
                        later
                        ∙ append_assoc sent (take n (view_bytes buffer)) (take m (view_bytes rest))
                        ∙ ap (λ t. sent ++ t) joined in
                      (n + m, ground (arith, taken, moved, within, made, more, whole))
                  | inr done ↦ (n, ground (arith, taken, moved, within, made, done))
                ]
          ]
        ]
      ]

  module _ (t : Takes kernel) where
    -- An answer that the loop accepts.
    answer :
        (k : ℕ) (buffer : BufferViewList)
        → (n : ℕ) × (kernel k (view_bytes buffer) ≡ some n)
          × (n ≤ view_size buffer)
          × (n == 0 && not (view_size buffer == 0) ≡ false)
    answer k buffer = elim (Bool-cases (view_size buffer == 0)) [
      | inl empty ↦
          let nil : view_bytes buffer ≡ [] =
            sym (take_all 0 (view_bytes buffer) (ground (arith, length-view_bytes buffer))) in
          (0, rw nil (t.nothing k), omega arith, ground arith)
      | inr full ↦
          let (n, taken, positive, fits) =
            t.something k (view_bytes buffer) (ground (arith, length-view_bytes buffer)) in
          (n, taken, omega (arith, length-view_bytes buffer), ground arith)
    ]

    write_loop-written :
        (fuel k : ℕ) (f : FileDescriptor) (buffer : BufferViewList) (sent : List ℕ) (total : ℕ)
        → view_size buffer < fuel
        → total + view_size buffer < 2 ^ 64
        → (f' : FileDescriptor) × (write_loop kernel true fuel k f buffer sent total
            ≡ written f' (sent ++ view_bytes buffer) (total + view_size buffer))
    unfolding write_loop
    write_loop-written zero k f buffer sent total enough small = absurd (omega arith)
    write_loop-written (suc fuel) k f buffer sent total enough small =
        let (n, taken, within, moved) = answer k buffer in
        let not_over : ltb (view_size buffer) n ≡ false = ground arith in
        let (rest, made, left) = view_remove_prefix_lem buffer n within in
        let size : view_size rest ≡ view_size buffer - n = omega (
          arith,
          length-view_bytes rest,
          length-view_bytes buffer,
          ap length left,
          length-drop n (view_bytes buffer),
        ) in
        let sum : add64 total n ≡ total + n = omega arith in
        let split : (sent ++ take n (view_bytes buffer)) ++ view_bytes rest
            ≡ sent ++ view_bytes buffer =
          append_assoc sent (take n (view_bytes buffer)) (view_bytes rest)
          ∙ ap (λ t. sent ++ t) (rw left (take-append-drop n (view_bytes buffer))) in
        let counted : total + n + view_size rest ≡ total + view_size buffer = omega arith in
        elim (Bool-cases (view_size rest == 0)) [
          | inl done ↦
              let nil : view_bytes rest ≡ [] =
                sym (take_all 0 (view_bytes rest) (ground (arith, length-view_bytes rest))) in
              let ended : sent ++ take n (view_bytes buffer) ≡ sent ++ view_bytes buffer =
                sym (append-nil _)
                ∙ ap (λ t. (sent ++ take n (view_bytes buffer)) ++ t) (sym nil)
                ∙ split in
              (register_write f, ground (arith, taken, moved, not_over, made, done, split, ended))
          | inr more ↦
              let (f', later) =
                write_loop-written fuel (k + 1) (register_write f) rest
                  (sent ++ take n (view_bytes buffer)) (total + n) (ground arith) (ground arith) in
              (f', ground (arith, taken, moved, not_over, made, more, sum, later, split, counted))
        ]

-- Whatever the kernel answers, the bytes that it took are the first of the buffer, in order, each once.
pub write-sent :
    (kernel : ℕ → List ℕ → Option ℕ) (write_all : Bool) (f : FileDescriptor)
    (buffer : BufferViewList)
    → (m : ℕ) × (sent_of (write kernel write_all f buffer) ≡ take m (view_bytes buffer))
unfolding write
write-sent kernel write_all f buffer =
    write_loop-sent kernel write_all (suc (view_size buffer)) 0 f buffer [] 0

-- On a kernel that takes at least one and at most all of the bytes it is offered, and nothing of
-- nothing, `write` of less than 2 ^ 64 bytes with `write_all` ends: all bytes are taken in order,
-- and their number is returned.
pub write-written :
    (kernel : ℕ → List ℕ → Option ℕ) (f : FileDescriptor) (buffer : BufferViewList)
    → Takes kernel
    → view_size buffer < 2 ^ 64
    → (f' : FileDescriptor) × (write kernel true f buffer
        ≡ written f' (view_bytes buffer) (view_size buffer))
unfolding write
write-written kernel f buffer t small =
    let (f', e) =
      write_loop-written kernel t (suc (view_size buffer)) 0 f buffer [] 0 (omega arith)
        (omega arith) in
    (f', e ∙ ap (written f' (view_bytes buffer)) (omega arith))

-- One call of the kernel: what it took is the front of the buffer, and the total is its length.
pub write-once :
    (kernel : ℕ → List ℕ → Option ℕ) (f f' : FileDescriptor) (buffer : BufferViewList)
    (sent : List ℕ) (n : ℕ)
    → view_size buffer < 2 ^ 64
    → write kernel false f buffer ≡ written f' sent n
    → (n ≤ view_size buffer) × (sent ≡ take n (view_bytes buffer))
unfolding write write_loop
write-once kernel f f' buffer sent n small h = elim (Option-cases (kernel 0 (view_bytes buffer))) [
  | inl failed ↦ ground (arith, h, failed)
  | inr (k, taken) ↦ elim (Option-cases (view_remove_prefix buffer k)) [
    | inl stuck ↦ ground (arith, h, taken, stuck)
    | inr (rest, made) ↦ ground (arith, h, taken, made)
  ]
]

-- What the kernel answers to `writev`: it takes some of what it is offered.
abbrev pub AcceptsOf : (List ℕ → Option ℕ) → List ℕ → Type 0
AcceptsOf kernel bytes =
    (n : ℕ) × (kernel bytes ≡ some n)
    × (n ≤ length bytes)
    × ((n == 0 && not (length bytes == 0)) ≡ false)

abbrev pub Accepts : (List ℕ → Option ℕ) → Type 0
Accepts kernel = (bytes : List ℕ) → AcceptsOf kernel bytes

-- The descriptor's count after one more operation is another one.
pub count_moves : (n : ℕ) → (n == (n + 1) % 2 ^ 32) ≡ false
count_moves n = ground arith

-- One call of the kernel, where its answer is one that `write` accepts.
pub write_accepted :
    (kernel : ℕ → List ℕ → Option ℕ) (f : FileDescriptor) (buffer : BufferViewList) (n : ℕ)
    → kernel 0 (view_bytes buffer) ≡ some n
    → n ≤ view_size buffer
    → (n == 0 && not (view_size buffer == 0)) ≡ false
    → write kernel false f buffer
      ≡ written (register_write f) (take n (view_bytes buffer)) (add64 0 n)
unfolding write write_loop
write_accepted kernel f buffer n taken within moved =
    let not_over : ltb (view_size buffer) n ≡ false = ground arith in
    let (rest, made, left) = view_remove_prefix_lem buffer n within in
    ground (arith, taken, moved, not_over, made)

pub write_refused :
    (kernel : ℕ → List ℕ → Option ℕ) (f : FileDescriptor) (buffer : BufferViewList)
    → kernel 0 (view_bytes buffer) ≡ none
    → write kernel false f buffer ≡ thrown f []
unfolding write write_loop
write_refused kernel f buffer refused = ground (arith, refused)

pub Outcome-cases :
    (o : Outcome)
    → ((f : FileDescriptor) × (sent : List ℕ) × (n : ℕ) × (o ≡ written f sent n))
      ⊎ (((f : FileDescriptor) × (sent : List ℕ) × (o ≡ thrown f sent))
          ⊎ ((sent : List ℕ) × (o ≡ unfinished sent)))
Outcome-cases (written f sent n) = inl (f, sent, n, refl)
Outcome-cases (thrown f sent) = inr (inl (f, sent, refl))
Outcome-cases (unfinished sent) = inr (inr (sent, refl))
