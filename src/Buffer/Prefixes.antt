-- ===== src/Buffer/Prefixes.antt =====
-- Dropping bytes from a list of buffers, against the bytes that the list stands for.
use cs144_lab.Base.{
  Bool-cases, List, Option, [], ap, arith, drop, drop-append_left, drop-append_right, drop-drop,
  drop_all, inl, inr, length, length-append, length-drop, ltb, none, refl, some, sym, ℕ, ◌++◌, ◌+◌,
  ◌-◌, ◌<◌, ◌==◌, ◌∙◌, ◌∷◌, ◌≡◌, ◌≤◌,
}
use mathlib.Core.Option
use cs144_lab.Buffer.{
  Buffer, BufferList, BufferViewList, str, buffer_length, remove_prefix, concatenate, list_size,
  list_remove_prefix, views, view_size, view_bytes, view_remove_prefix,
}

-- The offset is not beyond the end of the storage.
abbrev pub IsValid : Buffer → Type 0
IsValid b = elim b.storage [ none ↦ Unit {0} | some bytes ↦ b.starting_offset ≤ length bytes ]

abbrev pub AreValid : BufferList → Type 0
AreValid [] = Unit {0}
AreValid (b ∷ l) = IsValid b × AreValid l

-- A prefix that is no longer than the buffer is dropped.
pub remove_prefix_lem :
    (storage : Option (List ℕ)) (offset n : ℕ)
    → let b : Buffer = record { storage = storage; starting_offset = offset } in
      IsValid b
      → n ≤ buffer_length b
      → (b' : Buffer) × (remove_prefix b n ≡ some b') × (str b' ≡ drop n (str b)) × IsValid b'
unfolding remove_prefix
remove_prefix_lem none offset n v h = (
  record { storage = none; starting_offset = offset + n },
  ground arith,
  sym (drop_all n [] (omega (arith, h))),
  tt,
)
remove_prefix_lem (some bytes) offset n v h =
    let short : offset + n ≤ length bytes = omega (arith, length-drop offset bytes) in
    let shifted : drop (offset + n) bytes ≡ drop n (drop offset bytes) =
      sym (drop-drop n offset bytes) in
    elim (Bool-cases (offset + n == length bytes)) [
      | inl used ↦ (
        record { storage = none; starting_offset = offset + n },
        ground arith,
        sym (drop_all (offset + n) bytes (ground arith)) ∙ shifted,
        tt,
      )
      | inr left ↦ (
        record { storage = some bytes; starting_offset = offset + n },
        ground arith,
        shifted,
        short,
      )
    ]

pub length-concatenate : (l : BufferList) → length (concatenate l) ≡ list_size l
unfolding concatenate list_size
length-concatenate [] = refl
length-concatenate (b ∷ l) =
    omega (arith, length-append (str b) (concatenate l), length-concatenate l)

-- From a list of buffers whose offsets are within their strings, `BufferList::remove_prefix` of no
-- more bytes than there are removes exactly the first `n` of the bytes that the list stands for,
-- and leaves a list of such buffers.
pub list_remove_prefix_lem :
    (l : BufferList) (n : ℕ)
    → AreValid l
    → n ≤ list_size l
    → (l' : BufferList) × (list_remove_prefix l n ≡ some l')
      × (concatenate l' ≡ drop n (concatenate l))
      × AreValid l'
unfolding list_remove_prefix concatenate list_size
list_remove_prefix_lem [] n v h = ([], ground arith, sym (drop_all n [] (omega arith)), tt)
list_remove_prefix_lem (b ∷ l) n v h = elim (Bool-cases (n == 0)) [
  | inl done ↦ let zero_left : n ≡ 0 = ground arith in (b ∷ l, rw done, rw zero_left, v)
  | inr more ↦ elim (Bool-cases (ltb n (buffer_length b))) [
    | inl inside ↦
        let (b', made, bytes, valid) =
          remove_prefix_lem b.storage b.starting_offset n v.0 (ground arith) in
        (
          b' ∷ l,
          ground (arith, more, inside, made),
          ap (λ t. t ++ concatenate l) bytes
              ∙ sym (drop-append_left n (str b) (concatenate l) (ground arith)),
          (valid, v.1),
        )
    | inr beyond ↦
        let (l', made, bytes, valid) =
          list_remove_prefix_lem l (n - buffer_length b) v.1 (omega (arith, h)) in
        (
          l',
          ground (arith, more, beyond, made),
          bytes ∙ sym (drop-append_right n (str b) (concatenate l) (ground arith)),
          valid,
        )
  ]
]

-- More bytes than there are cannot be dropped.
list_remove_prefix-none : (l : BufferList) (n : ℕ) → list_size l < n → list_remove_prefix l n ≡ none
unfolding list_remove_prefix list_size
list_remove_prefix-none [] n h = ground arith
list_remove_prefix-none (b ∷ l) n h =
    ground (arith, list_remove_prefix-none l (n - buffer_length b))

-- On the views of such a list, `BufferViewList::remove_prefix` gives the views of what
-- `BufferList::remove_prefix` gives, and throws where that throws.
pub view_remove_prefix-views :
    (l : BufferList) (n : ℕ)
    → AreValid l
    → view_remove_prefix (views l) n ≡ Option.map views (list_remove_prefix l n)
unfolding view_remove_prefix views list_remove_prefix
view_remove_prefix-views [] n v = ground arith
view_remove_prefix-views (b ∷ l) n v = elim (Bool-cases (n == 0)) [
  | inl done ↦ ground (arith, done)
  | inr more ↦ elim (Bool-cases (ltb n (buffer_length b))) [
    | inl inside ↦
        let (b', made, bytes, valid) =
          remove_prefix_lem b.storage b.starting_offset n v.0 (ground arith) in
        rw (more, inside, made, bytes)
    | inr beyond ↦ ground (arith, view_remove_prefix-views l (n - buffer_length b) v.1)
  ]
]

pub view_bytes-views : (l : BufferList) → view_bytes (views l) ≡ concatenate l
unfolding view_bytes views concatenate
view_bytes-views [] = refl
view_bytes-views (b ∷ l) = ap (λ t. str b ++ t) (view_bytes-views l)

pub length-view_bytes : (l : BufferViewList) → length (view_bytes l) ≡ view_size l
unfolding view_bytes view_size
length-view_bytes [] = refl
length-view_bytes (v ∷ l) = omega (arith, length-append v (view_bytes l), length-view_bytes l)

-- A prefix that is no longer than the views is dropped.
pub view_remove_prefix_lem :
    (l : BufferViewList) (n : ℕ)
    → n ≤ view_size l
    → (l' : BufferViewList) × (view_remove_prefix l n ≡ some l')
      × (view_bytes l' ≡ drop n (view_bytes l))
unfolding view_remove_prefix view_bytes view_size
view_remove_prefix_lem [] n h = ([], ground arith, sym (drop_all n [] (omega arith)))
view_remove_prefix_lem (v ∷ l) n h = elim (Bool-cases (n == 0)) [
  | inl done ↦ let zero_left : n ≡ 0 = ground arith in (v ∷ l, rw done, rw zero_left)
  | inr more ↦ elim (Bool-cases (ltb n (length v))) [
    | inl inside ↦
        (drop n v ∷ l, rw (more, inside), sym (drop-append_left n v (view_bytes l) (ground arith)))
    | inr beyond ↦
        let (l', made, bytes) = view_remove_prefix_lem l (n - length v) (omega arith) in
        (
          l',
          ground (arith, more, beyond, made),
          bytes ∙ sym (drop-append_right n v (view_bytes l) (ground arith)),
        )
  ]
]
