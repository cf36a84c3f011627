-- ===== src/Buffer.antt =====
-- libsponge/util/buffer.{hh,cc}: strings that drop bytes from the front, and lists of them.
pub mod Prefixes
use cs144_lab.Base.{
  Bool, List, Option, [], drop, false, if◌then◌else◌, length, ltb, none, some, suc, zero, ℕ, ◌++◌,
  ◌+◌, ◌-◌, ◌==◌, ◌∷◌,
}

-- `class Buffer`; the storage is shared and never written to, so it is its bytes.
pub record Buffer : Type 0 where
  pub storage : Option (List ℕ)
  pub starting_offset : ℕ

abbrev pub empty_buffer : Buffer
empty_buffer = record { storage = none; starting_offset = 0 }

abbrev pub of_string : List ℕ → Buffer
of_string bytes = record { storage = some bytes; starting_offset = 0 }

-- The offset is never beyond the end, so the view is what is left of the storage.
abbrev pub str : Buffer → List ℕ
str b = elim b.storage [ none ↦ [] | some bytes ↦ drop b.starting_offset bytes ]

abbrev pub buffer_length : Buffer → ℕ
buffer_length b = length (str b)

-- `at`; `none` is its exception.
pub byte_at : Buffer → ℕ → Option ℕ
byte_at b n = nth (str b) n
  where
    nth : List ℕ → ℕ → Option ℕ
    nth [] n = none
    nth (x ∷ xs) zero = some x
    nth (x ∷ xs) (suc n) = nth xs n

-- Whether the storage is used up.
abbrev used_up : Option (List ℕ) → ℕ → Bool
used_up none n = false
used_up (some bytes) n = n == length bytes

-- `Buffer::remove_prefix`; `none` is its exception.
pub remove_prefix : Buffer → ℕ → Option Buffer
remove_prefix b n =
    if ltb (buffer_length b) n
    then none
    else let offset = b.starting_offset + n in
      some (record {
        storage = if used_up b.storage offset then none else b.storage;
        starting_offset = offset;
      })

-- `class BufferList`
abbrev pub BufferList : Type 0
BufferList = List Buffer

pub list_append : BufferList → BufferList → BufferList
list_append l other = l ++ other

-- `operator Buffer`; `none` is its exception.
pub to_buffer : BufferList → Option Buffer
to_buffer [] = some empty_buffer
to_buffer (b ∷ []) = some b
to_buffer (b ∷ c ∷ l) = none

pub concatenate : BufferList → List ℕ
concatenate [] = []
concatenate (b ∷ l) = str b ++ concatenate l

unfoldable pub list_size : BufferList → ℕ
list_size [] = 0
list_size (b ∷ l) = buffer_length b + list_size l

-- The loop of `BufferList::remove_prefix`: at the front, `n` bytes are still to go.
pub list_remove_prefix : BufferList → ℕ → Option BufferList
list_remove_prefix [] n = if n == 0 then some [] else none
list_remove_prefix (b ∷ l) n =
    if n == 0
    then some (b ∷ l)
    else if ltb n (buffer_length b)
    then (elim (remove_prefix b n) [ none ↦ none | some b' ↦ some (b' ∷ l) ])
    else list_remove_prefix l (n - buffer_length b)

-- `class BufferViewList`; a view is the bytes that it shows.
abbrev pub BufferViewList : Type 0
BufferViewList = List (List ℕ)

-- The constructor from a `BufferList`.
pub views : BufferList → BufferViewList
views [] = []
views (b ∷ l) = str b ∷ views l

-- The constructors from a string.
abbrev pub view_of : List ℕ → BufferViewList
view_of bytes = bytes ∷ []

unfoldable pub view_size : BufferViewList → ℕ
view_size [] = 0
view_size (v ∷ l) = length v + view_size l

-- What the `iovec`s of `as_iovecs` point to, one after the other.
unfoldable pub view_bytes : BufferViewList → List ℕ
view_bytes [] = []
view_bytes (v ∷ l) = v ++ view_bytes l

-- The loop of `BufferViewList::remove_prefix`.
unfoldable pub view_remove_prefix : BufferViewList → ℕ → Option BufferViewList
view_remove_prefix [] n = if n == 0 then some [] else none
view_remove_prefix (v ∷ l) n =
    if n == 0
    then some (v ∷ l)
    else if ltb n (length v)
    then some (drop n v ∷ l)
    else view_remove_prefix l (n - length v)
