-- ===== src/FileDescriptor.antt =====
-- libsponge/util/file_descriptor.{hh,cc}: a descriptor, what it counts, and its reads and writes; and
-- `shutdown` of libsponge/util/socket.cc. What the kernel answers is an argument.
pub mod Writing
pub mod Streams
use cs144_lab.Base.{
  Bool, List, Option, [], add64, false, if◌then◌else◌, length, ltb, min, none, not, some, suc, take,
  true, zero, ℕ, ◌%◌, ◌&&◌, ◌*◌, ◌++◌, ◌+◌, ◌==◌, ◌^◌, ◌||◌,
}
use cs144_lab.Buffer.{BufferViewList, view_bytes, view_remove_prefix, view_size}

-- `class FDWrapper`; the copies of a `FileDescriptor` share one.
pub record FileDescriptor : Type 0 where
  pub fd : ℕ
  pub eof : Bool
  pub closed : Bool
  pub read_count : ℕ
  pub write_count : ℕ

-- The constructor, for a number that is not negative.
unfoldable pub new : ℕ → FileDescriptor
new fd = record { fd = fd; eof = false; closed = false; read_count = 0; write_count = 0 }

-- `close`, where the call of the kernel succeeds.
unfoldable pub close : FileDescriptor → FileDescriptor
close f = record f { eof = true; closed = true }

unfoldable pub register_read : FileDescriptor → FileDescriptor
register_read f = record f { read_count = (f.read_count + 1) % 2 ^ 32 }

unfoldable pub register_write : FileDescriptor → FileDescriptor
register_write f = record f { write_count = (f.write_count + 1) % 2 ^ 32 }

-- The argument of `Socket::shutdown`.
pub data How : Type 0 where
  shut_rd shut_wr shut_rdwr : How

-- `Socket::shutdown`, of socket.cc, where the call of the kernel succeeds: what it does to the object.
-- What it does to later calls of the kernel stands in the answers of the kernel.
unfoldable pub shutdown : FileDescriptor → How → FileDescriptor
unfolding register_read register_write
shutdown f shut_rd = register_read f
shutdown f shut_wr = register_write f
shutdown f shut_rdwr = register_write (register_read f)

-- The most that one `read` asks for.
abbrev pub buffer_size : ℕ
buffer_size = 1024 * 1024

-- `read` of at most `limit` bytes, where the kernel gives `answer`, or an error at `none`. The result
-- is `none` where `read` throws.
unfoldable pub read : FileDescriptor → ℕ → Option (List ℕ) → Option (FileDescriptor × List ℕ)
unfolding register_read
read f limit none = none
read f limit (some bytes) =
    let f' = record f { eof = f.eof || (ltb 0 limit && length bytes == 0) } in
    if ltb (min buffer_size limit) (length bytes) then none else some (register_read f', bytes)

-- How `write` ends: it returns its total, or it throws; `sent` is what the kernel took.
pub data Outcome : Type 0 where
  written : FileDescriptor → List ℕ → ℕ → Outcome
  thrown : FileDescriptor → List ℕ → Outcome
  unfinished : List ℕ → Outcome

-- The bytes that the kernel took.
abbrev pub sent_of : Outcome → List ℕ
sent_of (written f sent total) = sent
sent_of (thrown f sent) = sent
sent_of (unfinished sent) = sent

-- `kernel k bytes` is what the call number `k` of `writev` returns for `bytes`, `none` for an error.
module _ (kernel : ℕ → List ℕ → Option ℕ) (write_all : Bool) where
  -- The loop of `write` on fuel.
  unfoldable pub write_loop : ℕ → ℕ → FileDescriptor → BufferViewList → List ℕ → ℕ → Outcome
  write_loop zero k f buffer sent total = unfinished sent
  write_loop (suc fuel) k f buffer sent total = elim (kernel k (view_bytes buffer)) [
    | none ↦ thrown f sent
    | some n ↦
        let sent' = sent ++ take n (view_bytes buffer) in
        if n == 0 && not (view_size buffer == 0)
        then thrown f sent'
        else if ltb (view_size buffer) n
        then thrown f sent'
        else elim (view_remove_prefix buffer n) [
          | none ↦ thrown (register_write f) sent'
          | some rest ↦
              let again = write_loop fuel (k + 1) (register_write f) rest sent' (add64 total n) in
              if write_all && not (view_size rest == 0)
              then again
              else written (register_write f) sent' (add64 total n)
        ]
  ]

  -- Every round but the last takes at least one byte.
  unfoldable pub write : FileDescriptor → BufferViewList → Outcome
  unfolding write_loop
  write f buffer = write_loop (suc (view_size buffer)) 0 f buffer [] 0
