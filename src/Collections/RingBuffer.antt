-- ===== src/Collections/RingBuffer.antt =====
-- kernel/src/collections/ringbuffer.rs: a ring with one reader and one writer. One slot of the buffer
-- stays empty. The reader and the writer each load both indexes, touch one slot, and then store
-- their own index; each such call is one step here.
pub mod Queue
use idos_nx.Base.{
  ℕ, ◌+◌, ◌-◌, ◌%◌, Bool, true, false, Option, none, some, List, [], ◌∷◌, ◌==◌, if◌then◌else◌,
  length, get_elem?, set, sub32,
}

pub record RingBuffer {ℓ} (T : Type ℓ) : Type ℓ where
  pub buffer : List T
  pub size : ℕ
  pub write_index : ℕ
  pub read_index : ℕ

module _ {ℓ} {T : Type ℓ} where
  unfoldable pub for_buffer : List T → RingBuffer T
  for_buffer buffer = record {
    buffer = buffer;
    size = sub32 (length buffer) 1;
    write_index = 0;
    read_index = 0;
  }

  abbrev pub next_index : RingBuffer T → ℕ → ℕ
  next_index rb current = (current + 1) % length rb.buffer

  unfoldable pub write : RingBuffer T → T → Bool × RingBuffer T
  write rb value =
      let next = next_index rb rb.write_index in
      if next == rb.read_index
      then (false, rb)
      else (true, record rb { buffer = set rb.buffer rb.write_index value; write_index = next })

  -- A slot outside the buffer, which the source would read unchecked, is `none` here.
  unfoldable pub read : RingBuffer T → Option T × RingBuffer T
  read rb = if rb.read_index == rb.write_index then (none, rb) else (
    get_elem? rb.buffer rb.read_index,
    record rb { read_index = next_index rb rb.read_index },
  )

  unfoldable pub capacity : RingBuffer T → ℕ
  capacity rb = rb.size
