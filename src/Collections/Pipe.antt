-- ===== src/Collections/Pipe.antt =====
-- kernel/src/pipes/pipe.rs: a ring buffer of bytes with the counts of its two ends.
use idos_nx.Base.{
  ℕ, ◌+◌, ◌<◌, ◌≡◌, Option, none, some, List, [], arith, length-replicate, replicate, sub32, add32,
  ◌^◌, ◌∙◌, ap,
}
use idos_nx.Collections.RingBuffer.{RingBuffer, for_buffer, capacity}
use idos_nx.Collections.RingBuffer.Queue.{
  Represents, for_buffer-Represents, Call, run, run_queue, run-eq-run_queue,
}

pub record Pipe : Type 0 where
  pub ring_buffer : RingBuffer ℕ
  pub blocked_reader : Option ℕ
  pub readers : ℕ
  pub writers : ℕ

abbrev pub default_size : ℕ
default_size = 256

-- The loop pushes zeros up to the actual size, one more than asked for.
pub with_size : ℕ → Pipe
with_size size = record {
  ring_buffer = for_buffer (replicate (add32 size 1) 0);
  blocked_reader = none;
  readers = 1;
  writers = 1;
}

pub new : Pipe
new = with_size default_size

pub set_blocked_reader : Pipe → ℕ → Pipe
set_blocked_reader p task = record p { blocked_reader = some task }

pub clear_blocked_reader : Pipe → Pipe
clear_blocked_reader p = record p { blocked_reader = none }

-- `fetch_sub` wraps, and returns the count before.
pub remove_reader : Pipe → ℕ × Pipe
remove_reader p = (p.readers, record p { readers = sub32 p.readers 1 })

pub remove_writer : Pipe → ℕ × Pipe
remove_writer p = (p.writers, record p { writers = sub32 p.writers 1 })

capacity-with_size : (size : ℕ) → size + 1 < 2 ^ 32 → capacity (with_size size).ring_buffer ≡ size
unfolding with_size for_buffer capacity
capacity-with_size size h = omega (arith, length-replicate {A = ℕ} (add32 size 1) 0)

-- A new pipe of a size below the word limit answers any sequence of reads and writes as an empty
-- queue of at most that many bytes does.
pub with_size_refines :
    (size : ℕ) (calls : List (Call ℕ))
    → size + 1 < 2 ^ 32
    → run (with_size size).ring_buffer calls ≡ run_queue size [] calls
with_size_refines size calls h =
    run-eq-run_queue calls (empty size h)
    ∙ ap (λ (n : ℕ). run_queue n [] calls) (capacity-with_size size h)
  where
    empty : (size : ℕ) → size + 1 < 2 ^ 32 → Represents (with_size size).ring_buffer []
    empty size h =
        unfold with_size in
        for_buffer-Represents (replicate (add32 size 1) 0)
          (omega (arith, length-replicate {A = ℕ} (add32 size 1) 0))
          (omega (arith, length-replicate {A = ℕ} (add32 size 1) 0))
