-- ===== src/Collections/RingBuffer/Queue.antt =====
-- A valid ring buffer is a queue of at most `capacity` elements, oldest first.
use native.Mathlib.Decide.{ℕ_discrete}
use idos_nx.Base.{
  ℕ, suc, ◌+◌, ◌-◌, ◌%◌, ◌^◌, ◌<◌, ◌≡◌, refl, sym, ◌≢◌, ap, ◌∙◌, Bool, true, false, not, Option,
  none, some, List, [], ◌∷◌, ◌++◌, arith, ltb, ltb→lt, ◌==◌, if◌then◌else◌, length, length-append,
  get_elem?, set, length-set, get_elem?-set_self, get_elem?-set_ne, get_elem?-append, Bool-cases,
  inl, inr,
}
use idos_nx.Collections.RingBuffer.{RingBuffer, for_buffer, next_index, write, read, capacity}

-- An index that has gone at most once round `c` slots.
abbrev round : ℕ → ℕ → ℕ
round c i = if ltb i c then i else i - c

next_round : (i c : ℕ) → i < c → (i + 1) % c ≡ round c (i + 1)
next_round i c h = grind arith

pub data Call {ℓ} (T : Type ℓ) : Type ℓ where
  write_call : T → Call T
  read_call : Call T

pub data Reply {ℓ} (T : Type ℓ) : Type ℓ where
  wrote : Bool → Reply T
  got : Option T → Reply T

module _ {ℓ} {T : Type ℓ} where
  -- The buffer's slots from `read_index` on hold `xs`, and `write_index` is the slot behind them.
  pub record Represents (rb : RingBuffer T) (xs : List T) : Type ℓ where
    pub fits : length xs < length rb.buffer
    pub capacity_is : rb.size ≡ length rb.buffer - 1
    pub reads : rb.read_index < length rb.buffer
    pub writes : rb.write_index ≡ round (length rb.buffer) (rb.read_index + length xs)
    pub holds :
        (k : ℕ)
        → k < length xs
        → get_elem? rb.buffer (round (length rb.buffer) (rb.read_index + k)) ≡ get_elem? xs k

  abbrev pub push : ℕ → List T → T → Bool × List T
  push bound xs v = if ltb (length xs) bound then (true, xs ++ v ∷ []) else (false, xs)

  abbrev pub pop : List T → Option T × List T
  pop [] = (none, [])
  pop (x ∷ xs) = (some x, xs)

  module _ {rb : RingBuffer T} {xs : List T} (r : Represents rb xs) where
    write_in : rb.write_index < length rb.buffer
    write_in = ground (arith, r.fits, r.reads, r.writes)

    next_write : next_index rb rb.write_index ≡ round (length rb.buffer) (rb.write_index + 1)
    next_write = next_round rb.write_index (length rb.buffer) write_in

    -- The test that the buffer is full.
    full_test : (next_index rb rb.write_index == rb.read_index) ≡ not (ltb (length xs) rb.size)
    full_test = ground (arith, next_write, write_in, r.fits, r.reads, r.writes, r.capacity_is)

    elsewhere :
        (k : ℕ) → k < length xs → rb.write_index ≢ round (length rb.buffer) (rb.read_index + k)
    elsewhere k h = ground (arith, r.fits, r.reads, r.writes)

    stored :
        (v : T)
        → length xs < rb.size
        → Represents
            (record rb {
              buffer = set rb.buffer rb.write_index v;
              write_index = next_index rb rb.write_index;
            })
            (xs ++ v ∷ [])
    stored v room =
        let same = length-set rb.buffer rb.write_index v in
        let more = length-append xs (v ∷ []) in
        record {
          fits = omega (arith, same, more, r.fits, r.capacity_is);
          capacity_is = omega (arith, same, r.capacity_is);
          reads = omega (arith, same, r.reads);
          writes =
              rw (same, more)
                (ground (arith, next_write, r.fits, r.reads, r.writes, r.capacity_is));
          holds = λ k h. rw same (at k (omega (arith, more)));
        }
      where
        at :
            (k : ℕ)
            → k < length xs + 1
            → get_elem?
                (set rb.buffer rb.write_index v)
                (round (length rb.buffer) (rb.read_index + k))
              ≡ get_elem? (xs ++ v ∷ []) k
        at k h = elim (ℕ_discrete k (length xs)) [
          | yes e ↦
              let here : round (length rb.buffer) (rb.read_index + k) ≡ rb.write_index =
                rw e (sym r.writes) in
              let after : ltb k (length xs) ≡ false = ground arith in
              let first : k - length xs ≡ 0 = omega arith in
              rw (here, get_elem?-set_self rb.buffer rb.write_index v write_in)
                (rw (get_elem?-append xs (v ∷ []) k, after, first))
          | no ne ↦
              let inside : ltb k (length xs) ≡ true = ground arith in
              rw
                (
                  get_elem?-set_ne rb.buffer rb.write_index
                      (round (length rb.buffer) (rb.read_index + k)) v (elsewhere k (omega arith)),
                  get_elem?-append xs (v ∷ []) k,
                  inside,
                )
                (r.holds k (omega arith))
        ]

    -- One push on the queue.
    pub write_refines :
        (v : T)
        → ((write rb v).0 ≡ (push rb.size xs v).0) × Represents (write rb v).1 (push rb.size xs v).1
    unfolding write
    write_refines v = elim (Bool-cases (ltb (length xs) rb.size)) [
      | inl room ↦
          let open_slot = full_test ∙ ap not room in
          rw (open_slot, room) (refl, stored v (ltb→lt _ _ room))
      | inr full ↦ let no_slot = full_test ∙ ap not full in rw (no_slot, full) (refl, r)
    ]

  read_refines_cons :
      {rb : RingBuffer T} {x : T} {xs : List T}
      → Represents rb (x ∷ xs)
      → ((read rb).0 ≡ some x) × Represents (read rb).1 xs
  unfolding read
  read_refines_cons {rb} {x} {xs} r =
      let more : (rb.read_index == rb.write_index) ≡ false =
        ground (arith, r.fits, r.reads, r.writes) in
      let next = next_round rb.read_index (length rb.buffer) r.reads in
      let here : round (length rb.buffer) (rb.read_index + 0) ≡ rb.read_index =
        ground (arith, r.reads) in
      rw more (
        rw (← here) (r.holds 0 (omega arith)),
        record {
          fits = omega (arith, r.fits);
          capacity_is = r.capacity_is;
          reads = ground (arith, next, r.reads);
          writes = ground (arith, next, r.fits, r.reads, r.writes);
          holds = λ k h.
              let on : round (length rb.buffer) ((rb.read_index + 1) % length rb.buffer + k)
                  ≡ round (length rb.buffer) (rb.read_index + suc k) =
                ground (arith, next, r.fits, r.reads) in
              rw on (r.holds (suc k) (omega arith));
        },
      )

  -- One pop of the queue.
  pub read_refines :
      {rb : RingBuffer T} (xs : List T)
      → Represents rb xs
      → ((read rb).0 ≡ (pop xs).0) × Represents (read rb).1 (pop xs).1
  read_refines (x ∷ xs) r = read_refines_cons r
  read_refines {rb} [] r =
      let none_left : (rb.read_index == rb.write_index) ≡ true =
        ground (arith, r.reads, r.writes) in
      unfold read in rw none_left (refl, r)

  -- A new ring buffer over at least one slot is empty.
  pub for_buffer-Represents :
      (b : List T) → 0 < length b → length b < 2 ^ 32 → Represents (for_buffer b) []
  unfolding for_buffer
  for_buffer-Represents b h small = record {
    fits = omega arith;
    capacity_is = omega arith;
    reads = omega arith;
    writes = ground arith;
    holds = λ k p. absurd (omega arith);
  }

  -- The calls of the writer and the reader, in the order in which they happen.
  unfoldable pub run : RingBuffer T → List (Call T) → List (Reply T)
  run rb [] = []
  run rb (write_call v ∷ calls) = let (done, rb') = write rb v in wrote done ∷ run rb' calls
  run rb (read_call ∷ calls) = let (value, rb') = read rb in got value ∷ run rb' calls

  unfoldable pub run_queue : ℕ → List T → List (Call T) → List (Reply T)
  run_queue bound xs [] = []
  run_queue bound xs (write_call v ∷ calls) =
      let (done, xs') = push bound xs v in wrote done ∷ run_queue bound xs' calls
  run_queue bound xs (read_call ∷ calls) =
      let (value, xs') = pop xs in got value ∷ run_queue bound xs' calls

  capacity-write : (rb : RingBuffer T) (v : T) → capacity (write rb v).1 ≡ capacity rb
  unfolding write capacity
  capacity-write rb v = ground arith

  capacity-read : (rb : RingBuffer T) → capacity (read rb).1 ≡ capacity rb
  unfolding read capacity
  capacity-read rb = ground arith

  -- A ring buffer that holds `xs` answers any sequence of calls as the queue `xs` of at most
  -- `capacity` elements does: nothing is lost, repeated, reordered or read outside the buffer.
  pub run-eq-run_queue :
      (calls : List (Call T)) {rb : RingBuffer T} {xs : List T}
      → Represents rb xs
      → run rb calls ≡ run_queue (capacity rb) xs calls
  unfolding run run_queue capacity
  run-eq-run_queue [] r = refl
  run-eq-run_queue (write_call v ∷ calls) {rb} {xs} r =
      let (same, r') = write_refines r v in
      λ i.
        wrote (same i)
        ∷ ((run-eq-run_queue calls {rb = (write rb v).1} {xs = (push rb.size xs v).1} r')
              ∙ ap (λ (n : ℕ). run_queue n (push rb.size xs v).1 calls) (capacity-write rb v))
            i
  run-eq-run_queue (read_call ∷ calls) {rb} {xs} r =
      let (same, r') = read_refines xs r in
      λ i.
        got (same i)
        ∷ ((run-eq-run_queue calls {rb = (read rb).1} {xs = (pop xs).1} r')
              ∙ ap (λ (n : ℕ). run_queue n (pop xs).1 calls) (capacity-read rb))
            i
