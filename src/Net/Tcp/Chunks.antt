-- ===== src/Net/Tcp/Chunks.antt =====
-- `write` cuts its data into packets.
use idos_nx.Base.{
  ℕ, zero, suc, ◌≤◌, ◌<◌, ◌≡◌, refl, sym, inl, inr, none, some, List, [], ◌∷◌, ◌++◌, arith, leb,
  if◌then◌else◌, Bool-cases, length, length-append, take, drop, append-take-drop, length-take,
  length-drop, word_count, add32,
}
use idos_nx.Base.Results.{err}
use idos_nx.Io.Error.{operation_failed}
use idos_nx.Net.Tcp.{
  AsyncCallback, TcpConnection, Output, complete, respond, flag_ack, flags_ack_psh,
}
use idos_nx.Net.Tcp.Operations.{is_empty, is_established, mss, send_chunks, write}

-- Packets that carry the bytes from a sequence number on, up to `end`: in order, each with at least
-- one byte and at most `mss`, numbered without a gap, and only the last with the push flag.
abbrev pub Chunked : TcpConnection → ℕ → List Output → List ℕ → ℕ → Type 0
Chunked c seq [] bytes end = (bytes ≡ []) × (end ≡ seq)
Chunked c seq (complete callback result copied ∷ outs) bytes end = ⊥
Chunked c seq (respond p ∷ outs) bytes end =
    (p.seq_number ≡ seq)
    × (p.ack_number ≡ c.last_sequence_received)
    × (p.flags ≡ (if is_empty outs then flags_ack_psh else flag_ack))
    × (0 < length p.payload)
    × (length p.payload ≤ mss)
    × (rest : List ℕ) × (bytes ≡ p.payload ++ rest)
    × Chunked c (add32 seq (length p.payload)) outs rest end

is_empty-drop {ℓ} : {A : Type ℓ} (n : ℕ) (xs : List A) → is_empty (drop n xs) ≡ leb (length xs) n
is_empty-drop zero [] = refl
is_empty-drop zero (x ∷ xs) = ground arith
is_empty-drop (suc n) [] = ground arith
is_empty-drop (suc n) (x ∷ xs) = ground (arith, is_empty-drop n xs)

is_empty-send_chunks :
    (rounds : ℕ) (c : TcpConnection) (seq : ℕ) (left : List ℕ)
    → length left ≤ rounds
    → is_empty (send_chunks rounds c seq left).0 ≡ is_empty left
unfolding send_chunks
is_empty-send_chunks zero c seq [] h = refl
is_empty-send_chunks zero c seq (x ∷ xs) h = absurd (omega arith)
is_empty-send_chunks (suc rounds) c seq [] h = refl
is_empty-send_chunks (suc rounds) c seq (x ∷ xs) h = refl

send_chunks-Chunked :
    (rounds : ℕ) (c : TcpConnection) (seq : ℕ) (left : List ℕ)
    → length left ≤ rounds
    → Chunked c seq (send_chunks rounds c seq left).0 left (send_chunks rounds c seq left).1
unfolding send_chunks
send_chunks-Chunked zero c seq [] h = (refl, refl)
send_chunks-Chunked zero c seq (x ∷ xs) h = absurd (omega arith)
send_chunks-Chunked (suc rounds) c seq [] h = (refl, refl)
send_chunks-Chunked (suc rounds) c seq (x ∷ xs) h =
    let bytes : List ℕ = x ∷ xs in
    let cut = length-take mss bytes in
    let left = length-drop mss bytes in
    let next = add32 seq (length (take mss bytes)) in
    let rest_empty = is_empty-send_chunks rounds c next (drop mss bytes) (omega (arith, left)) in
    (
      refl,
      refl,
      rw (rest_empty, is_empty-drop mss bytes) refl,
      omega (arith, cut),
      omega (arith, cut),
      drop mss bytes,
      sym (append-take-drop mss bytes),
      send_chunks-Chunked rounds c next (drop mss bytes) (omega (arith, left)),
    )

Chunked-end :
    (c : TcpConnection) (outs : List Output) (seq : ℕ) (bytes : List ℕ) (end : ℕ)
    → seq < word_count
    → Chunked c seq outs bytes end
    → end ≡ add32 seq (length bytes)
Chunked-end c [] seq bytes end h (e, f) = rw e (omega (arith, f))
Chunked-end c (complete callback result copied ∷ outs) seq bytes end h x = elim x [ ]
Chunked-end c (respond p ∷ outs) seq bytes end h (a, b, d, e, f, rest, split, more) =
    let ih = Chunked-end c outs (add32 seq (length p.payload)) rest end (omega arith) more in
    rw split (omega (arith, ih, length-append p.payload rest))

-- On an established connection, `write` sends all of its bytes, from the last sequence number on, in
-- order, without a gap, in packets of one to 1460 bytes of which only the last is pushed; it waits
-- for the acknowledgement of the sequence number behind them. On any other connection it fails,
-- sends nothing and changes nothing.
pub write_lem :
    (c : TcpConnection) (bytes : List ℕ) (callback : AsyncCallback)
    → c.last_sequence_sent < word_count
    → ((write c bytes callback).0
        ≡ (if is_established c.state then none else some (err operation_failed)))
      × Chunked c c.last_sequence_sent
          (write c bytes callback).1.0
          (if is_established c.state then bytes else [])
          (write c bytes callback).1.1.last_sequence_sent
      × ((write c bytes callback).1.1 ≡ (
          if is_established c.state
          then record c {
            last_sequence_sent = add32 c.last_sequence_sent (length bytes);
            pending_writes =
                c.pending_writes
                ++ record {
                  end_sequence = add32 c.last_sequence_sent (length bytes);
                  total_len = length bytes;
                  callback = callback;
                }
                  ∷ [];
          }
          else c))
unfolding write
write_lem c bytes callback small =
    let sent = send_chunks-Chunked (length bytes) c c.last_sequence_sent bytes (omega arith) in
    let end =
      Chunked-end c (send_chunks (length bytes) c c.last_sequence_sent bytes).0 c.last_sequence_sent
        bytes (send_chunks (length bytes) c c.last_sequence_sent bytes).1 small sent in
    elim (Bool-cases (is_established c.state)) [
      | inl open_now ↦ rw open_now (refl, sent, rw end refl)
      | inr shut ↦ rw shut (refl, (refl, refl), refl)
    ]
