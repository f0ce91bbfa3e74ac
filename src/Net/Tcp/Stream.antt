-- ===== src/Net/Tcp/Stream.antt =====
-- The bytes that a reader gets, and the stream that the other side sends.
pub mod Kept
pub mod Run
use idos_nx.Base.{
  ℕ, ◌+◌, ◌≤◌, ◌≡◌, refl, sym, ap, ap₂, ◌∙◌, inl, inr, true, ◌||◌, List, [], ◌∷◌, ◌++◌, append-nil,
  append_assoc, ltb, Bool-cases, length, take, drop, wrap32, sub32,
}
use idos_nx.Base.Results.{Result, ok, err}
use idos_nx.Io.Error.{IoError}
use idos_nx.Net.Tcp.{
  TcpState, established, last_ack, syn_sent, syn_received, TcpAction, enqueue, discard, reset,
  fin_ack, connect, connect_ack, AsyncCallback, PendingRead, PendingWrite, TcpConnection, TcpHeader,
  is_ack, is_fin, is_syn, is_rst, Packet, Output, complete, respond, Step, write_length,
  process_ack, deliver, end_reads, fail_writes, acknowledge, action_for_tcp_packet, bare_packet,
}
use idos_nx.Net.Tcp.Operations.{
  is_empty, is_established, is_last_ack, on_close, on_enqueue, on_fin, on_reset, handle_packet,
  send_chunks, write, close, read,
}

-- The bytes copied into readers' buffers.
unfoldable pub copied : List Output → List ℕ
copied [] = []
copied (complete callback result bytes ∷ outs) = bytes ++ copied outs
copied (respond p ∷ outs) = copied outs

pub copied-append : (xs ys : List Output) → copied (xs ++ ys) ≡ copied xs ++ copied ys
unfolding copied
copied-append [] ys = refl
copied-append (complete callback result bytes ∷ xs) ys =
    ap (λ zs. bytes ++ zs) (copied-append xs ys) ∙ sym (append_assoc bytes (copied xs) (copied ys))
copied-append (respond p ∷ xs) ys = copied-append xs ys

pub copied-end_reads : (rs : List PendingRead) → copied (end_reads rs) ≡ []
unfolding copied end_reads
copied-end_reads [] = refl
copied-end_reads (r ∷ rs) = copied-end_reads rs

pub copied-fail_writes : (ws : List PendingWrite) → copied (fail_writes ws) ≡ []
unfolding copied fail_writes
copied-fail_writes [] = refl
copied-fail_writes (w ∷ ws) = copied-fail_writes ws

pub copied-acknowledge : (n : ℕ) (ws : List PendingWrite) → copied (acknowledge n ws).0 ≡ []
unfolding copied acknowledge
copied-acknowledge n [] = refl
copied-acknowledge n (w ∷ ws) = elim (Bool-cases (ltb (sub32 n w.end_sequence) 0x80000000)) [
  | inl acked ↦ rw acked (copied-acknowledge n ws)
  | inr waits ↦ rw waits refl
]

-- Outputs without bytes round those that have some.
pub copied_between :
    (before middle after : List Output)
    → copied before ≡ []
    → copied after ≡ []
    → copied (before ++ middle ++ after) ≡ copied middle
copied_between before middle after p q =
    copied-append (before ++ middle) after
    ∙ ap₂ (λ xs ys. xs ++ ys) (copied-append before middle ∙ ap (λ xs. xs ++ copied middle) p) q
    ∙ append-nil (copied middle)

pub copied_quiet :
    (before after : List Output)
    → copied before ≡ []
    → copied after ≡ []
    → copied (before ++ after) ≡ []
copied_quiet before after p q = copied-append before after ∙ ap₂ (λ xs ys. xs ++ ys) p q

-- A part of the stream `S` whose first byte has the sequence number `base`.
pub record Segment (S : List ℕ) (base : ℕ) (h : TcpHeader) (payload : List ℕ) : Type 0 where
  pub offset : ℕ
  pub inside : offset + length payload ≤ length S
  pub numbered : h.sequence_number ≡ wrap32 (base + offset)
  pub is_part : payload ≡ take (length payload) (drop offset S)

-- A reader that was given the bytes `d` is in step with the stream: what it has, and what is kept for
-- it, is the beginning of the stream, and the next byte expected is the one after it.
pub record Caught (S : List ℕ) (base : ℕ) (d : List ℕ) (c : TcpConnection) : Type 0 where
  pub n : ℕ
  pub inside : n ≤ length S
  pub is_start : d ++ c.available_data ≡ take n S
  pub next : c.last_sequence_received ≡ wrap32 (base + n)
  pub one_reader : length c.pending_reads ≤ 1
  pub waits_for_more : (is_empty c.pending_reads || is_empty c.available_data) ≡ true
  pub live : (is_established c.state || is_last_ack c.state) ≡ true
