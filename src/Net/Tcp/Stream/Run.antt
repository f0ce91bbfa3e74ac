-- ===== src/Net/Tcp/Stream/Run.antt =====
-- Any sequence of packets and calls on a connection, and what its reader gets.
use idos_nx.Base.{
  ℕ, zero, suc, ◌+◌, ◌≤◌, ◌<◌, min, ◌≡◌, refl, ap, ◌∙◌, ◌⊎◌, inl, inr, true, ◌||◌, Option, none,
  some, List, [], ◌∷◌, ◌++◌, append-nil, append_assoc, arith, Bool-cases, length, take, drop,
  append-take-drop, word_count, wrap32, add32,
}
use idos_nx.Net.Tcp.{
  established, TcpAction, enqueue, reset, fin_ack, AsyncCallback, TcpConnection, TcpHeader,
  action_for_tcp_packet, end_reads, fail_writes, bare_packet, flags_fin_ack,
}
use idos_nx.Net.Tcp.Operations.{
  is_empty, is_established, is_last_ack, on_reset, handle_packet, write, close, read, send_chunks,
  mss,
}
use idos_nx.Net.Tcp.Stream.{
  copied, copied-end_reads, copied-fail_writes, copied_quiet, Segment, Caught,
}
use idos_nx.Net.Tcp.Stream.Kept.{on_enqueue-Caught, on_close-Caught, on_fin-Caught, settled}

pub data Event : Type 0 where
  packet : (local_addr remote_addr : ℕ) → TcpHeader → List ℕ → Event
  read_call : (buffer_paddr buffer_len : ℕ) → AsyncCallback → Event
  write_call : List ℕ → AsyncCallback → Event
  close_call : Event

-- The bytes that a call of `read` gets at once.
abbrev pub read_bytes {ℓ} : {R : Type ℓ} → Option (R × List ℕ) → List ℕ
read_bytes none = []
read_bytes (some (result, bytes)) = bytes

live_actions :
    (c : TcpConnection) (h : TcpHeader)
    → (is_established c.state || is_last_ack c.state) ≡ true
    → (action_for_tcp_packet c h ≡ TcpAction.close)
      ⊎ ((action_for_tcp_packet c h ≡ fin_ack)
          ⊎ ((action_for_tcp_packet c h ≡ reset) ⊎ (action_for_tcp_packet c h ≡ enqueue)))
unfolding action_for_tcp_packet
live_actions c h live = grind (arith, inl, inr)

copied-send_chunks :
    (rounds : ℕ) (c : TcpConnection) (seq : ℕ) (left : List ℕ)
    → copied (send_chunks rounds c seq left).0 ≡ []
unfolding copied send_chunks
copied-send_chunks zero c seq left = refl
copied-send_chunks (suc rounds) c seq [] = refl
copied-send_chunks (suc rounds) c seq (x ∷ xs) =
    copied-send_chunks rounds c (add32 seq (length (take mss (x ∷ xs)))) (drop mss (x ∷ xs))

module _ (open_handle : AsyncCallback → Option ℕ) where
  -- The bytes that the reader gets from one event, and the connection after it.
  unfoldable pub event : TcpConnection → Event → List ℕ × TcpConnection
  event c (packet local_addr remote_addr h payload) =
      let (outs, c') = handle_packet open_handle c local_addr remote_addr h payload in
      (copied outs, c')
  event c (read_call buffer_paddr buffer_len callback) =
      let (result, c') = read c buffer_paddr buffer_len callback in (read_bytes result, c')
  event c (write_call bytes callback) =
      let (result, (outs, c')) = write c bytes callback in (copied outs, c')
  event c close_call = let (outs, c') = close c in (copied outs, c')

  unfoldable pub run_events : TcpConnection → List Event → List ℕ × TcpConnection
  unfolding event
  run_events c [] = ([], c)
  run_events c (e ∷ es) =
      let (bytes, c') = event c e in let (more, c'') = run_events c' es in (bytes ++ more, c'')

  -- Packets carry parts of the stream, and no read is made while another one waits.
  abbrev pub Fair : List ℕ → ℕ → TcpConnection → Event → Type 0
  Fair S base c (packet local_addr remote_addr h payload) = Segment S base h payload
  Fair S base c (read_call buffer_paddr buffer_len callback) = c.pending_reads ≡ []
  Fair S base c (write_call bytes callback) = Unit {0}
  Fair S base c close_call = Unit {0}

  abbrev pub AllFair : List ℕ → ℕ → TcpConnection → List Event → Type 0
  AllFair S base c [] = Unit {0}
  AllFair S base c (e ∷ es) = Fair S base c e × AllFair S base (event c e).1 es

  module _ {S : List ℕ} {base : ℕ} (small : length S < word_count) where
    handle_packet-Caught :
        (local_addr remote_addr : ℕ) (h : TcpHeader) (payload d : List ℕ) (c : TcpConnection)
        → Caught S base d c
        → Segment S base h payload
        → Caught S base
            (d ++ copied (handle_packet open_handle c local_addr remote_addr h payload).0)
            (handle_packet open_handle c local_addr remote_addr h payload).1
    unfolding handle_packet on_reset copied
    handle_packet-Caught local_addr remote_addr h payload d c k s = elim (live_actions c h k.live) [
      | inl e ↦ rw e (on_close-Caught small d c k)
      | inr (inl e) ↦ rw e (on_fin-Caught small local_addr remote_addr h payload d c k s)
      | inr (inr (inl e)) ↦ rw (e, append-nil d) k
      | inr (inr (inr e)) ↦ rw e (on_enqueue-Caught small local_addr remote_addr h payload d c k s)
    ]

    write-Caught :
        (bytes : List ℕ) (callback : AsyncCallback) (d : List ℕ) (c : TcpConnection)
        → Caught S base d c
        → Caught S base (d ++ copied (write c bytes callback).1.0) (write c bytes callback).1.1
    unfolding write copied
    write-Caught bytes callback d c k = elim (Bool-cases (is_established c.state)) [
      | inl est ↦
          rw (est, copied-send_chunks (length bytes) c c.last_sequence_sent bytes, append-nil d)
            (record {
              n = k.n;
              inside = k.inside;
              is_start = k.is_start;
              next = k.next;
              one_reader = k.one_reader;
              waits_for_more = k.waits_for_more;
              live = k.live;
            })
      | inr other ↦ rw (other, append-nil d) k
    ]

    close-Caught :
        (d : List ℕ) (c : TcpConnection)
        → Caught S base d c
        → Caught S base (d ++ copied (close c).0) (close c).1
    unfolding close copied
    close-Caught d c k =
        let ended =
          copied_quiet (end_reads c.pending_reads) (fail_writes c.pending_writes)
            (copied-end_reads c.pending_reads) (copied-fail_writes c.pending_writes) in
        let outs = end_reads c.pending_reads ++ fail_writes c.pending_writes in
        let after = settled small c.state [] d c k.live k in
        let fin =
          bare_packet c c.local_address c.remote_address c.last_sequence_sent
            c.last_sequence_received flags_fin_ack in
        elim (Bool-cases (is_established c.state)) [
          | inl est ↦ rw (est, copied_quiet outs (fin ∷ []) ended refl, append-nil d) after
          | inr other ↦ rw (other, copied_quiet outs [] ended refl, append-nil d) after
        ]

    read-Caught :
        (buffer_paddr buffer_len : ℕ) (callback : AsyncCallback) (d : List ℕ) (c : TcpConnection)
        → Caught S base d c
        → c.pending_reads ≡ []
        → Caught S base
            (d ++ read_bytes (read c buffer_paddr buffer_len callback).0)
            (read c buffer_paddr buffer_len callback).1
    unfolding read
    read-Caught buffer_paddr buffer_len callback d c k none_waits =
        let copy_len = min buffer_len (length c.available_data) in
        elim (Bool-cases (is_empty c.available_data)) [
          | inr some_data ↦ rw some_data (record {
            n = k.n;
            inside = k.inside;
            is_start =
                append_assoc d (take copy_len c.available_data) (drop copy_len c.available_data)
                ∙ ap (λ xs. d ++ xs) (append-take-drop copy_len c.available_data)
                ∙ k.is_start;
            next = k.next;
            one_reader = k.one_reader;
            waits_for_more = rw none_waits refl;
            live = k.live;
          })
          | inl nothing ↦ elim (Bool-cases (is_last_ack c.state)) [
            | inl ended ↦ rw (nothing, ended, append-nil d) k
            | inr more ↦
                rw (nothing, more, append-nil d)
                  (record {
                    n = k.n;
                    inside = k.inside;
                    is_start = k.is_start;
                    next = k.next;
                    one_reader = rw none_waits (omega arith);
                    waits_for_more = rw none_waits nothing;
                    live = k.live;
                  })
          ]
        ]

    event-Caught :
        (c : TcpConnection) (e : Event) (d : List ℕ)
        → Caught S base d c
        → Fair S base c e
        → Caught S base (d ++ (event c e).0) (event c e).1
    unfolding event
    event-Caught c (packet local_addr remote_addr h payload) d k f =
        handle_packet-Caught local_addr remote_addr h payload d c k f
    event-Caught c (read_call buffer_paddr buffer_len callback) d k f =
        read-Caught buffer_paddr buffer_len callback d c k f
    event-Caught c (write_call bytes callback) d k f = write-Caught bytes callback d c k
    event-Caught c close_call d k f = close-Caught d c k

    run_events-Caught :
        (es : List Event) (c : TcpConnection) (d : List ℕ)
        → Caught S base d c
        → AllFair S base c es
        → Caught S base (d ++ (run_events c es).0) (run_events c es).1
    unfolding run_events
    run_events-Caught [] c d k f = rw (append-nil d) k
    run_events-Caught (e ∷ es) c d k (f, fs) =
        rw (← append_assoc d (event c e).0 (run_events (event c e).1 es).0)
          (run_events-Caught es (event c e).1 (d ++ (event c e).0) (event-Caught c e d k f) fs)

  -- On an established connection that has received nothing yet, let the other side send parts of one
  -- stream shorter than 2 ^ 32 bytes, in any order and any number of times, whatever their flags, mixed
  -- with calls of `read`, `write` and `close`, where no read is made while another one waits. Then the
  -- bytes that the reads have got, one after the other, followed by those that are kept for the next,
  -- are the first `n` bytes of the stream: none is lost, repeated or out of order. The connection
  -- expects the byte after them.
  pub stream_prefix :
      (S : List ℕ) (c : TcpConnection) (es : List Event)
      → length S < word_count
      → c.state ≡ established
      → c.available_data ≡ []
      → c.pending_reads ≡ []
      → c.last_sequence_received < word_count
      → AllFair S c.last_sequence_received c es
      → (n : ℕ) × (n ≤ length S)
        × ((run_events c es).0 ++ (run_events c es).1.available_data ≡ take n S)
        × ((run_events c es).1.last_sequence_received ≡ wrap32 (c.last_sequence_received + n))
  stream_prefix S c es small est empty none_waits word fair =
      let end = run_events-Caught small es c [] start fair in
      (end.n, end.inside, end.is_start, end.next)
    where
      start : Caught S c.last_sequence_received [] c
      start = record {
        n = 0;
        inside = omega arith;
        is_start = empty;
        next = omega arith;
        one_reader = rw none_waits (omega arith);
        waits_for_more = rw none_waits refl;
        live = rw est refl;
      }
