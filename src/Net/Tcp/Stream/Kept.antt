-- ===== src/Net/Tcp/Stream/Kept.antt =====
-- Every operation of a connection keeps its reader in step with the stream.
use idos_nx.Base.{
  ℕ, ◌+◌, ◌≤◌, ◌<◌, ◌≡◌, refl, sym, ap, ◌∙◌, ◌⊎◌, inl, inr, true, not, ◌||◌, List, [], ◌∷◌, ◌++◌,
  append-nil, append_assoc, arith, ◌==◌, ==_iff, Bool-cases, length, take, drop, append-take-drop,
  take-append-slice, word_count, wrap32, add32,
}
use idos_nx.Net.Tcp.{
  TcpState, last_ack, PendingRead, PendingWrite, TcpConnection, TcpHeader, is_ack, Output,
  write_length, process_ack, deliver, end_reads, fail_writes, bare_packet, flags_fin_ack,
}
use idos_nx.Net.Tcp.Operations.{
  is_empty, is_established, is_last_ack, on_close, on_enqueue, on_fin, acknowledgement,
}
use idos_nx.Net.Tcp.Stream.{
  copied, copied-append, copied-end_reads, copied-fail_writes, copied-acknowledge, copied_between,
  copied_quiet, Segment, Caught,
}

is_empty→nil : (xs : List ℕ) → is_empty xs ≡ true → xs ≡ []
is_empty→nil [] h = refl
is_empty→nil (x ∷ xs) h = cc

reads-cases :
    (rs : List PendingRead) → length rs ≤ 1 → (rs ≡ []) ⊎ ((r : PendingRead) × (rs ≡ r ∷ []))
reads-cases [] h = inl refl
reads-cases (r ∷ []) h = inr (r, refl)
reads-cases (r ∷ r' ∷ rs) h = absurd (omega arith)

-- What a FIN sends to the readers is what is delivered with it.
fin_copied :
    (acked delivered : List Output) (c : TcpConnection) (local_addr remote_addr : ℕ)
    → copied acked ≡ []
    → copied (
        acked
        ++ delivered
        ++ end_reads c.pending_reads
        ++ bare_packet c local_addr remote_addr c.last_sequence_sent
            (add32 c.last_sequence_received 1)
            flags_fin_ack
          ∷ [])
      ≡ copied delivered
unfolding copied
fin_copied acked delivered c local_addr remote_addr quiet =
    copied-append (acked ++ delivered ++ end_reads c.pending_reads) (fin ∷ [])
    ∙ append-nil (copied (acked ++ delivered ++ end_reads c.pending_reads))
    ∙ copied_between acked delivered (end_reads c.pending_reads) quiet
        (copied-end_reads c.pending_reads)
  where
    fin : Output
    fin =
        bare_packet c local_addr remote_addr c.last_sequence_sent (add32 c.last_sequence_received 1)
          flags_fin_ack

module _ {S : List ℕ} {base : ℕ} (small : length S < word_count) where
  -- Data in sequence continues the stream.
  grown :
      (h : TcpHeader) (payload d : List ℕ) {c : TcpConnection}
      → (k : Caught S base d c) → (s : Segment S base h payload)
      → h.sequence_number ≡ c.last_sequence_received
      → (k.n + length payload ≤ length S)
        × (take k.n S ++ payload ≡ take (k.n + length payload) S)
        × (add32 h.sequence_number (length payload) ≡ wrap32 (base + (k.n + length payload)))
  grown h payload d k s e =
      let same : s.offset ≡ k.n = omega (arith, s.inside, s.numbered, k.next, k.inside) in
      (
        omega (arith, s.inside),
        ap (λ xs. take k.n S ++ xs) (s.is_part ∙ ap (λ m. take (length payload) (drop m S)) same)
            ∙ take-append-slice k.n (length payload) S,
        omega (arith, s.numbered),
      )

  -- The two ways in which data is delivered.
  appended :
      (h : TcpHeader) (payload d : List ℕ) (c : TcpConnection)
      → c.pending_reads ≡ []
      → Caught S base d c
      → Segment S base h payload
      → h.sequence_number ≡ c.last_sequence_received
      → Caught S base (d ++ copied (deliver c h payload).0) (deliver c h payload).1
  unfolding deliver copied
  appended h payload d c none_waits k s e =
      let (room, more, next) = grown h payload d k s e in
      rw none_waits (record {
        n = k.n + length payload;
        inside = room;
        is_start =
            ap (λ xs. xs ++ (c.available_data ++ payload)) (append-nil d)
            ∙ sym (append_assoc d c.available_data payload)
            ∙ ap (λ xs. xs ++ payload) k.is_start
            ∙ more;
        next = next;
        one_reader = omega arith;
        waits_for_more = refl;
        live = k.live;
      })

  handed :
      (h : TcpHeader) (payload d : List ℕ) (c : TcpConnection) (r : PendingRead)
      → c.pending_reads ≡ r ∷ []
      → Caught S base d c
      → Segment S base h payload
      → h.sequence_number ≡ c.last_sequence_received
      → Caught S base (d ++ copied (deliver c h payload).0) (deliver c h payload).1
  unfolding deliver copied
  handed h payload d c r one k s e =
      let (room, more, next) = grown h payload d k s e in
      let waiting : is_empty c.available_data ≡ true = rw one at (k.waits_for_more) in
      let nothing : c.available_data ≡ [] = is_empty→nil c.available_data waiting in
      let start : d ≡ take k.n S =
        sym (append-nil d) ∙ ap (λ xs. d ++ xs) (sym nothing) ∙ k.is_start in
      rw one (record {
        n = k.n + length payload;
        inside = room;
        is_start =
            ap
              (λ xs.
                (d ++ (take (write_length r payload) payload ++ []))
                ++ (xs ++ drop (write_length r payload) payload))
              nothing
            ∙ ap (λ xs. (d ++ xs) ++ drop (write_length r payload) payload)
                (append-nil (take (write_length r payload) payload))
            ∙ append_assoc d (take (write_length r payload) payload)
                (drop (write_length r payload) payload)
            ∙ ap (λ xs. d ++ xs) (append-take-drop (write_length r payload) payload)
            ∙ ap (λ xs. xs ++ payload) start
            ∙ more;
        next = next;
        one_reader = omega arith;
        waits_for_more = refl;
        live = k.live;
      })

  deliver-Caught :
      (h : TcpHeader) (payload d : List ℕ) (c : TcpConnection)
      → Caught S base d c
      → Segment S base h payload
      → h.sequence_number ≡ c.last_sequence_received
      → Caught S base (d ++ copied (deliver c h payload).0) (deliver c h payload).1
  deliver-Caught h payload d c k s e = elim (reads-cases c.pending_reads k.one_reader) [
    | inl none_waits ↦ appended h payload d c none_waits k s e
    | inr (r, one) ↦ handed h payload d c r one k s e
  ]

  -- An acknowledgement touches nothing that the reader sees.
  process_ack-Caught :
      (h : TcpHeader) (d : List ℕ) (c : TcpConnection)
      → Caught S base d c
      → Caught S base d (process_ack c h).1
        × (copied (process_ack c h).0 ≡ [])
        × ((process_ack c h).1.last_sequence_received ≡ c.last_sequence_received)
  unfolding copied process_ack
  process_ack-Caught h d c k = elim (Bool-cases (is_ack h)) [
    | inl ack ↦ rw ack (
      record {
        n = k.n;
        inside = k.inside;
        is_start = k.is_start;
        next = k.next;
        one_reader = k.one_reader;
        waits_for_more = k.waits_for_more;
        live = k.live;
      },
      copied-acknowledge h.ack_number c.pending_writes,
      refl,
    )
    | inr plain ↦ rw plain (k, refl, refl)
  ]

  pub on_enqueue-Caught :
      (local_addr remote_addr : ℕ) (h : TcpHeader) (payload d : List ℕ) (c : TcpConnection)
      → Caught S base d c
      → Segment S base h payload
      → Caught S base
          (d ++ copied (on_enqueue c local_addr remote_addr h payload).0)
          (on_enqueue c local_addr remote_addr h payload).1
  unfolding on_enqueue
  on_enqueue-Caught local_addr remote_addr h payload d c k s =
      let (k1, quiet, same) = process_ack-Caught h d c k in
      let acked = (process_ack c h).0 in
      let c1 = (process_ack c h).1 in
      elim (Bool-cases (is_empty payload)) [
        | inl empty ↦ rw (empty, quiet, append-nil d) k1
        | inr some_data ↦ elim (Bool-cases (h.sequence_number == c1.last_sequence_received)) [
          | inl in_order ↦
              rw
                (
                  some_data,
                  in_order,
                  copied_between acked (deliver c1 h payload).0
                      (acknowledgement (deliver c1 h payload).1 local_addr remote_addr ∷ []) quiet
                      (unfold copied in refl),
                )
                (deliver-Caught h payload d c1 k1 s ((==_iff _ _).0 in_order))
          | inr other ↦
              rw
                (
                  some_data,
                  other,
                  copied_quiet acked (acknowledgement c1 local_addr remote_addr ∷ []) quiet
                      (unfold copied in refl),
                  append-nil d,
                )
                k1
        ]
      ]

  -- A connection without pending reads in another live state.
  pub settled :
      (state : TcpState) (writes : List PendingWrite) (d : List ℕ) (c : TcpConnection)
      → (is_established state || is_last_ack state) ≡ true
      → Caught S base d c
      → Caught S base d (record c { state = state; pending_reads = []; pending_writes = writes })
  settled state writes d c live k = record {
    n = k.n;
    inside = k.inside;
    is_start = k.is_start;
    next = k.next;
    one_reader = omega arith;
    waits_for_more = refl;
    live = live;
  }

  pub on_close-Caught :
      (d : List ℕ) (c : TcpConnection)
      → Caught S base d c
      → Caught S base (d ++ copied (on_close c).0) (on_close c).1
  unfolding on_close
  on_close-Caught d c k =
      rw
        (
          copied_quiet (end_reads c.pending_reads) (fail_writes c.pending_writes)
              (copied-end_reads c.pending_reads) (copied-fail_writes c.pending_writes),
          append-nil d,
        )
        (settled c.state [] d c k.live k)

  pub on_fin-Caught :
      (local_addr remote_addr : ℕ) (h : TcpHeader) (payload d : List ℕ) (c : TcpConnection)
      → Caught S base d c
      → Segment S base h payload
      → Caught S base
          (d ++ copied (on_fin c local_addr remote_addr h payload).0)
          (on_fin c local_addr remote_addr h payload).1
  unfolding on_fin copied process_ack
  on_fin-Caught local_addr remote_addr h payload d c k s =
      let (k1, quiet, same) = process_ack-Caught h d c k in
      let acked = (process_ack c h).0 in
      let c1 = (process_ack c h).1 in
      elim (Bool-cases (is_empty payload || not (h.sequence_number == c1.last_sequence_received))) [
        | inl left_out ↦ rw left_out (
            rw (fin_copied acked [] c1 local_addr remote_addr quiet, append-nil d)
              (settled last_ack c1.pending_writes d c1 refl k1))
        | inr in_order ↦
            let c2 = (deliver c1 h payload).1 in
            let e : h.sequence_number ≡ c1.last_sequence_received = ground arith in
            rw in_order (
              rw (fin_copied acked (deliver c1 h payload).0 c2 local_addr remote_addr quiet) (
                settled last_ack c2.pending_writes (d ++ copied (deliver c1 h payload).0) c2 refl
                  (deliver-Caught h payload d c1 k1 s e)))
      ]
