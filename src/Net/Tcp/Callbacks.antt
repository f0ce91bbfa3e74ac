-- ===== src/Net/Tcp/Callbacks.antt =====
-- Every operation that was accepted is waiting or has been completed, once.
use idos_nx.Base.{
  ℕ, ◌+◌, ◌≡◌, refl, ap, ◌∙◌, ◌≢◌, ◌⊎◌, inl, inr, Bool, true, false, not, ◌||◌, Option, none, some,
  List, [], ◌∷◌, ◌++◌, arith, ltb, ◌==◌, if◌then◌else◌, Bool-cases, Option-cases, add32, sub32,
}
use idos_nx.Net.Tcp.{
  last_ack, TcpAction, enqueue, discard, reset, fin_ack, connect, connect_ack, AsyncCallback,
  PendingRead, PendingWrite, TcpConnection, TcpHeader, is_ack, action_for_tcp_packet, end_reads,
  fail_writes, acknowledge, process_ack, deliver, Output, respond, complete, bare_packet,
  flags_fin_ack, flag_ack,
}
use idos_nx.Net.Tcp.Operations.{
  is_empty, on_close, on_enqueue, on_fin, on_reset, on_connected, handle_packet, acknowledgement,
  tell, is_connect_ack,
}

action-cases :
    (a : TcpAction)
    → (a ≡ TcpAction.close)
      ⊎ ((a ≡ fin_ack)
          ⊎ ((a ≡ enqueue) ⊎ ((a ≡ connect) ⊎ ((a ≡ connect_ack) ⊎ ((a ≡ reset) ⊎ (a ≡ discard))))))
action-cases TcpAction.close = inl refl
action-cases fin_ack = inr (inl refl)
action-cases enqueue = inr (inr (inl refl))
action-cases connect = inr (inr (inr (inl refl)))
action-cases connect_ack = inr (inr (inr (inr (inl refl))))
action-cases reset = inr (inr (inr (inr (inr (inl refl)))))
action-cases discard = inr (inr (inr (inr (inr (inr refl)))))

-- How many of the operations in a set, given by its test, wait or are completed.
module _ (P : AsyncCallback → Bool) where
  abbrev one : AsyncCallback → ℕ
  one callback = if P callback then 1 else 0

  abbrev connecting : Option (AsyncCallback × Bool) → ℕ
  connecting none = 0
  connecting (some (callback, create)) = one callback

  unfoldable pub reading : List PendingRead → ℕ
  reading [] = 0
  reading (r ∷ rs) = one r.callback + reading rs

  unfoldable pub writing : List PendingWrite → ℕ
  writing [] = 0
  writing (w ∷ ws) = one w.callback + writing ws

  unfoldable pub completed : List Output → ℕ
  completed [] = 0
  completed (complete callback result bytes ∷ outs) = one callback + completed outs
  completed (respond p ∷ outs) = completed outs

  abbrev pub waiting : TcpConnection → ℕ
  waiting c = connecting c.on_connect + reading c.pending_reads + writing c.pending_writes

  completed-append : (xs ys : List Output) → completed (xs ++ ys) ≡ completed xs + completed ys
  unfolding completed
  completed-append [] ys = omega arith
  completed-append (complete callback result bytes ∷ xs) ys = omega (arith, completed-append xs ys)
  completed-append (respond p ∷ xs) ys = completed-append xs ys

  completed-end_reads : (rs : List PendingRead) → completed (end_reads rs) ≡ reading rs
  unfolding completed end_reads reading
  completed-end_reads [] = refl
  completed-end_reads (r ∷ rs) = omega (arith, completed-end_reads rs)

  completed-fail_writes : (ws : List PendingWrite) → completed (fail_writes ws) ≡ writing ws
  unfolding completed fail_writes writing
  completed-fail_writes [] = refl
  completed-fail_writes (w ∷ ws) = omega (arith, completed-fail_writes ws)

  completed-acknowledge :
      (n : ℕ) (ws : List PendingWrite)
      → completed (acknowledge n ws).0 + writing (acknowledge n ws).1 ≡ writing ws
  unfolding completed acknowledge writing
  completed-acknowledge n [] = refl
  completed-acknowledge n (w ∷ ws) = elim (Bool-cases (ltb (sub32 n w.end_sequence) 0x80000000)) [
    | inl acked ↦ rw acked (omega (arith, completed-acknowledge n ws))
    | inr waits ↦ rw waits (omega arith)
  ]

  process_ack-waiting :
      (c : TcpConnection) (h : TcpHeader)
      → completed (process_ack c h).0 + waiting (process_ack c h).1 ≡ waiting c
  unfolding process_ack completed
  process_ack-waiting c h = elim (Bool-cases (is_ack h)) [
    | inl ack ↦ rw ack (omega (arith, completed-acknowledge h.ack_number c.pending_writes))
    | inr plain ↦ rw plain (omega arith)
  ]

  reads-cases :
      (rs : List PendingRead)
      → (rs ≡ []) ⊎ ((r : PendingRead) × (rest : List PendingRead) × (rs ≡ r ∷ rest))
  reads-cases [] = inl refl
  reads-cases (r ∷ rest) = inr (r, rest, refl)

  deliver-waiting :
      (c : TcpConnection) (h : TcpHeader) (payload : List ℕ)
      → completed (deliver c h payload).0 + waiting (deliver c h payload).1 ≡ waiting c
  unfolding deliver completed reading
  deliver-waiting c h payload = elim (reads-cases c.pending_reads) [
    | inl e ↦ rw e (omega arith)
    | inr (r, rest, e) ↦ rw e (omega arith)
  ]

  on_close-waiting :
      (c : TcpConnection) → completed (on_close c).0 + waiting (on_close c).1 ≡ waiting c
  unfolding on_close reading writing
  on_close-waiting c = omega (
    arith,
    completed-append (end_reads c.pending_reads) (fail_writes c.pending_writes),
    completed-end_reads c.pending_reads,
    completed-fail_writes c.pending_writes,
  )

  on_enqueue-waiting :
      (c : TcpConnection) (local_addr remote_addr : ℕ) (h : TcpHeader) (payload : List ℕ)
      → completed (on_enqueue c local_addr remote_addr h payload).0
          + waiting (on_enqueue c local_addr remote_addr h payload).1
        ≡ waiting c
  unfolding on_enqueue completed
  on_enqueue-waiting c local_addr remote_addr h payload =
      let acked = (process_ack c h).0 in
      let c1 = (process_ack c h).1 in
      let ack = process_ack-waiting c h in
      elim (Bool-cases (is_empty payload)) [
        | inl empty ↦ rw empty ack
        | inr some_data ↦ elim (Bool-cases (h.sequence_number == c1.last_sequence_received)) [
          | inl in_order ↦
              let answer = acknowledgement (deliver c1 h payload).1 local_addr remote_addr in
              rw (some_data, in_order)
                (omega (
                  arith,
                  ack,
                  deliver-waiting c1 h payload,
                  completed-append (acked ++ (deliver c1 h payload).0) (answer ∷ []),
                  completed-append acked (deliver c1 h payload).0,
                ))
          | inr other ↦
              rw (some_data, other)
                (omega (
                  arith,
                  ack,
                  completed-append acked (acknowledgement c1 local_addr remote_addr ∷ []),
                ))
        ]
      ]

  -- A FIN, with what was delivered before it.
  fin-waiting :
      (acked delivered : List Output) (c : TcpConnection) (fin : Output)
      → completed (fin ∷ []) ≡ 0
      → completed (acked ++ delivered ++ end_reads c.pending_reads ++ fin ∷ [])
          + waiting (record c { state = last_ack; pending_reads = [] })
        ≡ completed acked + (completed delivered + waiting c)
  unfolding reading
  fin-waiting acked delivered c fin quiet = omega (
    arith,
    completed-append (acked ++ delivered ++ end_reads c.pending_reads) (fin ∷ []),
    completed-append (acked ++ delivered) (end_reads c.pending_reads),
    completed-append acked delivered,
    completed-end_reads c.pending_reads,
  )

  on_fin-waiting :
      (c : TcpConnection) (local_addr remote_addr : ℕ) (h : TcpHeader) (payload : List ℕ)
      → completed (on_fin c local_addr remote_addr h payload).0
          + waiting (on_fin c local_addr remote_addr h payload).1
        ≡ waiting c
  unfolding on_fin completed
  on_fin-waiting c local_addr remote_addr h payload =
      let acked = (process_ack c h).0 in
      let c1 = (process_ack c h).1 in
      let c2 = (deliver c1 h payload).1 in
      let ack = process_ack-waiting c h in
      elim (Bool-cases (is_empty payload || not (h.sequence_number == c1.last_sequence_received))) [
        | inl left_out ↦ rw left_out (fin-waiting acked [] c1 (fin_of c1) refl ∙ omega (arith, ack))
        | inr in_order ↦ rw in_order (
            fin-waiting acked (deliver c1 h payload).0 c2 (fin_of c2) refl
            ∙ ap (λ n. completed acked + n) (deliver-waiting c1 h payload)
            ∙ ack)
      ]
    where
      fin_of : TcpConnection → Output
      fin_of c' =
          bare_packet c' local_addr remote_addr c'.last_sequence_sent
            (add32 c'.last_sequence_received 1) flags_fin_ack

  module _ (open_handle : AsyncCallback → Option ℕ)
      (opens : (cb : AsyncCallback) → open_handle cb ≢ none) where
    completed-tell :
        (own_id : ℕ) (o : Option (AsyncCallback × Bool)) (reply : List Output)
        → completed (tell open_handle own_id o reply) ≡ connecting o + completed reply
    unfolding tell completed
    completed-tell own_id none reply = omega arith
    completed-tell own_id (some (callback, false)) reply = omega arith
    completed-tell own_id (some (callback, true)) reply =
        elim (Option-cases (open_handle callback)) [
          | inl gone ↦ absurd (opens callback gone)
          | inr (handle, e) ↦ rw (e, completed) (omega arith)
        ]

    completed_reply :
        (b : Bool) (p : Output) → completed (p ∷ []) ≡ 0 → completed (if b then p ∷ [] else []) ≡ 0
    unfolding completed
    completed_reply true p quiet = quiet
    completed_reply false p quiet = refl

    on_connected-waiting :
        (c : TcpConnection) (action : TcpAction) (local_addr remote_addr : ℕ) (h : TcpHeader)
        → completed (on_connected open_handle c action local_addr remote_addr h).0
            + waiting (on_connected open_handle c action local_addr remote_addr h).1
          ≡ waiting c
    unfolding on_connected completed
    on_connected-waiting c action local_addr remote_addr h =
        let reply =
          bare_packet c local_addr remote_addr (add32 c.last_sequence_sent 1)
            (add32 h.sequence_number 1) flag_ack in
        omega (
          arith,
          completed-tell c.own_id c.on_connect (if is_connect_ack action then reply ∷ [] else []),
          completed_reply (is_connect_ack action) reply refl,
        )

    -- Whatever packet arrives, the operations that waited are those that it completes and those that
    -- wait after it: none is forgotten and none completed twice. This is counted for any set of
    -- operations, given by its test `P`; the task that asked for a connection is taken to exist.
    pub handle_packet-waiting :
        (c : TcpConnection) (local_addr remote_addr : ℕ) (h : TcpHeader) (payload : List ℕ)
        → completed (handle_packet open_handle c local_addr remote_addr h payload).0
            + waiting (handle_packet open_handle c local_addr remote_addr h payload).1
          ≡ waiting c
    unfolding handle_packet on_reset completed
    handle_packet-waiting c local_addr remote_addr h payload =
        elim (action-cases (action_for_tcp_packet c h)) [
          | inl e ↦ rw e (on_close-waiting c)
          | inr (inl e) ↦ rw e (on_fin-waiting c local_addr remote_addr h payload)
          | inr (inr (inl e)) ↦ rw e (on_enqueue-waiting c local_addr remote_addr h payload)
          | inr (inr (inr (inl e))) ↦ rw e (on_connected-waiting c connect local_addr remote_addr h)
          | inr (inr (inr (inr (inl e)))) ↦
              rw e (on_connected-waiting c connect_ack local_addr remote_addr h)
          | inr (inr (inr (inr (inr (inl e))))) ↦ rw e (omega arith)
          | inr (inr (inr (inr (inr (inr e))))) ↦ rw e (omega arith)
        ]
