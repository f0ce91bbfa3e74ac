-- ===== src/Net/Tcp/Overtaken.antt =====
-- Two reads that wait at once.
use idos_nx.Base.{
  ℕ, suc, ◌≡◌, refl, sym, ap, ap₂, ◌∙◌, true, Option, List, [], ◌∷◌, ◌++◌, append-nil, ◌==◌, ==_iff,
  length, take, drop, add32,
}
use idos_nx.Net.Tcp.{
  established, TcpConnection, TcpHeader, PendingRead, Step, is_fin, is_syn, is_rst, is_ack,
  AsyncCallback, flag_ack, write_length, process_ack, acknowledge, deliver, action_for_tcp_packet,
}
use idos_nx.Net.Tcp.Operations.{handle_packet, on_enqueue}
use idos_nx.Net.Tcp.Stream.{copied}
use idos_nx.Net.Tcp.Stream.Run.{packet, event, run_events}
use idos_nx.Base.Bits.{bit_set}

-- A plain data packet.
abbrev pub data_header : ℕ → ℕ → TcpHeader
data_header seq ack = record { sequence_number = seq; ack_number = ack; flags = flag_ack }

action_of_data :
    (c : TcpConnection) (seq ack : ℕ)
    → c.state ≡ established
    → action_for_tcp_packet c (data_header seq ack) ≡ idos_nx.Net.Tcp.enqueue
unfolding action_for_tcp_packet is_rst is_fin is_syn bit_set
action_of_data c seq ack est = rw est refl

module _ (open_handle : AsyncCallback → Option ℕ) where
  abbrev data_step : TcpConnection → ℕ → ℕ → ℕ → ℕ → List ℕ → Step
  data_step c seq ack local_addr remote_addr payload =
      handle_packet open_handle c local_addr remote_addr (data_header seq ack) payload

  module _ (c : TcpConnection) (r : PendingRead) (rest : List PendingRead)
      (x ack local_addr remote_addr : ℕ) (xs : List ℕ) (est : c.state ≡ established)
      (reads : c.pending_reads ≡ r ∷ rest) (none_sent : c.pending_writes ≡ []) where
    first_read :
        (copied (data_step c c.last_sequence_received ack local_addr remote_addr (x ∷ xs)).0
          ≡ take (write_length r (x ∷ xs)) (x ∷ xs))
        × ((data_step c c.last_sequence_received ack local_addr remote_addr
              (x ∷ xs)).1.available_data
            ≡ c.available_data ++ drop (write_length r (x ∷ xs)) (x ∷ xs))
        × ((data_step c c.last_sequence_received ack local_addr remote_addr
              (x ∷ xs)).1.pending_reads
            ≡ rest)
        × ((data_step c c.last_sequence_received ack local_addr remote_addr
              (x ∷ xs)).1.pending_writes
            ≡ [])
        × ((data_step c c.last_sequence_received ack local_addr remote_addr (x ∷ xs)).1.state
            ≡ established)
        × ((data_step c c.last_sequence_received ack local_addr remote_addr
              (x ∷ xs)).1.last_sequence_received
            ≡ add32 c.last_sequence_received (suc (length xs)))
    unfolding handle_packet on_enqueue process_ack acknowledge deliver is_ack bit_set copied
    first_read =
        let same : (c.last_sequence_received == c.last_sequence_received) ≡ true =
          (==_iff _ _).1 refl in
        rw (action_of_data c c.last_sequence_received ack est, none_sent, same, reads)
          (append-nil _, refl, refl, rw none_sent refl, est, refl)

  -- Two packets arrive in sequence at an established connection where two reads wait and nothing
  -- else does. If the first packet has more bytes than the first read takes, the second read gets
  -- bytes of the second packet, and the bytes of the first that were left over come after them.
  pub overtaken :
      (c : TcpConnection) (r1 r2 : PendingRead) (x y ack1 ack2 local_addr remote_addr : ℕ)
      (xs ys : List ℕ)
      → c.state ≡ established
      → c.pending_reads ≡ r1 ∷ r2 ∷ []
      → c.pending_writes ≡ []
      → c.available_data ≡ []
      → let seq = c.last_sequence_received in
        let a = x ∷ xs in
        let b = y ∷ ys in
        let after = run_events open_handle c (
          packet local_addr remote_addr (data_header seq ack1) a
          ∷ packet local_addr remote_addr (data_header (add32 seq (length a)) ack2) b
          ∷ []) in
        (after.0 ≡ take (write_length r1 a) a ++ take (write_length r2 b) b)
        × (after.1.available_data ≡ drop (write_length r1 a) a ++ drop (write_length r2 b) b)
  unfolding run_events event
  overtaken c r1 r2 x y ack1 ack2 local_addr remote_addr xs ys est two none_sent nothing =
      let first = first_read c r1 (r2 ∷ []) x ack1 local_addr remote_addr xs est two none_sent in
      let c1 = (data_step c c.last_sequence_received ack1 local_addr remote_addr (x ∷ xs)).1 in
      let second = first_read c1 r2 [] y ack2 local_addr remote_addr ys first.4 first.2 first.3 in
      rw (sym first.5) (
        ap₂ (λ us vs. us ++ vs) first.0 (append-nil _ ∙ second.0),
        second.1
            ∙ ap (λ us. us ++ drop (write_length r2 (y ∷ ys)) (y ∷ ys))
                (first.1 ∙ ap (λ us. us ++ drop (write_length r1 (x ∷ xs)) (x ∷ xs)) nothing),
      )
