-- ===== src/Net/Tcp/Operations.antt =====
-- The operations of a TCP connection, kernel/src/net/protocol/tcp/connection.rs. `open_handle` stands
-- for the task that asked for the connection: it makes a socket provider there, and returns its new
-- handle, or none if the task is gone.
use idos_nx.Base.{
  ℕ, zero, suc, min, Bool, true, false, not, ◌||◌, Option, none, some, List, [], ◌∷◌, ◌++◌, leb,
  ◌==◌, if◌then◌else◌, length, take, drop, add32,
}
use idos_nx.Base.Results.{Result, ok, err}
use idos_nx.Io.Error.{IoError, operation_failed}
use idos_nx.Net.Tcp.{
  TcpState, established, last_ack, TcpAction, enqueue, discard, reset, fin_ack, connect,
  connect_ack, AsyncCallback, TcpConnection, TcpHeader, Output, complete, respond, Step,
  bare_packet, action_for_tcp_packet, end_reads, fail_writes, process_ack, deliver, flag_ack,
  flags_ack_psh, flags_fin_ack, flags_rst_ack,
}

-- `TcpAction::Close`
unfoldable pub on_close : TcpConnection → Step
unfolding end_reads fail_writes
on_close c = (
  end_reads c.pending_reads ++ fail_writes c.pending_writes,
  record c { pending_reads = []; pending_writes = [] },
)

abbrev pub is_connect_ack : TcpAction → Bool
is_connect_ack connect_ack = true
is_connect_ack _ = false

-- Who waits for the connection is told; the last argument is what is sent then.
unfoldable pub tell :
    (AsyncCallback → Option ℕ) → ℕ → Option (AsyncCallback × Bool) → List Output → List Output
tell open_handle own_id none reply = reply
tell open_handle own_id (some (callback, true)) reply = elim (open_handle callback) [
  | none ↦ []
  | some handle ↦ complete callback (ok handle) [] ∷ reply
]
tell open_handle own_id (some (callback, false)) reply = complete callback (ok own_id) [] ∷ reply

-- `TcpAction::Connect` and `TcpAction::ConnectAck`
unfoldable pub on_connected :
    (AsyncCallback → Option ℕ) → TcpConnection → TcpAction → ℕ → ℕ → TcpHeader → Step
unfolding tell
on_connected open_handle c action local_addr remote_addr h =
    let sent = add32 c.last_sequence_sent 1 in
    (
      tell open_handle c.own_id c.on_connect (
          if is_connect_ack action
          then bare_packet c local_addr remote_addr sent (add32 h.sequence_number 1) flag_ack ∷ []
          else []),
      record c {
        state = established;
        local_address = local_addr;
        remote_address = remote_addr;
        last_sequence_sent = sent;
        last_sequence_received =
            if is_connect_ack action then add32 h.sequence_number 1 else h.sequence_number;
        on_connect = none;
      },
    )

abbrev pub acknowledgement : TcpConnection → ℕ → ℕ → Output
acknowledgement c local_addr remote_addr =
    bare_packet c local_addr remote_addr c.last_sequence_sent c.last_sequence_received flag_ack

abbrev pub is_empty {ℓ} : {A : Type ℓ} → List A → Bool
is_empty [] = true
is_empty (x ∷ xs) = false

-- `TcpAction::Enqueue`: after the acknowledgement is processed, data that is not the next in the
-- sequence is answered with the acknowledgement of what has come, and thrown away.
unfoldable pub on_enqueue : TcpConnection → ℕ → ℕ → TcpHeader → List ℕ → Step
unfolding deliver
on_enqueue c local_addr remote_addr h payload =
    let (acked, c1) = process_ack c h in
    let (delivered, c2) = deliver c1 h payload in
    if is_empty payload
    then (acked, c1)
    else if h.sequence_number == c1.last_sequence_received
    then (acked ++ delivered ++ acknowledgement c2 local_addr remote_addr ∷ [], c2)
    else (acked ++ acknowledgement c1 local_addr remote_addr ∷ [], c1)

-- `TcpAction::FinAck`
unfoldable pub on_fin : TcpConnection → ℕ → ℕ → TcpHeader → List ℕ → Step
unfolding deliver end_reads
on_fin c local_addr remote_addr h payload =
    let (acked, c1) = process_ack c h in
    let (delivered, c2) =
      if is_empty payload || not (h.sequence_number == c1.last_sequence_received)
      then ([], c1)
      else deliver c1 h payload in
    (
      acked
          ++ delivered
          ++ end_reads c2.pending_reads
          ++ bare_packet c2 local_addr remote_addr c2.last_sequence_sent
              (add32 c2.last_sequence_received 1) flags_fin_ack
            ∷ [],
      record c2 { state = last_ack; pending_reads = [] },
    )

-- `TcpAction::Reset`
unfoldable pub on_reset : TcpConnection → ℕ → ℕ → TcpHeader → Step
on_reset c local_addr remote_addr h = (
  bare_packet c local_addr remote_addr c.last_sequence_sent (add32 h.sequence_number 1)
        flags_rst_ack
      ∷ [],
  c,
)

abbrev perform :
    (AsyncCallback → Option ℕ) → TcpAction → TcpConnection → ℕ → ℕ → TcpHeader → List ℕ → Step
perform open_handle TcpAction.close c local_addr remote_addr h payload = on_close c
perform open_handle connect c local_addr remote_addr h payload =
    on_connected open_handle c connect local_addr remote_addr h
perform open_handle connect_ack c local_addr remote_addr h payload =
    on_connected open_handle c connect_ack local_addr remote_addr h
perform open_handle discard c local_addr remote_addr h payload = ([], c)
perform open_handle enqueue c local_addr remote_addr h payload =
    on_enqueue c local_addr remote_addr h payload
perform open_handle fin_ack c local_addr remote_addr h payload =
    on_fin c local_addr remote_addr h payload
perform open_handle reset c local_addr remote_addr h payload = on_reset c local_addr remote_addr h

unfoldable pub handle_packet :
    (AsyncCallback → Option ℕ) → TcpConnection → ℕ → ℕ → TcpHeader → List ℕ → Step
handle_packet open_handle c local_addr remote_addr h payload =
    perform open_handle (action_for_tcp_packet c h) c local_addr remote_addr h payload

abbrev pub is_established : TcpState → Bool
is_established established = true
is_established _ = false

abbrev pub is_last_ack : TcpState → Bool
is_last_ack last_ack = true
is_last_ack _ = false

abbrev pub mss : ℕ
mss = 1460

-- One packet of `write`.
abbrev pub data_packet : TcpConnection → ℕ → List ℕ → Bool → Output
data_packet c seq chunk is_last = respond (record {
  source_ip = c.local_address;
  source_port = c.local_port;
  dest_ip = c.remote_address;
  dest_port = c.remote_port;
  seq_number = seq;
  ack_number = c.last_sequence_received;
  flags = if is_last then flags_ack_psh else flag_ack;
  payload = chunk;
})

-- The `while` of `write`, over the data that is left and the sequence number. Each round sends at
-- least one byte, so as many rounds as bytes are enough.
unfoldable pub send_chunks : ℕ → TcpConnection → ℕ → List ℕ → List Output × ℕ
send_chunks zero c seq left = ([], seq)
send_chunks (suc rounds) c seq left =
    let chunk = take mss left in
    let (outs, seq') = send_chunks rounds c (add32 seq (length chunk)) (drop mss left) in
    if is_empty left
    then ([], seq)
    else (data_packet c seq chunk (leb (length left) mss) ∷ outs, seq')

unfoldable pub write : TcpConnection → List ℕ → AsyncCallback → Option (Result ℕ IoError) × Step
unfolding send_chunks
write c bytes callback =
    let (outs, seq) = send_chunks (length bytes) c c.last_sequence_sent bytes in
    if is_established c.state
    then (
      none,
      (
        outs,
        record c {
          last_sequence_sent = seq;
          pending_writes =
              c.pending_writes
              ++ record { end_sequence = seq; total_len = length bytes; callback = callback } ∷ [];
        },
      ),
    )
    else (some (err operation_failed), ([], c))

unfoldable pub close : TcpConnection → Step
unfolding end_reads fail_writes
close c = (
  end_reads c.pending_reads
      ++ fail_writes c.pending_writes
      ++ (if is_established c.state
          then bare_packet c c.local_address c.remote_address c.last_sequence_sent
              c.last_sequence_received flags_fin_ack
            ∷ []
          else []),
  record c { pending_reads = []; pending_writes = [] },
)

-- The result with the bytes that were copied, or none if the read waits. The buffer is its physical
-- address, from the page tables, and its length.
unfoldable pub read :
    TcpConnection → ℕ → ℕ → AsyncCallback → Option (Result ℕ IoError × List ℕ) × TcpConnection
read c buffer_paddr buffer_len callback =
    let copy_len = min buffer_len (length c.available_data) in
    if not (is_empty c.available_data)
    then (
      some (ok copy_len, take copy_len c.available_data),
      record c { available_data = drop copy_len c.available_data },
    )
    else if is_last_ack c.state
    then (some (ok 0, []), c)
    else (
      none,
      record c {
        pending_reads =
            c.pending_reads
            ++ record { buffer_paddr = buffer_paddr; buffer_len = buffer_len; callback = callback }
              ∷ [];
      },
    )
