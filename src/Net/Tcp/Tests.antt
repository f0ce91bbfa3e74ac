-- ===== src/Net/Tcp/Tests.antt =====
-- A connection at work: the theorems at concrete packets.
use idos_nx.Base.{
  ℕ, ◌+◌, ◌≤◌, ◌≡◌, refl, true, Option, none, some, List, [], ◌∷◌, ◌++◌, arith, if◌then◌else◌, take,
  wrap32, add32,
}
use idos_nx.Base.Bits.{bit_set}
use idos_nx.Base.Results.{err}
use idos_nx.Io.Error.{operation_failed}
use idos_nx.Net.Tcp.{
  established, syn_received, TcpConnection, AsyncCallback, action_for_tcp_packet, is_rst, is_fin,
  is_syn, is_ack, process_ack, deliver, acknowledge,
}
use idos_nx.Net.Tcp.Operations.{is_established, handle_packet, write, on_enqueue}
use idos_nx.Net.Tcp.Chunks.{Chunked, write_lem}
use idos_nx.Net.Tcp.Callbacks.{completed, waiting, handle_packet-waiting}
use idos_nx.Net.Tcp.Stream.{Segment}
use idos_nx.Net.Tcp.Stream.Run.{Event, packet, read_call, event, run_events, AllFair, stream_prefix}
use idos_nx.Net.Tcp.Overtaken.{data_header, overtaken}

abbrev operation : AsyncCallback
operation = (3, 1, 7)

abbrev opened : AsyncCallback → Option ℕ
opened callback = some 5

-- An established connection that expects the byte with the highest sequence number next.
abbrev connection : TcpConnection
connection = record {
  own_id = 1;
  local_address = 0x0a000001;
  local_port = 80;
  remote_address = 0x0a000002;
  remote_port = 4000;
  state = established;
  last_sequence_sent = 1;
  last_sequence_received = 0xffffffff;
  on_connect = none;
  pending_reads = [];
  pending_writes = [];
  available_data = [];
}

-- The three bytes come in two packets, the second of them first; the numbers wrap between.
abbrev events : List Event
events =
    packet 0 0 (data_header 1 1) (30 ∷ [])
    ∷ packet 0 0 (data_header 0xffffffff 1) (10 ∷ 20 ∷ [])
    ∷ packet 0 0 (data_header 0xffffffff 1) (10 ∷ 20 ∷ [])
    ∷ read_call 0x1000 1 operation
    ∷ []

late-Segment : Segment (10 ∷ 20 ∷ 30 ∷ []) 0xffffffff (data_header 1 1) (30 ∷ [])
late-Segment = record { offset = 2; inside = omega arith; numbered = refl; is_part = refl }

first-Segment : Segment (10 ∷ 20 ∷ 30 ∷ []) 0xffffffff (data_header 0xffffffff 1) (10 ∷ 20 ∷ [])
first-Segment = record { offset = 0; inside = omega arith; numbered = refl; is_part = refl }

events-AllFair : AllFair opened (10 ∷ 20 ∷ 30 ∷ []) 0xffffffff connection events
unfolding event handle_packet on_enqueue process_ack deliver acknowledge action_for_tcp_packet
    is_rst is_fin is_syn is_ack bit_set
events-AllFair = (late-Segment, (first-Segment, (first-Segment, (refl, tt))))

stream_prefix_example :
    (n : ℕ) × (n ≤ 3)
    × ((run_events opened connection events).0
          ++ (run_events opened connection events).1.available_data
        ≡ take n (10 ∷ 20 ∷ 30 ∷ []))
    × ((run_events opened connection events).1.last_sequence_received ≡ wrap32 (0xffffffff + n))
stream_prefix_example =
    stream_prefix opened (10 ∷ 20 ∷ 30 ∷ []) connection events (omega arith) refl refl refl
      (omega arith) events-AllFair

write_lem_example :
    ((write connection (1 ∷ 2 ∷ []) operation).0
      ≡ (if is_established established then none else some (err operation_failed)))
    × Chunked connection 1
        (write connection (1 ∷ 2 ∷ []) operation).1.0
        (if is_established established then 1 ∷ 2 ∷ [] else [])
        (write connection (1 ∷ 2 ∷ []) operation).1.1.last_sequence_sent
    × ((write connection (1 ∷ 2 ∷ []) operation).1.1 ≡ (
        if is_established established
        then record connection {
          last_sequence_sent = add32 1 2;
          pending_writes =
              record { end_sequence = add32 1 2; total_len = 2; callback = operation } ∷ [];
        }
        else connection))
write_lem_example = write_lem connection (1 ∷ 2 ∷ []) operation (omega arith)

-- An inbound connection that some task waits for, and the packet that completes the handshake.
abbrev accepted : TcpConnection
accepted = record connection { state = syn_received; on_connect = some (operation, true) }

handle_packet-waiting_example :
    completed
        (λ callback. true)
        (handle_packet opened accepted 0x0a000001 0x0a000002 (data_header 5 2) []).0
      + waiting
          (λ callback. true)
          (handle_packet opened accepted 0x0a000001 0x0a000002 (data_header 5 2) []).1
    ≡ waiting (λ callback. true) accepted
handle_packet-waiting_example =
    handle_packet-waiting (λ callback. true) opened (λ callback e. cc) accepted 0x0a000001
      0x0a000002 (data_header 5 2) []

-- Two waiting reads of two bytes each.
abbrev two_readers : TcpConnection
two_readers = record connection {
  pending_reads =
      record { buffer_paddr = 0x1000; buffer_len = 2; callback = operation }
      ∷ record { buffer_paddr = 0x2000; buffer_len = 2; callback = (3, 1, 8) }
      ∷ [];
}

overtaken_example :
    ((run_events opened two_readers (
        packet 0 0 (data_header 0xffffffff 1) (10 ∷ 20 ∷ 30 ∷ [])
        ∷ packet 0 0 (data_header (add32 0xffffffff 3) 1) (40 ∷ [])
        ∷ [])).0
      ≡ 10 ∷ 20 ∷ 40 ∷ [])
    × ((run_events opened two_readers (
          packet 0 0 (data_header 0xffffffff 1) (10 ∷ 20 ∷ 30 ∷ [])
          ∷ packet 0 0 (data_header (add32 0xffffffff 3) 1) (40 ∷ [])
          ∷ [])).1.available_data
        ≡ 30 ∷ [])
overtaken_example =
    overtaken opened two_readers
      (record { buffer_paddr = 0x1000; buffer_len = 2; callback = operation })
      (record { buffer_paddr = 0x2000; buffer_len = 2; callback = (3, 1, 8) }) 10 40 1 1 0 0
      (20 ∷ 30 ∷ []) [] refl refl refl refl
