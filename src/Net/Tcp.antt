-- ===== src/Net/Tcp.antt =====
-- kernel/src/net/protocol/tcp/connection.rs: one TCP connection. What the code does to the outside is a
-- list of outputs: a completed operation with the bytes that were copied into its buffer, and a
-- packet given to `net_respond` by the arguments of `create_packet`.
mod Tests
pub mod Operations
pub mod Chunks
pub mod Callbacks
pub mod Stream
pub mod Overtaken
use idos_nx.Base.{
  ℕ, ◌-◌, ◌%◌, min, Bool, true, false, not, ◌||◌, Option, List, [], ◌∷◌, ◌++◌, ltb, ◌==◌,
  if◌then◌else◌, length, take, drop, add32, sub32,
}
use idos_nx.Base.Bits.{bit_set}
use idos_nx.Base.Results.{Result, ok, err}
use idos_nx.Io.Error.{IoError, operation_failed}

pub data TcpState : Type 0 where
  syn_sent syn_received established last_ack : TcpState

pub data TcpAction : Type 0 where
  enqueue discard close reset fin_ack connect connect_ack : TcpAction

-- The task, the index of its IO object, and the operation.
abbrev pub AsyncCallback : Type 0
AsyncCallback = ℕ × ℕ × ℕ

pub record PendingRead : Type 0 where
  pub buffer_paddr : ℕ
  pub buffer_len : ℕ
  pub callback : AsyncCallback

pub record PendingWrite : Type 0 where
  pub end_sequence : ℕ
  pub total_len : ℕ
  pub callback : AsyncCallback

-- An IPv4 address is its number here.
pub record TcpConnection : Type 0 where
  pub own_id : ℕ
  pub local_address : ℕ
  pub local_port : ℕ
  pub remote_address : ℕ
  pub remote_port : ℕ
  pub state : TcpState
  pub last_sequence_sent : ℕ
  pub last_sequence_received : ℕ
  pub on_connect : Option (AsyncCallback × Bool)
  pub pending_reads : List PendingRead
  pub pending_writes : List PendingWrite
  pub available_data : List ℕ

-- The fields that the connection reads, in the machine's byte order.
pub record TcpHeader : Type 0 where
  pub sequence_number : ℕ
  pub ack_number : ℕ
  pub flags : ℕ

unfoldable pub is_fin : TcpHeader → Bool
is_fin h = bit_set h.flags 0

unfoldable pub is_syn : TcpHeader → Bool
is_syn h = bit_set h.flags 1

unfoldable pub is_rst : TcpHeader → Bool
is_rst h = bit_set h.flags 2

unfoldable pub is_ack : TcpHeader → Bool
is_ack h = bit_set h.flags 4

abbrev pub flag_ack : ℕ
flag_ack = 0x10

-- `FLAG_ACK | FLAG_PSH`, `FLAG_FIN | FLAG_ACK` and `FLAG_RST | FLAG_ACK`
abbrev pub flags_ack_psh : ℕ
flags_ack_psh = 0x18

abbrev pub flags_fin_ack : ℕ
flags_fin_ack = 0x11

abbrev pub flags_rst_ack : ℕ
flags_rst_ack = 0x14

pub record Packet : Type 0 where
  pub source_ip : ℕ
  pub source_port : ℕ
  pub dest_ip : ℕ
  pub dest_port : ℕ
  pub seq_number : ℕ
  pub ack_number : ℕ
  pub flags : ℕ
  pub payload : List ℕ

pub data Output : Type 0 where
  complete : AsyncCallback → Result ℕ IoError → List ℕ → Output
  respond : Packet → Output

abbrev pub Step : Type 0
Step = List Output × TcpConnection

abbrev initial_state : Bool → TcpState
initial_state true = syn_sent
initial_state false = syn_received

unfoldable pub new : ℕ → ℕ → ℕ → ℕ → Bool → Option (AsyncCallback × Bool) → TcpConnection
new own_id local_port remote_address remote_port is_outbound on_connect = record {
  own_id = own_id;
  local_address = 0;
  local_port = local_port;
  remote_address = remote_address;
  remote_port = remote_port;
  state = initial_state is_outbound;
  last_sequence_sent = 0;
  last_sequence_received = 0;
  on_connect = on_connect;
  pending_reads = [];
  pending_writes = [];
  available_data = [];
}

-- A packet without data, with the connection's ports.
abbrev pub bare_packet : TcpConnection → ℕ → ℕ → ℕ → ℕ → ℕ → Output
bare_packet c local_addr remote_addr seq ack flags = respond (record {
  source_ip = local_addr;
  source_port = c.local_port;
  dest_ip = remote_addr;
  dest_port = c.remote_port;
  seq_number = seq;
  ack_number = ack;
  flags = flags;
  payload = [];
})

abbrev action_in : TcpState → TcpHeader → ℕ → TcpAction
action_in syn_sent h sent = if not (is_syn h) || not (is_ack h) then reset else connect_ack
action_in syn_received h sent =
    if not (is_ack h) then reset else if h.ack_number == add32 sent 1 then connect else reset
action_in established h sent = if is_fin h then fin_ack else if is_syn h then reset else enqueue
action_in last_ack h sent = close

unfoldable pub action_for_tcp_packet : TcpConnection → TcpHeader → TcpAction
action_for_tcp_packet c h = if is_rst h then close else action_in c.state h c.last_sequence_sent

-- The loops that complete all pending reads with `Ok(0)`, and all pending writes with an error.
unfoldable pub end_reads : List PendingRead → List Output
end_reads [] = []
end_reads (r ∷ rest) = complete r.callback (ok 0) [] ∷ end_reads rest

unfoldable pub fail_writes : List PendingWrite → List Output
fail_writes [] = []
fail_writes (w ∷ rest) = complete w.callback (err operation_failed) [] ∷ fail_writes rest

-- `process_ack`: what is completed, and the writes that stay.
unfoldable pub acknowledge : ℕ → List PendingWrite → List Output × List PendingWrite
acknowledge ack_number [] = ([], [])
acknowledge ack_number (w ∷ rest) =
    let (done, left) = acknowledge ack_number rest in
    if ltb (sub32 ack_number w.end_sequence) 0x80000000
    then (complete w.callback (ok w.total_len) [] ∷ done, left)
    else ([], w ∷ rest)

unfoldable pub process_ack : TcpConnection → TcpHeader → Step
unfolding acknowledge
process_ack c h =
    if is_ack h
    then (
      (acknowledge h.ack_number c.pending_writes).0,
      record c { pending_writes = (acknowledge h.ack_number c.pending_writes).1 },
    )
    else ([], c)

-- How much of the data the first pending read takes: its buffer up to the end of its page.
abbrev pub write_length : PendingRead → List ℕ → ℕ
write_length r payload = min (length payload) (min r.buffer_len (0x1000 - r.buffer_paddr % 0x1000))

abbrev deliver_to : TcpConnection → List PendingRead → List ℕ → Step
deliver_to c [] payload = ([], record c { available_data = c.available_data ++ payload })
deliver_to c (r ∷ rest) payload = (
  complete r.callback (ok (write_length r payload)) (take (write_length r payload) payload) ∷ [],
  record c {
    pending_reads = rest;
    available_data = c.available_data ++ drop (write_length r payload) payload;
  },
)

-- Data in sequence, in both places of `handle_packet` that take it.
unfoldable pub deliver : TcpConnection → TcpHeader → List ℕ → Step
deliver c h payload =
    let (outs, c') = deliver_to c c.pending_reads payload in
    (outs, record c' { last_sequence_received = add32 h.sequence_number (length payload) })
