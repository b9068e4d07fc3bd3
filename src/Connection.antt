-- ===== src/Connection.antt =====
-- corpc/net/tcp/tcp_connection.{h,cpp} and the reading and sending of corpc/net/net_socket.cc: one
-- connection, its two buffers and its state. The kernel's answers to read and write are arguments.
pub mod Socket
pub mod Input
pub mod Execute
pub mod Output
pub mod Loop
mod Tests
use corpc.Base.{
  ℕ, ◌+◌, ◌-◌, ◌*◌, Bool, true, false, not, Option, none, some, List, [], ◌∷◌, ◌++◌, length, ltb,
  leb, ◌==◌, if◌then◌else◌, ◌&&◌, ◌||◌, same_text, ◌>>=◌,
}
use corpc.Buffer.{TcpBuffer, create}
use corpc.Pb.Package.{PbStruct}

pub data TcpConnectionState : Type 0 where
  not_connected connected half_closing closed : TcpConnectionState

pub data ConnectionType : Type 0 where
  server_connection client_connection : ConnectionType

-- `m_reply_datas`, a map from request numbers.
abbrev pub ReplyMap : Type 0
ReplyMap = List ℕ → Option PbStruct

-- The members that the operations below read or write. A time is in milliseconds.
pub record TcpConnection : Type 0 where
  pub state : TcpConnectionState
  pub connection_type : ConnectionType
  pub read_buffer : TcpBuffer
  pub write_buffer : TcpBuffer
  pub stop : Bool
  pub is_over_time : Bool
  pub last_active_time : ℕ
  pub reply_datas : ReplyMap

-- The two constructors, without the socket and the codec.
unfoldable pub server_side : ℕ → TcpConnection
server_side buff_size = record {
  state = connected;
  connection_type = server_connection;
  read_buffer = create buff_size;
  write_buffer = create buff_size;
  stop = false;
  is_over_time = false;
  last_active_time = 0;
  reply_datas = λ msg_req. none;
}

unfoldable pub client_side : ℕ → TcpConnection
unfolding server_side
client_side buff_size = record (server_side buff_size) {
  state = not_connected;
  connection_type = client_connection;
}

abbrev pub is_closed : TcpConnectionState → Bool
is_closed closed = true
is_closed _ = false

-- `state == Closed || state == NotConnected`
abbrev pub is_gone : TcpConnectionState → Bool
is_gone closed = true
is_gone not_connected = true
is_gone _ = false

abbrev pub set_up_client : TcpConnection → TcpConnection
set_up_client c = record c { state = connected }

abbrev pub set_over_time_flag : TcpConnection → Bool → TcpConnection
set_over_time_flag c value = record c { is_over_time = value }

-- With whether the descriptor is closed.
unfoldable pub clear_client : TcpConnection → TcpConnection × Bool
clear_client c =
    if is_closed c.state then (c, false) else (record c { stop = true; state = closed }, true)

-- With whether the socket is shut down; the slot of the time wheel calls it.
unfoldable pub shutdown_connection : TcpConnection → TcpConnection × Bool
shutdown_connection c =
    if is_gone c.state then (c, false) else (record c { state = half_closing }, true)

-- `insert` of std::map keeps what a key has.
unfoldable pub insert_reply : ReplyMap → List ℕ → PbStruct → ReplyMap
insert_reply replies key data_ msg_req =
    if same_text msg_req key
    then elim (replies key) [ none ↦ some data_ | some old ↦ some old ]
    else replies msg_req

-- The reply to a request is taken out of the map.
unfoldable pub get_res_package_data : TcpConnection → List ℕ → Option PbStruct × TcpConnection
get_res_package_data c msg_req = elim (c.reply_datas msg_req) [
  | none ↦ (none, c)
  | some reply ↦ (
    some reply,
    record c { reply_datas = λ key. if same_text key msg_req then none else c.reply_datas key },
  )
]
