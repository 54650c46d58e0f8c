-- ===== src/Socket.antt =====
-- dag/socket.h and dag/socket.cpp: a socket and its operations. The system is a record of its calls over
-- what it keeps, `K`; `none` is the descriptor -1. What `send` and `recv` with their variants do
-- is one call of the system each, given as an argument. An address is its family and a number.
pub mod Connected
pub mod Tests
use dag.Common.{
  ℕ, ◌*◌, ◌/◌, ◌%◌, ◌^◌, Bool, true, false, not, ◌&&◌, ◌||◌, Option, some, none, ◌==◌,
  if◌then◌else◌, is_some, Outcome, ok, fault, ◌>>=◌, deref,
}
use dag.IoManager.{IoManager, on_read, on_write, cancel_event, cancel_all}

pub record Address : Type 0 where
  pub family : ℕ
  pub value : ℕ

-- `IPv4`, `SOCK_STREAM` and `SOCK_DGRAM`
abbrev pub ipv4 : ℕ
ipv4 = 2

abbrev pub tcp : ℕ
tcp = 1

abbrev pub udp : ℕ
udp = 2

-- The options that the class sets.
pub data SocketOption : Type 0 where
  reuse_addr : SocketOption
  tcp_nodelay : SocketOption
  send_timeout : ℕ → ℕ → SocketOption
  recv_timeout : ℕ → ℕ → SocketOption

-- The calls; `true` is the result 0. `is_open_socket` is whether the table of descriptors has an open
-- socket there. The time-out of `connect` is `none` for -1.
pub record System (K : Type 0) : Type 0 where
  pub socket : ℕ → ℕ → ℕ → K → Option ℕ × K
  pub bind : Option ℕ → Address → K → Bool × K
  pub listen : Option ℕ → ℕ → K → Bool × K
  pub connect : Option ℕ → Address → Option ℕ → K → Bool × K
  pub accept : Option ℕ → K → Option ℕ × K
  pub close : ℕ → K → K
  pub set_option : Option ℕ → SocketOption → K → Bool × K
  pub get_error : Option ℕ → K → Option ℕ × K
  pub errno : K → ℕ
  pub get_sock_name : Option ℕ → K → Option Address × K
  pub get_peer_name : Option ℕ → K → Option Address × K
  pub is_open_socket : ℕ → K → Bool

pub record Socket : Type 0 where
  pub sock : Option ℕ
  pub family : ℕ
  pub type : ℕ
  pub protocol : ℕ
  pub is_connected : Bool
  pub local_address : Option Address
  pub remote_address : Option Address

-- The constructor.
abbrev pub new_socket : ℕ → ℕ → ℕ → Socket
new_socket family type protocol = record {
  sock = none;
  family = family;
  type = type;
  protocol = protocol;
  is_connected = false;
  local_address = none;
  remote_address = none;
}

unfoldable pub create_tcp : Address → Socket
create_tcp address = new_socket address.family tcp 0

unfoldable pub create_tcp_socket : Socket
create_tcp_socket = new_socket ipv4 tcp 0

-- `UnknownAddress(family)`
abbrev pub unknown_address : ℕ → Address
unknown_address family = record { family = family; value = 0 }

module _ {K : Type 0} (sys : System K) where
  -- `initSock` and `newSock`
  abbrev pub init_sock : Socket → K → K
  init_sock s k =
      let k1 = (sys.set_option s.sock reuse_addr k).1 in
      if s.type == tcp then (sys.set_option s.sock tcp_nodelay k1).1 else k1

  abbrev pub init_if : Socket × K → Socket × K
  init_if (s, k) = (s, if is_some s.sock then init_sock s k else k)

  unfoldable pub new_sock : Socket → K → Socket × K
  new_sock s k =
      let r = sys.socket s.family s.type s.protocol k in init_if (record s { sock = r.0 }, r.1)

  unfoldable pub create_udp : ℕ → K → Socket × K
  create_udp family k =
      let r = new_sock (new_socket family udp 0) k in (record r.0 { is_connected = true }, r.1)

  -- `getLocalAddress` and `getRemoteAddress`, by what is kept.
  abbrev pub fetched : ℕ → Option Address → Option Address → Address × Option Address
  fetched family (some kept) found = (kept, some kept)
  fetched family none none = (unknown_address family, none)
  fetched family none (some address) = (address, some address)

  abbrev pub ask : Option Address → Option Address × K → K → K
  ask (some kept) answer k = k
  ask none answer k = answer.1

  unfoldable pub get_local_address : Socket → K → Address × Socket × K
  get_local_address s k =
      let answer = sys.get_sock_name s.sock k in
      let r = fetched s.family s.local_address answer.0 in
      (r.0, record s { local_address = r.1 }, ask s.local_address answer k)

  unfoldable pub get_remote_address : Socket → K → Address × Socket × K
  get_remote_address s k =
      let answer = sys.get_peer_name s.sock k in
      let r = fetched s.family s.remote_address answer.0 in
      (r.0, record s { remote_address = r.1 }, ask s.remote_address answer k)

  -- Both addresses, kept.
  abbrev pub keep_addresses : Socket → K → Socket × K
  keep_addresses s k =
      let l = get_local_address s k in let r = get_remote_address l.1 l.2 in (r.1, r.2)

  unfoldable pub init : Socket → ℕ → K → Bool × Socket × K
  init s fd k =
      if sys.is_open_socket fd k
      then (let taken = record s { sock = some fd; is_connected = true } in
          let r = keep_addresses taken (init_sock taken k) in (true, r.0, r.1))
      else (false, s, k)

  unfoldable pub close : Socket → K → Bool × Socket × K
  close s k = elim s.sock [
    | none ↦ (not s.is_connected, record s { is_connected = false }, k)
    | some fd ↦ (false, record s { is_connected = false; sock = none }, sys.close fd k)
  ]

  -- `accept`: the new socket. The one made for a descriptor that is no open socket is destroyed unused.
  unfoldable pub accept : Socket → K → Option Socket × K
  accept s k =
      let r = sys.accept s.sock k in
      elim r.0 [
        | none ↦ (none, r.1)
        | some fd ↦
            let i = init (new_socket s.family s.type s.protocol) fd r.1 in
            (if i.0 then some i.1 else none, i.2)
      ]

  -- `if(!isValid()) newSock();`
  abbrev pub ensure_sock : Socket → K → Socket × K
  ensure_sock s k = if is_some s.sock then (s, k) else new_sock s k

  -- `bind` on a descriptor, of an address of the socket's family.
  abbrev pub bind_sock : Socket × K → Address → Bool × Socket × K
  bind_sock (s, k) addr =
      let r = sys.bind s.sock addr k in
      if r.0 then (let l = get_local_address s r.1 in (true, l.1, l.2)) else (false, s, r.1)

  unfoldable pub bind : Socket → Address → K → Bool × Socket × K
  bind s addr k =
      let e = ensure_sock s k in
      if is_some e.0.sock && (addr.family == e.0.family)
      then bind_sock e addr
      else (false, e.0, e.1)

  unfoldable pub listen : Socket → ℕ → K → Bool × K
  listen s backlog k = if is_some s.sock then sys.listen s.sock backlog k else (false, k)

  abbrev pub connect_sock : Socket × K → Address → Option ℕ → Bool × Socket × K
  connect_sock (s, k) addr timeout_ms =
      let r = sys.connect s.sock addr timeout_ms k in
      if r.0
      then (let p = get_remote_address (record s { is_connected = true }) r.1 in
          let l = get_local_address p.1 p.2 in (true, l.1, l.2))
      else (let c = close s r.1 in (false, c.1, c.2))

  unfoldable pub connect : Socket → Address → Option ℕ → K → Bool × Socket × K
  connect s addr timeout_ms k =
      let e = ensure_sock s k in
      if is_some e.0.sock && (addr.family == e.0.family)
      then connect_sock e addr timeout_ms
      else (false, e.0, e.1)

  -- `send`, `sendTo`, `recv` and `recvFrom`, by their system call: `none` for -1.
  unfoldable pub transfer : {A : Type 0} → (Option ℕ → K → Option A × K) → Socket → K → Option A × K
  transfer fun s k = if s.is_connected then fun s.sock k else (none, k)

  -- `SetSendTimeout` and `setRecvTimeout`, for a time that is not negative; an `int` has 32 bits.
  unfoldable pub set_send_timeout : Socket → ℕ → K → Bool × K
  set_send_timeout s v k =
      sys.set_option s.sock (send_timeout (v / 1000 % 2 ^ 32) (v % 1000 * 1000)) k

  unfoldable pub set_recv_timeout : Socket → ℕ → K → Bool × K
  set_recv_timeout s v k =
      sys.set_option s.sock (recv_timeout (v / 1000 % 2 ^ 32) (v % 1000 * 1000)) k

  unfoldable pub get_error : Socket → K → ℕ × K
  get_error s k =
      let r = sys.get_error s.sock k in
      elim r.0 [ none ↦ (sys.errno r.1, r.1) | some error ↦ (error, r.1) ]

-- `cancelRead` and `cancelAccept`, `cancelWrite`, `cancelAll`, where `epoll_ctl` returns `rt`. The
-- descriptor -1 is beyond the table.
unfoldable pub cancel_read : IoManager → Socket → ℕ → Outcome (Bool × IoManager)
cancel_read io s rt = deref s.sock >>= λ fd. cancel_event io fd on_read rt

unfoldable pub cancel_write : IoManager → Socket → ℕ → Outcome (Bool × IoManager)
cancel_write io s rt = deref s.sock >>= λ fd. cancel_event io fd on_write rt

unfoldable pub cancel_all_events : IoManager → Socket → ℕ → Outcome (Bool × IoManager)
cancel_all_events io s rt = deref s.sock >>= λ fd. cancel_all io fd rt
