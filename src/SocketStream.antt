-- ===== src/SocketStream.antt =====
-- dag/stream/socket_stream.h and dag/stream/socket_stream.cpp: a stream over a socket. `send` and `recv`
-- are the calls of the system on the bytes of a list of buffers: how many bytes went, or the bytes that
-- came, `none` for -1.
pub mod Writing
pub mod Tests
use dag.Common.{
  ℕ, ◌+◌, Bool, true, false, ◌&&◌, Option, some, none, List, [], ◌∷◌, length, ◌==◌, if◌then◌else◌,
  is_some, Outcome, ok, fault, ◌>>=◌,
}
use dag.ByteArray.{ByteArray, set_position}
use dag.ByteArray.Buffers.{Iovec, get_read_buffers, get_write_buffers, gather, scatter}
use dag.Socket.{Address, System, Socket, get_local_address, get_remote_address, transfer, close}

-- The socket is shared with others; `none` is a null pointer.
pub record SocketStream : Type 0 where
  pub socket : Option Socket
  pub owner : Bool

unfoldable pub is_connected : SocketStream → Bool
is_connected s = elim s.socket [ none ↦ false | some sock ↦ sock.is_connected ]

-- `&iovs[0]`, which an empty vector does not have.
abbrev pub front : List Iovec → Outcome (List Iovec)
front [] = fault
front (v ∷ vs) = ok (v ∷ vs)

-- `if(rt > 0) ba->setPosition(ba->getPosition() + rt);`
abbrev pub advance : ByteArray → Option ℕ → Outcome ByteArray
advance ba none = ok ba
advance ba (some n) = if n == 0 then ok ba else set_position ba (ba.position + n)

-- What `recv` put into the blocks.
abbrev pub receive : ByteArray → List Iovec → Option (List ℕ) → Outcome ByteArray
receive ba iovs none = ok ba
receive ba iovs (some buf) =
    advance (record ba { nodes = scatter ba.nodes iovs buf }) (some (length buf))

module _ {K : Type 0} (sys : System K) where
  -- The calls through `m_socket`; a stream without one returns -1.
  abbrev pub through :
      {A : Type 0} → (Option ℕ → K → Option A × K) → Option Socket → K → Option A × K
  through fun none k = (none, k)
  through fun (some sock) k = transfer sys fun sock k

  -- `read(buffer, length)` and `write(buffer, length)`, by the call of the system.
  unfoldable pub transfer_buffer :
      {A : Type 0} → (Option ℕ → K → Option A × K) → SocketStream → K → Option A × K
  transfer_buffer fun s k = if is_connected s then through fun s.socket k else (none, k)

  unfoldable pub write_array :
      (Option ℕ → List ℕ → K → Option ℕ × K)
      → SocketStream
      → ByteArray
      → ℕ
      → K
      → Outcome (Option ℕ × ByteArray × K)
  write_array send s ba len k =
      if is_connected s
      then (get_read_buffers ba len >>= λ r. front r.1 >>= λ iovs. gather ba.nodes iovs >>= λ bytes.
          (let rt = through (λ fd. send fd bytes) s.socket k in
            advance ba rt.0 >>= λ moved. ok (rt.0, moved, rt.1)))
      else ok (none, ba, k)

  unfoldable pub read_array :
      (Option ℕ → ℕ → K → Option (List ℕ) × K)
      → SocketStream
      → ByteArray
      → ℕ
      → K
      → Outcome (Option (List ℕ) × ByteArray × K)
  read_array recv s ba len k =
      if is_connected s
      then (get_write_buffers ba len >>= λ r. front r.1 >>= λ iovs.
          (let rt = through (λ fd. recv fd len) s.socket k in
            receive r.2 iovs rt.0 >>= λ moved. ok (rt.0, moved, rt.1)))
      else ok (none, ba, k)

  abbrev pub close_socket : Option Socket → K → Option Socket × K
  close_socket none k = (none, k)
  close_socket (some sock) k = let r = close sys sock k in (some r.1, r.2)

  unfoldable pub close_stream : SocketStream → K → SocketStream × K
  close_stream s k = let r = close_socket s.socket k in (record s { socket = r.0 }, r.1)

  -- The destructor: the socket as the others that hold it see it.
  unfoldable pub destroy : SocketStream → K → Option Socket × K
  destroy s k = if s.owner && is_some s.socket then close_socket s.socket k else (s.socket, k)

  -- An address of the socket, or a null pointer.
  abbrev pub address_by :
      (Socket → K → Address × Socket × K) → Option Socket → K → Option Address × Option Socket × K
  address_by of none k = (none, none, k)
  address_by of (some sock) k = let r = of sock k in (some r.0, some r.1, r.2)

  unfoldable pub stream_remote_address : SocketStream → K → Option Address × SocketStream × K
  stream_remote_address s k =
      let r = address_by (get_remote_address sys) s.socket k in
      (r.0, record s { socket = r.1 }, r.2)

  unfoldable pub stream_local_address : SocketStream → K → Option Address × SocketStream × K
  stream_local_address s k =
      let r = address_by (get_local_address sys) s.socket k in (r.0, record s { socket = r.1 }, r.2)
