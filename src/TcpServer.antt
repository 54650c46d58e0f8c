-- ===== src/TcpServer.antt =====
-- dag/tcp_server.h and dag/tcp_server.cpp: the sockets that a server listens on, and its loop that accepts. A
-- socket that goes out of scope is closed by its destructor. What is scheduled is a list of tasks;
-- whether the server was stopped meanwhile is read from what the system and the other fibers keep, `K`.
pub mod Binding
pub mod Tests
use dag.Common.{
  ℕ, zero, suc, ◌+◌, Bool, true, false, not, Option, some, none, List, [], ◌∷◌, ◌++◌, map,
  if◌then◌else◌, Outcome, ok, stuck, ◌>>=◌,
}
use dag.IoManager.{IoManager}
use dag.Socket.{
  Address, System, Socket, create_tcp_socket, bind, listen, accept, close, set_recv_timeout,
  cancel_all_events,
}

-- The tasks that a server schedules.
pub data Task : Type 0 where
  accept_on : Socket → Task
  handle_client : Socket → Task
  close_all : Task

pub record TcpServer : Type 0 where
  pub socks : List Socket
  pub recv_timeout : ℕ
  pub is_stop : Bool
  pub tasks : List Task

-- The constructor.
unfoldable pub init : TcpServer
init = record { socks = []; recv_timeout = 50000; is_stop = true; tasks = [] }

abbrev pub is_empty {ℓ} : {A : Type ℓ} → List A → Bool
is_empty [] = true
is_empty (x ∷ xs) = false

module _ {K : Type 0} (sys : System K) where
  -- `for(auto& i : m_socks) i->close();`, and what `m_socks.clear()` does by the destructors.
  abbrev pub close_each : List Socket → K → K
  close_each [] k = k
  close_each (s ∷ ss) k = close_each ss (close sys s k).2

  -- A socket bound to the address that listens, or none.
  unfoldable pub listen_on : Address → K → Option Socket × K
  listen_on addr k =
      let b = bind sys create_tcp_socket addr k in
      if b.0
      then (let l = listen sys b.1 4096 b.2 in
          if l.0 then (some b.1, l.1) else (none, (close sys b.1 l.1).2))
      else (none, (close sys b.1 b.2).2)

  -- The loop of `bind`: the sockets, the addresses that failed, and the system.
  unfoldable pub bind_loop :
      List Address → List Socket → List Address → K → List Socket × List Address × K
  bind_loop [] socks fails k = (socks, fails, k)
  bind_loop (addr ∷ addrs) socks fails k =
      let r = listen_on addr k in
      elim r.0 [
        | some sock ↦ bind_loop addrs (socks ++ sock ∷ []) fails r.1
        | none ↦ bind_loop addrs socks (fails ++ addr ∷ []) r.1
      ]

  -- `bind(addrs, fails)`: the result, the vector `fails` after it, and the server.
  unfoldable pub bind_all :
      TcpServer → List Address → List Address → K → Bool × List Address × TcpServer × K
  bind_all server addrs fails k =
      let r = bind_loop addrs server.socks fails k in
      if is_empty r.1
      then (true, r.1, record server { socks = r.0 }, r.2)
      else (false, r.1, record server { socks = [] }, close_each r.0 r.2)

  -- `startAccept`, where each round finds `is_stop` in what the others left.
  unfoldable pub start_accept :
      ℕ → (K → Bool) → ℕ → Socket → K → List Task → Outcome (List Task × K)
  start_accept zero is_stop recv_timeout sock k tasks = if is_stop k then ok (tasks, k) else stuck
  start_accept (suc fuel) is_stop recv_timeout sock k tasks = elim (is_stop k) [
    | true ↦ ok (tasks, k)
    | false ↦
        let a = accept sys sock k in
        elim a.0 [
          | none ↦ start_accept fuel is_stop recv_timeout sock a.1 tasks
          | some client ↦
              start_accept fuel is_stop recv_timeout sock
                (set_recv_timeout sys client recv_timeout a.1).1
                (tasks ++ handle_client client ∷ [])
        ]
  ]

  -- The loop of the task of `stop`, where `epoll_ctl` returns `rt`.
  unfoldable pub close_task : List Socket → IoManager → ℕ → K → Outcome (IoManager × K)
  close_task [] io rt k = ok (io, k)
  close_task (s ∷ ss) io rt k =
      cancel_all_events io s rt >>= λ r. close_task ss r.1 rt (close sys s k).2

  -- The same, then `m_socks.clear();`.
  unfoldable pub close_all_sockets :
      TcpServer → IoManager → ℕ → K → Outcome (TcpServer × IoManager × K)
  close_all_sockets server io rt k =
      close_task server.socks io rt k >>= λ r. ok (record server { socks = [] }, r.0, r.1)

unfoldable pub start : TcpServer → TcpServer
start server =
    if not server.is_stop
    then server
    else record server { is_stop = false; tasks = server.tasks ++ map accept_on server.socks }

unfoldable pub stop : TcpServer → TcpServer
stop server = record server { is_stop = true; tasks = server.tasks ++ close_all ∷ [] }
