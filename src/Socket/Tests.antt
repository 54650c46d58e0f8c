-- ===== src/Socket/Tests.antt =====
-- A system of sockets that numbers its descriptors from what it keeps, and calls on a socket of it.
use dag.Common.{ℕ, ◌+◌, ◌≡◌, ◌⊎◌, true, Option, some, none, [], ◌∷◌}
use dag.Socket.{Address, System, create_tcp, ipv4, transfer}
use dag.Socket.Connected.{connects, closes, run_calls, transfer-run_calls}

abbrev pub local : Address
local = record { family = ipv4; value = 1 }

abbrev pub remote : Address
remote = record { family = ipv4; value = 2 }

-- It gives each socket the next number, and accepts nothing that it does not know.
abbrev pub counting : System ℕ
counting = record {
  socket = λ family type protocol k. (some k, k + 1);
  bind = λ fd address k. (true, k);
  listen = λ fd backlog k. (true, k);
  connect = λ fd address timeout_ms k. (true, k);
  accept = λ fd k. (some k, k + 1);
  close = λ fd k. k;
  set_option = λ fd option k. (true, k);
  get_error = λ fd k. (some 0, k);
  errno = λ k. 0;
  get_sock_name = λ fd k. (some local, k);
  get_peer_name = λ fd k. (some remote, k);
  is_open_socket = λ fd k. true;
}

abbrev echo : Option ℕ → ℕ → Option ℕ × ℕ
echo fd k = (fd, k)

transfer-run_calls_example :
    (let r =
        run_calls counting
          (connects remote none ∷ closes ∷ connects remote none ∷ [])
          (create_tcp remote, 3) in
      (transfer counting echo r.0 r.1 ≡ (none, r.1))
      ⊎ ((fd : ℕ) × (transfer counting echo r.0 r.1 ≡ echo (some fd) r.1)))
transfer-run_calls_example =
    transfer-run_calls counting remote (connects remote none ∷ closes ∷ connects remote none ∷ []) 3
      echo
