-- ===== src/TcpServer/Tests.antt =====
-- A server bound to two addresses of the system of the sockets' tests, of which one is no IPv4 address.
use dag.Common.{◌+◌, ◌≤◌, ◌≡◌, refl, true, List, [], ◌∷◌, if◌then◌else◌, length}
use dag.Socket.{Address}
use dag.Socket.Tests.{counting, remote}
use dag.TcpServer.{init, is_empty, bind_all}
use dag.TcpServer.Binding.{all_open, bind_all_lem}

abbrev addresses : List Address
addresses = remote ∷ record { family = 10; value = 1 } ∷ []

bind_all_lem_example :
    (let r = bind_all counting init addresses [] 3 in
      (r.0 ≡ is_empty r.1)
      × (0 ≤ length r.1)
      × (all_open r.2.socks ≡ true)
      × (length r.2.socks ≡ (if r.0 then length init.socks + length addresses else 0)))
unfolding init
bind_all_lem_example = bind_all_lem counting init addresses [] 3 refl
