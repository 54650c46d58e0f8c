-- ===== src/SocketStream/Tests.antt =====
-- A connected socket of the system of the sockets' tests whose `send` takes two bytes.
use dag.Common.{ℕ, ◌≡◌, refl, true, Option, some, List, ok, arith}
use dag.Memory.{flat}
use dag.ByteArray.{ByteArray}
use dag.ByteArray.Tests.{held, held-IsValid}
use dag.Socket.{Socket, new_socket, ipv4, tcp}
use dag.Socket.Tests.{counting}
use dag.SocketStream.{SocketStream, write_array}
use dag.SocketStream.Writing.{Moved, write_array_lem}

abbrev connected : Socket
connected = record (new_socket ipv4 tcp 0) { sock = some 3; is_connected = true }

abbrev stream : SocketStream
stream = record { socket = some connected; owner = true }

abbrev takes_two : Option ℕ → List ℕ → ℕ → Option ℕ × ℕ
takes_two fd bytes k = (some 2, k)

write_array_lem_example :
    (t : ByteArray) × (write_array counting takes_two stream held 3 0 ≡ ok (some 2, t, 0))
    × Moved held 2 t
unfolding flat
write_array_lem_example =
    write_array_lem counting takes_two stream connected held 3 0 refl refl held-IsValid
      (omega arith) (omega arith)
