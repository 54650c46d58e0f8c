-- ===== src/FdManager/Tests.antt =====
-- Runs of the table at concrete inputs, and the theorems on it applied there.
use dag.Common.{[], ◌∷◌, some, none, true, false}
use dag.FdManager.{Stat, Datas, new_ctx}

abbrev a_socket : Stat
a_socket = record { opened = true; socket = true; nonblock = false }

abbrev two_slots : Datas
two_slots = none ∷ some (new_ctx 1 a_socket) ∷ []
