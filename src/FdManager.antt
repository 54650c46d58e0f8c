-- ===== src/FdManager.antt =====
-- dag/fd_manager.h and dag/fd_manager.cpp: what is kept of a descriptor, and the table of it. A
-- shared pointer is an `Option` of the object: an `FdCtx` is changed through it only by its own
-- setters. What `fstat` and `fcntl` return is an argument; the time-outs are 64 bits wide. A
-- descriptor is -1 or not negative. Each call holds the mutex where it reads or writes the table,
-- and is taken as one step.
pub mod Table
pub mod Tests
use dag.Common.{
  ℕ, zero, suc, ◌+◌, ◌-◌, ◌/◌, ◌^◌, Bool, true, false, not, ◌&&◌, ◌||◌, Option, some, none, List,
  ◌++◌, ltb, leb, ◌==◌, if◌then◌else◌, Outcome, ok, fault, is_some, length, get_elem?, set, take,
  replicate,
}

pub record FdCtx : Type 0 where
  pub is_init : Bool
  pub is_socket : Bool
  pub sys_nonblock : Bool
  pub user_nonblock : Bool
  pub is_closed : Bool
  pub fd : ℕ
  pub recv_timeout : ℕ
  pub send_timeout : ℕ

-- What the system says of a descriptor: whether `fstat` succeeds, whether it is a socket, and whether
-- `O_NONBLOCK` is set.
pub record Stat : Type 0 where
  pub opened : Bool
  pub socket : Bool
  pub nonblock : Bool

-- `init`: the context, and whether `O_NONBLOCK` is set after it.
unfoldable pub init_ctx : FdCtx → Stat → Bool × FdCtx × Bool
init_ctx c stat =
    let found = record c {
      is_init = stat.opened;
      is_socket = stat.opened && stat.socket;
      sys_nonblock = stat.opened && stat.socket;
    } in
    if c.is_init
    then (true, c, stat.nonblock)
    else (stat.opened, found, if found.is_socket then true else stat.nonblock)

abbrev pub new_ctx : ℕ → Stat → FdCtx
new_ctx fd stat =
    let c : FdCtx = record {
      is_init = false;
      is_socket = false;
      sys_nonblock = false;
      user_nonblock = false;
      is_closed = false;
      fd = fd;
      recv_timeout = 2 ^ 64 - 1;
      send_timeout = 2 ^ 64 - 1;
    } in
    (init_ctx c stat).1

-- `setTimeout` and `getTimeout`, where `receive` is whether the type is `SO_RCVTIMEO`.
unfoldable pub set_timeout : FdCtx → Bool → ℕ → FdCtx
set_timeout c receive v =
    if receive then record c { recv_timeout = v } else record c { send_timeout = v }

unfoldable pub get_timeout : FdCtx → Bool → ℕ
get_timeout c receive = if receive then c.recv_timeout else c.send_timeout

-- `m_datas`
abbrev pub Datas : Type 0
Datas = List (Option FdCtx)

unfoldable pub init : Datas
init = replicate 64 none

-- `m_datas.resize(size)`
abbrev pub resize : ℕ → Datas → Datas
resize size datas = take size datas ++ replicate (size - length datas) none

-- `m_datas[fd]`, read.
abbrev pub data_at : Datas → ℕ → Option FdCtx
data_at datas fd = elim (get_elem? datas fd) [ none ↦ none | some c ↦ c ]

-- The second half of `get`, under the write lock.
unfoldable pub create : Datas → ℕ → Stat → Outcome (Option FdCtx × Datas)
create datas fd stat =
    let larger = if leb (length datas) fd then resize (fd + fd / 2) datas else datas in
    if ltb fd (length larger)
    then ok (some (new_ctx fd stat), set larger fd (some (new_ctx fd stat)))
    else fault

-- `get(fd, auto_create)`; `none` for the descriptor is -1.
unfoldable pub get : Datas → Option ℕ → Bool → Stat → Outcome (Option FdCtx × Datas)
get datas none auto_create stat = ok (none, datas)
get datas (some fd) auto_create stat =
    if leb (length datas) fd
    then if auto_create then create datas fd stat else ok (none, datas)
    else if is_some (data_at datas fd) || not auto_create
    then ok (data_at datas fd, datas)
    else create datas fd stat

unfoldable pub del : Datas → ℕ → Datas
del datas fd = if leb (length datas) fd then datas else set datas fd none
