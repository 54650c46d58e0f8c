-- ===== src/Socket/Connected.antt =====
-- A connected socket has a descriptor.
use dag.Common.{
  List, [], ◌∷◌, ◌⊎◌, ℕ, ◌≡◌, refl, ap, sym, ◌∙◌, Bool, true, ◌&&◌, Option, some, none, ◌==◌,
  if◌then◌else◌, if_both, is_some, Bool-cases, Option-cases, inl, inr, and_left,
}
use dag.Socket.{
  Address, System, Socket, create_tcp, new_sock, ensure_sock, get_local_address, get_remote_address,
  init, close, bind, connect_sock, connect, listen, transfer,
}

-- Not connected, or with a descriptor.
abbrev pub Coherent : Socket → Type 0
Coherent s = (s.is_connected ≡ true) → is_some s.sock ≡ true

-- A call on a socket. What it asks of the system and the addresses it keeps come with it.
pub data Call : Type 0 where
  inits : ℕ → Call
  binds : Address → Call
  listens : ℕ → Call
  connects : Address → Option ℕ → Call
  closes : Call
  gets_local_address : Call
  gets_remote_address : Call

module _ {K : Type 0} (sys : System K) where
  abbrev pub run_call : Call → Socket × K → Socket × K
  run_call (inits fd) (s, k) = let r = init sys s fd k in (r.1, r.2)
  run_call (binds addr) (s, k) = let r = bind sys s addr k in (r.1, r.2)
  run_call (listens backlog) (s, k) = (s, (listen sys s backlog k).1)
  run_call (connects addr timeout_ms) (s, k) = let r = connect sys s addr timeout_ms k in (r.1, r.2)
  run_call closes (s, k) = let r = close sys s k in (r.1, r.2)
  run_call gets_local_address (s, k) = let r = get_local_address sys s k in (r.1, r.2)
  run_call gets_remote_address (s, k) = let r = get_remote_address sys s k in (r.1, r.2)

  abbrev pub run_calls : List Call → Socket × K → Socket × K
  run_calls [] r = r
  run_calls (c ∷ cs) r = run_calls cs (run_call c r)

  ensure-Coherent : (s : Socket) (k : K) → Coherent s → Coherent (ensure_sock sys s k).0
  unfolding new_sock
  ensure-Coherent s k h = elim (Bool-cases (is_some s.sock)) [
    | inl e ↦ rw (ensure_sock, e) h
    | inr e ↦ rw (ensure_sock, e) (λ c. absurd (cc (h c, e)))
  ]

  close-Coherent : (s : Socket) (k : K) → Coherent (close sys s k).1
  unfolding close
  close-Coherent s k = elim (Option-cases s.sock) [
    | inl e ↦ rw (e, close) (λ c. absurd (cc c))
    | inr (fd, e) ↦ rw (e, close) (λ c. absurd (cc c))
  ]

  connect_sock-Coherent :
      (s : Socket) (k : K) (addr : Address) (timeout_ms : Option ℕ)
      → is_some s.sock ≡ true
      → Coherent (connect_sock sys (s, k) addr timeout_ms).1
  unfolding get_local_address get_remote_address
  connect_sock-Coherent s k addr timeout_ms h =
      if_both (λ (r : Bool × Socket × K). Coherent r.1) (sys.connect s.sock addr timeout_ms k).0
        (λ c. h) (close-Coherent s _)

  connect-Coherent :
      (s : Socket) (k : K) (addr : Address) (timeout_ms : Option ℕ)
      → Coherent s
      → Coherent (connect sys s addr timeout_ms k).1
  unfolding connect
  connect-Coherent s k addr timeout_ms h =
      let e = ensure_sock sys s k in
      let test = is_some e.0.sock && (addr.family == e.0.family) in
      elim (Bool-cases test) [
        | inl b ↦
            rw (b, connect)
              (connect_sock-Coherent e.0 e.1 addr timeout_ms
                (and_left (is_some e.0.sock) (addr.family == e.0.family) b))
        | inr b ↦ rw (b, connect) (ensure-Coherent s k h)
      ]

  bind-Coherent :
      (s : Socket) (k : K) (addr : Address) → Coherent s → Coherent (bind sys s addr k).1
  unfolding bind get_local_address
  bind-Coherent s k addr h =
      let e = ensure_sock sys s k in
      let kept = ensure-Coherent s k h in
      if_both (λ (r : Bool × Socket × K). Coherent r.1)
        (is_some e.0.sock && (addr.family == e.0.family))
        (if_both (λ (r : Bool × Socket × K). Coherent r.1) (sys.bind e.0.sock addr e.1).0 kept kept)
        kept

  init-Coherent : (s : Socket) (fd : ℕ) (k : K) → Coherent s → Coherent (init sys s fd k).1
  unfolding init get_local_address get_remote_address
  init-Coherent s fd k h =
      if_both (λ (r : Bool × Socket × K). Coherent r.1) (sys.is_open_socket fd k) (λ c. refl) h

  call-Coherent : (c : Call) (s : Socket) (k : K) → Coherent s → Coherent (run_call c (s, k)).0
  unfolding get_local_address get_remote_address
  call-Coherent (inits fd) s k h = init-Coherent s fd k h
  call-Coherent (binds addr) s k h = bind-Coherent s k addr h
  call-Coherent (listens backlog) s k h = h
  call-Coherent (connects addr timeout_ms) s k h = connect-Coherent s k addr timeout_ms h
  call-Coherent closes s k h = close-Coherent s k
  call-Coherent gets_local_address s k h = h
  call-Coherent gets_remote_address s k h = h

  calls-Coherent :
      (cs : List Call) (s : Socket) (k : K) → Coherent s → Coherent (run_calls cs (s, k)).0
  calls-Coherent [] s k h = h
  calls-Coherent (c ∷ cs) s k h =
      let r = run_call c (s, k) in calls-Coherent cs r.0 r.1 (call-Coherent c s k h)

  -- Whatever is called on a socket of `CreateTCP`, a `send` or `recv` after it either returns -1 and does
  -- not call the system, or calls the system with a descriptor that is not -1.
  pub transfer-run_calls :
      {A : Type 0} (address : Address) (cs : List Call) (k : K) (fun : Option ℕ → K → Option A × K)
      → (let r = run_calls cs (create_tcp address, k) in
          (transfer sys fun r.0 r.1 ≡ (none, r.1))
          ⊎ ((fd : ℕ) × (transfer sys fun r.0 r.1 ≡ fun (some fd) r.1)))
  unfolding transfer create_tcp
  transfer-run_calls address cs k fun =
      let r = run_calls cs (create_tcp address, k) in
      let coherent = calls-Coherent cs (create_tcp address) k (λ c. absurd (cc c)) in
      elim (Bool-cases r.0.is_connected) [
        | inr e ↦ inl (rw e refl)
        | inl e ↦ elim (Option-cases r.0.sock) [
          | inl n ↦ absurd (cc (sym (coherent e) ∙ ap is_some n))
          | inr (fd, f) ↦
              inr (
                fd,
                ap (λ b. if b then fun r.0.sock r.1 else (none, r.1)) e ∙ ap (λ o. fun o r.1) f,
              )
        ]
      ]
