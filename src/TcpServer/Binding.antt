-- ===== src/TcpServer/Binding.antt =====
-- What `bind` leaves in the server.
use dag.Common.{
  ℕ, ◌+◌, ◌≤◌, ◌≡◌, refl, sym, subst, Bool, true, false, Option, some, List, [], ◌∷◌, ◌++◌,
  if◌then◌else◌, is_some, length, length-append, arith, Bool-cases, Option-cases, inl, inr,
  if_split,
}
use dag.Socket.{Address, System, Socket, bind, listen, create_tcp_socket}
use dag.TcpServer.{TcpServer, is_empty, listen_on, bind_loop, bind_all}

abbrev pub all_open : List Socket → Bool
all_open [] = true
all_open (s ∷ ss) = if is_some s.sock then all_open ss else false

all_open-append :
    (ss : List Socket) (s : Socket)
    → all_open ss ≡ true
    → is_some s.sock ≡ true
    → all_open (ss ++ s ∷ []) ≡ true
all_open-append [] s h k = rw k refl
all_open-append (x ∷ xs) s h k = elim (if_split (λ b. b ≡ true) (is_some x.sock) h) [
  | inl (e, t) ↦ rw e (all_open-append xs s t k)
  | inr (e, t) ↦ absurd (cc t)
]

none_left : {A : Type 0} (xs : List A) → is_empty xs ≡ true → length xs ≡ 0
none_left [] h = refl
none_left (x ∷ xs) h = absurd (cc h)

module _ {K : Type 0} (sys : System K) where
  listen_open :
      (s : Socket) (backlog : ℕ) (k : K) → (listen sys s backlog k).0 ≡ true → is_some s.sock ≡ true
  unfolding listen
  listen_open s backlog k h = elim (Bool-cases (is_some s.sock)) [
    | inl e ↦ e
    | inr e ↦ absurd (cc (rw (e, listen) at h))
  ]

  listen_on-open :
      (addr : Address) (k : K) (s : Socket)
      → (listen_on sys addr k).0 ≡ some s
      → is_some s.sock ≡ true
  unfolding listen_on
  listen_on-open addr k s h =
      let b = bind sys create_tcp_socket addr k in
      let l = listen sys b.1 4096 b.2 in
      elim (if_split (λ (r : Option Socket × K). r.0 ≡ some s) b.0 h) [
        | inr (_, h1) ↦ absurd (cc h1)
        | inl (_, h1) ↦ elim (if_split (λ (r : Option Socket × K). r.0 ≡ some s) l.0 h1) [
          | inr (_, h2) ↦ absurd (cc h2)
          | inl (e, h2) ↦
              let same : b.1 ≡ s = cc h2 in
              subst (λ (u : Socket). is_some u.sock ≡ true) same (listen_open b.1 4096 b.2 e)
        ]
      ]

  -- The sockets are all open, each address gave one or failed, and none is taken off the vector `fails`.
  abbrev Bound : List Socket × List Address × K → ℕ → ℕ → Type 0
  Bound r n failed = (all_open r.0 ≡ true) × (length r.0 + length r.1 ≡ n) × (failed ≤ length r.1)

  bind_loop-Bound :
      (addrs : List Address) (socks : List Socket) (fails : List Address) (k : K)
      → all_open socks ≡ true
      → Bound
          (bind_loop sys addrs socks fails k)
          (length socks + length fails + length addrs)
          (length fails)
  unfolding bind_loop
  bind_loop-Bound [] socks fails k h = (h, omega arith, omega arith)
  bind_loop-Bound (addr ∷ addrs) socks fails k h =
      let next = (listen_on sys addr k).1 in
      elim (Option-cases (listen_on sys addr k).0) [
        | inl e ↦
            let (opened, counted, more) = bind_loop-Bound addrs socks (fails ++ addr ∷ []) next h in
            rw (e, bind_loop)
              (
                opened,
                omega (arith, counted, length-append fails (addr ∷ [])),
                omega (arith, more, length-append fails (addr ∷ [])),
              )
        | inr (s, e) ↦
            let (opened, counted, more) =
              bind_loop-Bound addrs (socks ++ s ∷ []) fails next
                (all_open-append socks s h (listen_on-open addr k s e)) in
            rw (e, bind_loop) (opened, omega (arith, counted, length-append socks (s ∷ [])), more)
      ]

  -- On a server whose sockets all have a descriptor, `bind` returns true just if the vector `fails` is empty after
  -- it, so never where that has addresses before the call. It then has added one socket for each
  -- address, and every socket of the server has a descriptor. If it returns false, the server has no socket
  -- any more, also none that an earlier `bind` gave it.
  pub bind_all_lem :
      (server : TcpServer) (addrs fails : List Address) (k : K)
      → all_open server.socks ≡ true
      → (let r = bind_all sys server addrs fails k in
          (r.0 ≡ is_empty r.1)
          × (length fails ≤ length r.1)
          × (all_open r.2.socks ≡ true)
          × (length r.2.socks ≡ (if r.0 then length server.socks + length addrs else 0)))
  unfolding bind_all
  bind_all_lem server addrs fails k h =
      let r = bind_loop sys addrs server.socks fails k in
      let (opened, counted, more) = bind_loop-Bound addrs server.socks fails k h in
      elim (Bool-cases (is_empty r.1)) [
        | inl e ↦
            rw (e, bind_all) (sym e, more, opened, omega (arith, counted, more, none_left r.1 e))
        | inr e ↦ rw (e, bind_all) (sym e, more, refl, refl)
      ]
