-- ===== src/SocketStream/Writing.antt =====
-- What `write` of a buffer sends, and what is left unread.
use dag.Common.{
  ℕ, zero, suc, ◌+◌, ◌≤◌, ◌<◌, ◌≡◌, refl, ap, sym, ◌∙◌, true, Option, some, none, List, [], ◌∷◌,
  length, take, drop, if◌then◌else◌, Outcome, ok, ◌>>=◌, arith, drop-drop, take_all, length-take,
  length-drop, ne→==,
}
use dag.ByteArray.{ByteArray, set_position}
use dag.ByteArray.Valid.{IsValid, bytes, unread, length-bytes}
use dag.ByteArray.Seek.{set_position_lem}
use dag.ByteArray.Buffers.{Iovec, get_read_buffers, gather}
use dag.ByteArray.Gather.{gather-get_read_buffers}
use dag.Socket.{System, Socket, transfer}
use dag.SocketStream.{SocketStream, is_connected, front, advance, through, write_array}

abbrev pub count : Option ℕ → ℕ
count none = 0
count (some n) = n

-- A valid buffer without the first `n` of its unread bytes.
pub record Moved (s : ByteArray) (n : ℕ) (t : ByteArray) : Type 0 where
  pub valid : IsValid t
  pub left : unread t ≡ drop n (unread s)

set_position-Moved :
    (s : ByteArray) (n : ℕ)
    → IsValid s
    → n ≤ length (unread s)
    → (t : ByteArray) × (set_position s (s.position + n) ≡ ok t) × Moved s n t
set_position-Moved s n v h =
    let inside : s.position + n ≤ s.size =
      omega (arith, h, length-drop s.position (bytes s), length-bytes v, v.read_le) in
    let (t, run, r) = set_position_lem s (s.position + n) v (omega (arith, inside, v.size_le)) in
    let whole : bytes t ≡ bytes s =
      sym (take_all s.size (bytes t) (omega (arith, length-bytes r.valid, r.size_lem, inside)))
      ∙ r.kept in
    (
      t,
      run,
      record {
        valid = r.valid;
        left =
            ap (λ k. drop k (bytes t)) r.position_lem
            ∙ ap (λ l. drop (s.position + n) l) whole
            ∙ sym (drop-drop s.position n (bytes s));
      },
    )

advance-Moved :
    (s : ByteArray) (o : Option ℕ)
    → IsValid s
    → count o ≤ length (unread s)
    → (t : ByteArray) × (advance s o ≡ ok t) × Moved s (count o) t
advance-Moved s none v h = (s, refl, record { valid = v; left = refl })
advance-Moved s (some zero) v h = (s, refl, record { valid = v; left = refl })
advance-Moved s (some (suc n)) v h =
    let (t, run, moved) = set_position-Moved s (suc n) v h in
    (
      t,
      ap (λ b. if b then ok s else set_position s (s.position + suc n))
            (ne→== (suc n) 0 (λ e. omega (arith, e)))
          ∙ run,
      moved,
    )

front-some :
    (iovs : List Iovec) (nodes : List (List ℕ)) (bytes : List ℕ)
    → gather nodes iovs ≡ ok bytes
    → 0 < length bytes
    → front iovs ≡ ok iovs
front-some [] nodes bytes g h =
    let none_named : [] ≡ bytes = cc g in absurd (omega (arith, ap length none_named, h))
front-some (v ∷ vs) nodes bytes g h = refl

is_connected-some :
    (s : SocketStream) (sock : Socket)
    → s.socket ≡ some sock
    → sock.is_connected ≡ true
    → is_connected s ≡ true
unfolding is_connected
is_connected-some s sock h c = rw (h, is_connected) c

module _ {K : Type 0} (sys : System K) where
  through-connected :
      {A : Type 0} (fun : Option ℕ → K → Option A × K) (o : Option Socket) (sock : Socket) (k : K)
      → o ≡ some sock
      → sock.is_connected ≡ true
      → through sys fun o k ≡ fun sock.sock k
  unfolding transfer
  through-connected fun o sock k h c =
      ap (λ p. through sys fun p k) h ∙ ap (λ b. if b then fun sock.sock k else (none, k)) c

  -- On a connected socket and a valid buffer with something unread, `write(ba, length)` does not name memory
  -- beyond a block, and calls `send` once, with the bytes that are next to be read, as many of them as were asked for or are left. It returns what
  -- `send` returned, and just the bytes that `send` took are then no longer unread. That `send` takes no more
  -- than it is given is assumed.
  pub write_array_lem :
      (send : Option ℕ → List ℕ → K → Option ℕ × K) (s : SocketStream) (sock : Socket)
      (ba : ByteArray) (len : ℕ) (k : K)
      → s.socket ≡ some sock
      → sock.is_connected ≡ true
      → IsValid ba
      → 0 < length (take len (unread ba))
      → count (send sock.sock (take len (unread ba)) k).0 ≤ length (take len (unread ba))
      → (let rt = send sock.sock (take len (unread ba)) k in
          (t : ByteArray) × (write_array sys send s ba len k ≡ ok (rt.0, t, rt.1))
          × Moved ba (count rt.0) t)
  unfolding write_array
  write_array_lem send s sock ba len k h c v some_bytes bound =
      let (n, iovs, named, gathered, n_is) = gather-get_read_buffers ba len v in
      let rt = send sock.sock (take len (unread ba)) k in
      let (t, run, moved) =
        advance-Moved ba rt.0 v (omega (arith, bound, length-take len (unread ba))) in
      let answer : Option ℕ × K → Outcome (Option ℕ × ByteArray × K) =
        λ r. advance ba r.0 >>= λ moved. ok (r.0, moved, r.1) in
      let sent : List Iovec → Outcome (Option ℕ × ByteArray × K) = λ vs.
        gather ba.nodes vs >>= λ bytes. answer (through sys (λ fd. send fd bytes) s.socket k) in
      let keep : Outcome (ℕ × List Iovec) → Outcome (Option ℕ × ByteArray × K) =
        λ o. o >>= λ r. front r.1 >>= sent in
      let on = is_connected-some s sock h c in
      let whole : front iovs ≡ ok iovs =
        front-some iovs ba.nodes (take len (unread ba)) gathered some_bytes in
      let call : through sys (λ fd. send fd (take len (unread ba))) s.socket k ≡ rt =
        through-connected (λ fd. send fd (take len (unread ba))) s.socket sock k h c in
      (
        t,
        ap (λ b. if b then keep (get_read_buffers ba len) else ok (none, ba, k)) on
            ∙ ap keep named
            ∙ ap (λ o. o >>= sent) whole
            ∙ ap (λ o. o >>= λ bytes. answer (through sys (λ fd. send fd bytes) s.socket k))
                gathered
            ∙ ap answer call
            ∙ ap (λ o. o >>= λ moved. ok (rt.0, moved, rt.1)) run,
        moved,
      )
