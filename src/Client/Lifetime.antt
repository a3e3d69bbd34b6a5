-- ===== src/Client/Lifetime.antt =====
-- The descriptor of a client from its constructor to its destructor (libnbuss/BaseClient.cpp,
-- UnixSocketClient.cpp, TcpClient.cpp).
use nonblocking_unix_socket.Base.{
  ℕ, ◌+◌, ◌≡◌, ◌≢◌, ◌⊎◌, none, some, inl, inr, refl, sym, ap, ◌∙◌, Bool, false, Bool-cases, List,
  Option, Option-cases, ℤ, pos, minus_one, ◌==ℤ◌, ◌==◌, ltb, ltb_ℤ, ==ℤ-cases, length,
  if◌then◌else◌, arith,
}
use nonblocking_unix_socket.Kernel.{Kernel, FdLaws, o_nonblock}
use nonblocking_unix_socket.Client.{
  Client, Connected, Error, new_client, close, destroy, connect_to, connect_unix, connect_proto,
  connect_found, connect_tcp, sock_stream, af_unix, pf_inet, c_str, sun_path,
}
use nonblocking_unix_socket.Binding.Open.{SocketLaws}

-- connect(2) and the look-ups of a host and of a protocol leave no descriptor open or closed that was
-- not before.
pub record ConnectLaws {W : Type 0} (k : Kernel W) (is_open : W → ℤ → Bool) : Type 0 where
  pub connect_keeps :
      (w : W) (fd other : ℤ) (addr : List ℕ)
      → is_open (k.sys_connect w fd addr).world other ≡ is_open w other
  pub proto_keeps : (w : W) (other : ℤ) → is_open (k.sys_getprotobyname w).0 other ≡ is_open w other
  pub host_keeps :
      (w : W) (name : List ℕ) (other : ℤ)
      → is_open (k.sys_gethostbyname w name).0 other ≡ is_open w other

not_negative : (n : ℕ) → ltb_ℤ (pos n) (pos 0) ≡ false
not_negative n = ground arith

module _ {W : Type 0} (k : Kernel W) (is_open : W → ℤ → Bool) (fds : FdLaws k is_open)
    (sockets : SocketLaws k is_open) (laws : ConnectLaws k is_open) where
  -- When the client that `connect` leaves is destroyed, what is open is what was open before.
  unfoldable pub Leaves : W → Connected W → Type 0
  Leaves w r = (other : ℤ) → is_open (destroy k r.client r.world) other ≡ is_open w other

  abbrev Same : W → W → Type 0
  Same w v = (other : ℤ) → is_open v other ≡ is_open w other

  -- A client with no socket.
  unconnected-Leaves :
      (s : Client) (w v : W) (e : Option Error)
      → s.data_socket ≡ minus_one
      → Same w v
      → Leaves w (record { client = s; world = v; error = e })
  unfolding destroy close Leaves
  unconnected-Leaves s w v e none_yet same other = rw none_yet (same other)

  close_result :
      (s : Client) (v : W)
      → ltb_ℤ s.data_socket (pos 0) ≡ false
      → close k s v ≡ (record s { data_socket = minus_one }, (k.sys_close v s.data_socket).world)
  unfolding close
  close_result s v valid = rw valid refl

  destroy_closes :
      (s : Client) (v : W)
      → ltb_ℤ s.data_socket (pos 0) ≡ false
      → destroy k s v ≡ (k.sys_close v s.data_socket).world
  unfolding destroy
  destroy_closes s v valid = ap (λ r. r.1) (close_result s v valid)

  -- A client with the socket that has been opened.
  opened-Leaves :
      (s : Client) (w u v : W) (n : ℕ) (e : Option Error)
      → s.data_socket ≡ pos n
      → is_open w (pos n) ≡ false
      → ((other : ℤ) → pos n ≢ other → is_open u other ≡ is_open w other)
      → Same u v
      → Leaves w (record { client = s; world = v; error = e })
  unfolding destroy close Leaves
  opened-Leaves s w u v n e socket fresh apart same other =
      let fd = s.data_socket in
      let valid : ltb_ℤ fd (pos 0) ≡ false = ap (λ z. ltb_ℤ z (pos 0)) socket ∙ not_negative n in
      ap (λ z. is_open z other) (destroy_closes s v valid) ∙ (elim (==ℤ-cases (pos n) other) [
        | inl (here, t) ↦
            ap (is_open (k.sys_close v fd).world) (sym here ∙ sym socket)
            ∙ fds.close_closes v fd
            ∙ sym (ap (is_open w) (sym here) ∙ fresh)
        | inr (ne, f) ↦
            fds.close_apart v fd other (λ z. ne (sym socket ∙ z)) ∙ same other ∙ apart other ne
      ])

  unix-Leaves : (b : Bool) (w : W) (name : List ℕ) → Leaves w (connect_unix k (new_client b) w name)
  unfolding connect_unix connect_to
  unix-Leaves b w name =
      let flags = if b then sock_stream + o_nonblock else sock_stream in
      let f = k.sys_socket w af_unix flags 0 in
      elim (Bool-cases (length name == 0)) [
        | inl e ↦ rw e (unconnected-Leaves (new_client b) w w _ refl (λ other. refl))
        | inr e ↦ elim (sockets.socket_opens w af_unix flags 0) [
          | inl (c, same) ↦ rw (e, c) (unconnected-Leaves (new_client b) w f.world _ refl same)
          | inr (n, c, fresh, now, apart) ↦
              rw (e, c)
                (opened-Leaves (record (new_client b) { data_socket = pos n }) w f.world _ n _ refl
                  fresh apart (λ other. laws.connect_keeps f.world (pos n) other (sun_path name)))
        ]
      ]

  proto-Leaves :
      (b : Bool) (w w1 : W) (proto : ℕ) (name : List ℕ) (port : ℕ)
      → Same w w1
      → Leaves w (connect_proto k (new_client b) w1 proto name port)
  unfolding connect_proto connect_to
  proto-Leaves b w w1 proto name port looked_up =
      let f = k.sys_socket w1 pf_inet sock_stream proto in
      let (w2, host) = k.sys_gethostbyname f.world (c_str name) in
      elim (sockets.socket_opens w1 pf_inet sock_stream proto) [
        | inl (c, same) ↦ rw c (
            unconnected-Leaves (new_client b) w f.world _ refl
              (λ other. same other ∙ looked_up other))
        | inr (n, c, fresh, now, apart) ↦
            let s = record (new_client b) { data_socket = f.c } in
            let valid : (f.c ==ℤ minus_one) ≡ false = rw c refl in
            let before : is_open w (pos n) ≡ false = sym (looked_up (pos n)) ∙ fresh in
            let others : (other : ℤ) → pos n ≢ other → is_open f.world other ≡ is_open w other =
              λ other ne. apart other ne ∙ looked_up other in
            let found : Same f.world w2 = laws.host_keeps f.world (c_str name) in
            elim (Option-cases host) [
              | inl h ↦ rw (valid, h) (opened-Leaves s w f.world w2 n _ c before others found)
              | inr (addr, h) ↦
                  rw (valid, h)
                    (opened-Leaves s w f.world _ n _ c before others
                      (λ other. laws.connect_keeps w2 f.c other _ ∙ found other))
            ]
      ]

  -- A null pointer is read through because the protocol is not known, or the client leaves nothing.
  abbrev pub LeavesOrCrashes : W → Option (Connected W) → Type 0
  LeavesOrCrashes w r =
      ((r ≡ none) × ((k.sys_getprotobyname w).1 ≡ none))
      ⊎ ((c : Connected W) × (r ≡ some c) × Leaves w c)

  tcp-Leaves :
      (b : Bool) (w : W) (name : List ℕ) (port : ℕ)
      → LeavesOrCrashes w (connect_tcp k (new_client b) w name port)
  unfolding connect_tcp connect_found
  tcp-Leaves b w name port = elim (Bool-cases (length name == 0)) [
    | inl e ↦ rw e (inr (_, refl, unconnected-Leaves (new_client b) w w _ refl (λ other. refl)))
    | inr e ↦ elim (Bool-cases (ltb 65535 port)) [
      | inl big ↦
          rw (e, big) (inr (_, refl, unconnected-Leaves (new_client b) w w _ refl (λ other. refl)))
      | inr fits ↦ elim (Option-cases (k.sys_getprotobyname w).1) [
        | inl unknown ↦ inl (
          rw (e, fits)
              (ap (λ o. connect_found k (new_client b) ((k.sys_getprotobyname w).0, o) name port)
                unknown),
          unknown,
        )
        | inr (proto, known) ↦ inr (
          _,
          rw (e, fits)
              (ap (λ o. connect_found k (new_client b) ((k.sys_getprotobyname w).0, o) name port)
                known),
          proto-Leaves b w _ proto name port (laws.proto_keeps w),
        )
      ]
    ]
  ]

  -- After a new client's connect, over a Unix or a TCP socket, whether it succeeds or throws, the
  -- destructor of the client leaves open what was open before and nothing else; over TCP it may
  -- also be that the protocol is not known and a null pointer is read through.
  pub lifetime-Leaves :
      (b : Bool) (w : W) (name : List ℕ) (port : ℕ)
      → Leaves w (connect_unix k (new_client b) w name)
        × LeavesOrCrashes w (connect_tcp k (new_client b) w name port)
  lifetime-Leaves b w name port = (unix-Leaves b w name, tcp-Leaves b w name port)
