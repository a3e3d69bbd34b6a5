-- ===== src/Echo/Session.antt =====
-- A client and a server that are connected, and what becomes of the message that main/main.cpp writes,
-- by the event that the server is told of. The client is that of libnbuss/BaseClient.cpp, the server
-- that of libnbuss/IGenericServer.cpp with `my_listener`.
use nonblocking_unix_socket.Base.{
  ℕ, ◌+◌, ◌≤◌, ◌<◌, ◌≡◌, ◌≢◌, inl, inr, refl, ap, ◌∙◌, false, List, [], ◌++◌, Option, none, ℤ, pos,
  minus_one, ne→==ℤ, ◌==◌, ltb_ℤ, length, take, take_all, arith,
}
use nonblocking_unix_socket.Kernel.{Kernel}
use nonblocking_unix_socket.Server.Listen.{Error, epollin, epollout, handle_event}
use nonblocking_unix_socket.Transfer.Full.{full_unroll}
use nonblocking_unix_socket.Client as Client
use nonblocking_unix_socket.Client.{Client}
use nonblocking_unix_socket.Server.{State, ListenEvent, available_for_read}
use nonblocking_unix_socket.Echo.{Exchange, check_response, exchange, respond, my_listener}
use nonblocking_unix_socket.Echo.Linked.{Linked, my_listener-answers}

-- What is left of an exchange in which the response is the message.
pub record Answered {W : Type 0} (message : List ℕ) (r : Exchange W) : Type 0 where
  pub answered : r.response ≡ message
  pub fine : r.error ≡ none
  pub closed : r.client.data_socket ≡ minus_one
  pub tested : r.passed ≡ (length message == 12)

check_response-Answered :
    {W : Type 0} (k : Kernel W) (tc : Client) (b : Client.ReadResult W) (message : List ℕ)
    → ltb_ℤ tc.data_socket (pos 0) ≡ false
    → b.error ≡ none
    → b.buffer ≡ message
    → Answered message (check_response k tc b b.error)
unfolding check_response Client.close
check_response-Answered k tc b message valid fine same =
    rw (fine, valid)
      (record {
        answered = same;
        fine = refl;
        closed = refl;
        tested = ap (λ bs. length bs == 12) same;
      })

module _ {W : Type 0} (k : Kernel W) (waiting : W → ℤ → List ℕ) (tc : Client) (far : ℤ)
    (link : Linked k waiting tc.data_socket far)
    (valid : ltb_ℤ tc.data_socket (pos 0) ≡ false) where
  client-valid : tc.data_socket ≢ minus_one
  client-valid e = cc (e, valid)

  client-delivers :
      (w : W) (p : List ℕ)
      → let v = (Client.write k tc w p).world in
        (waiting v far ≡ waiting w far ++ p) × (waiting v tc.data_socket ≡ waiting w tc.data_socket)
  unfolding Client.write
  client-delivers w p =
      rw (ne→==ℤ tc.data_socket minus_one client-valid, full_unroll k w tc.data_socket p link.takes)
        (link.delivers w p, link.write_keeps w p)

  client-reads :
      (w : W) (p : List ℕ)
      → waiting w tc.data_socket ≡ p
      → 0 < length p
      → length p ≤ 1024
      → let b = Client.read k tc w (pos 1024) in (b.buffer ≡ p) × (b.error ≡ none)
  unfolding Client.read
  client-reads w p e some_byte fits = elim (link.read_gives w 1024) [
    | inl (empty, c, errno) ↦ absurd (omega (arith, ap length e, ap length empty, some_byte))
    | inr (some_left, c, bytes) ↦ rw c (bytes ∙ ap (take 1024) e ∙ take_all 1024 p fits, refl)
  ]

-- The listening thread is told that a connection has input and room for output, as epoll_wait reports
-- a connection on which a message has arrived while the way back is free.
abbrev pub on_arrival :
    {W A : Type 0} → Kernel W → (W → ℕ) → State W A → ℤ → W → State W A × Option Error
on_arrival k fuel s fd w =
    handle_event k (my_listener k fuel) (record s { world = w })
      (record { fd = fd; events = epollin + epollout })

module _ {W A : Type 0} (k : Kernel W) (waiting : W → ℤ → List ℕ) (tc : Client) (ev : ListenEvent)
    (client : Linked k waiting tc.data_socket ev.fd)
    (server : Linked k waiting ev.fd tc.data_socket) where
  -- A client and a server that are the two ends of a connection with room for what is written and
  -- with nothing on its way: the client, whose descriptor is not negative, writes 1 to 1024 bytes,
  -- the server's my_listener is told that its end, not -1, can be read, with more fuel than there
  -- are bytes, and the client reads; then the response is the message, there is no exception, the
  -- client is closed, and the assertion tests the size of the message.
  exchange-Answered :
      (fuel : W → ℕ) (s : State W A) (message : List ℕ)
      → ltb_ℤ tc.data_socket (pos 0) ≡ false
      → ev.fd ≢ minus_one
      → ev.job ≡ available_for_read
      → waiting s.world tc.data_socket ≡ []
      → waiting s.world ev.fd ≡ []
      → 0 < length message
      → length message ≤ 1024
      → ((w : W) → length message < fuel w)
      → Answered message (
          exchange k
            (λ w. (my_listener k fuel (record s { world = w }) ev).world)
            tc
            s.world
            message)
  unfolding exchange respond
  exchange-Answered fuel s message near_valid far_valid job near_empty far_empty some_data fits
        enough =
      let w = (Client.write k tc s.world message).world in
      let (arrived, near_kept) =
        client-delivers k waiting tc ev.fd client near_valid s.world message in
      let here : waiting w ev.fd ≡ message = arrived ∙ ap (λ bs. bs ++ message) far_empty in
      let (answer, emptied) =
        my_listener-answers k waiting ev.fd tc.data_socket server far_valid fuel
          (record s { world = w }) ev (omega (arith, ap length here, enough w)) job refl in
      let back = answer ∙ ap (λ bs. bs ++ waiting w ev.fd) (near_kept ∙ near_empty) ∙ here in
      let (same, fine) =
        client-reads k waiting tc ev.fd client near_valid _ message back some_data fits in
      check_response-Answered k tc _ message near_valid fine same
