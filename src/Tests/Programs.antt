-- ===== src/Tests/Programs.antt =====
-- The programs of main/main.cpp and unix_socket_client/unixsocketclient.c, and reads of elements, on
-- a simulated system with room in every buffer.
use nonblocking_unix_socket.Base.{
  ℕ, ◌≡◌, ◌≢◌, ◌⊎◌, none, inr, refl, true, List, [], ◌∷◌, ◌++◌, ℤ, pos, minus_one, length, take_all,
  arith,
}
use nonblocking_unix_socket.Kernel.{Kernel, WriteLaws, ReadLaws}
use nonblocking_unix_socket.Transfer.Full.{TakesAll}
use nonblocking_unix_socket.Server.{ListenEvent, JobType}
use nonblocking_unix_socket.Server.Io.{read_one_buffer_t}
use nonblocking_unix_socket.Server.Elements.{ReadsElements, read_one_buffer_t-ReadsElements}
use nonblocking_unix_socket.Echo.{buffer_size, my_listener}
use nonblocking_unix_socket.Echo.Stream.{DirectionLaws, Echoes, my_listener-Echoes}
use nonblocking_unix_socket.UnixClient.{receive, end_word, send_request}
use nonblocking_unix_socket.UnixClient.Request.{strings_from, send_request-roundtrip}
use nonblocking_unix_socket.UnixClient.Result.{Printed, shown, receive-Prints}
use nonblocking_unix_socket.Tests.Sim.{
  World, sim, sim-ReadLaws, update, update_here, update_apart, read_with, busy, serving,
}
use nonblocking_unix_socket.Tests.Serving.{served}

-- A write takes all of the data.
abbrev roomy : Kernel World
roomy = record sim {
  sys_write = λ w fd p. record {
    world = record w { sent = update w.sent fd (w.sent fd ++ p) };
    c = pos (length p);
    errno = 0;
  };
}

roomy-TakesAll : (fd : ℤ) → TakesAll roomy fd
roomy-TakesAll fd w p = refl

roomy-WriteLaws : WriteLaws roomy (λ w. w.sent)
roomy-WriteLaws = record {
  write_takes = λ w fd p. inr (
    length p,
    omega arith,
    refl,
    rw (take_all (length p) p (omega arith)) (update_here w.sent fd (w.sent fd ++ p)),
  );
  write_apart = λ w fd other p ne. update_apart w.sent fd other (w.sent fd ++ p) ne;
}

roomy-ReadLaws : ReadLaws roomy (λ w. w.got) (λ w. length w.inbox)
roomy-ReadLaws = record { read_gives = sim-ReadLaws.read_gives }

read_with-sent :
    (w : World) (fd other : ℤ) (n : ℕ) (inbox : List ℕ)
    → (read_with w fd n inbox).world.sent other ≡ w.sent other
read_with-sent w fd other n [] = refl
read_with-sent w fd other n (b ∷ bs) = refl

roomy-DirectionLaws : DirectionLaws roomy (λ w. w.sent) (λ w. w.got)
roomy-DirectionLaws = record {
  read_keeps_sent = λ w fd other n. read_with-sent w fd other n w.inbox;
  write_keeps_got = λ w fd other p. refl;
}

abbrev readable : ListenEvent
readable = record { fd = pos 5; job = JobType.available_for_read; events = 1 }

my_listener-Echoes_example :
    Echoes roomy
      (λ w. w.sent)
      (λ w. w.got)
      (λ w. length w.inbox)
      roomy-WriteLaws
      roomy-ReadLaws
      roomy-DirectionLaws
      buffer_size
      busy
      (my_listener roomy (λ w. 6) (served true) readable).world
      (pos 5)
my_listener-Echoes_example =
    my_listener-Echoes roomy (λ w. w.sent) (λ w. w.got) (λ w. length w.inbox) roomy-WriteLaws
      roomy-ReadLaws roomy-DirectionLaws (λ w. 6) (served true) readable (omega arith) refl
      (λ e. cc e) (roomy-TakesAll (pos 5))

-- The arguments "hi" and "".
abbrev arguments : List (List ℕ)
arguments = (b'h' ∷ b'i' ∷ []) ∷ [] ∷ []

send_request-roundtrip_example :
    (bytes : List ℕ) × ((send_request roomy busy (pos 5) arguments).world.sent (pos 5)
      ≡ busy.sent (pos 5) ++ bytes)
    × (strings_from [] bytes ≡ arguments ++ end_word ∷ [])
    × ((send_request roomy busy (pos 5) arguments).c ≢ minus_one)
send_request-roundtrip_example =
    send_request-roundtrip roomy (λ w. w.sent) roomy-WriteLaws busy (pos 5) arguments
      (roomy-TakesAll (pos 5)) (((λ e. omega (arith, e)), ((λ e. omega (arith, e)), tt)), (tt, tt))

receive-Prints_example :
    let r = roomy.sys_read busy (pos 5) 12 in
    let t = receive roomy busy (pos 5) (7 ∷ 7 ∷ []) in
    ((r.c ≡ minus_one) × (t.exit_code ≡ 1) × (t.printed ≡ none))
    ⊎ ((r.c ≢ minus_one) × Printed t (shown (7 ∷ 7 ∷ []) r.bytes))
receive-Prints_example = receive-Prints roomy busy (pos 5) (7 ∷ 7 ∷ [])

-- Five bytes are there, and elements have two.
read_one_buffer_t-ReadsElements_example :
    ReadsElements (λ w. w.got) busy (pos 5) 2 10 (read_one_buffer_t sim serving busy (pos 5) 2 10)
read_one_buffer_t-ReadsElements_example =
    read_one_buffer_t-ReadsElements sim (λ w. w.got) (λ w. length w.inbox) sim-ReadLaws serving busy
      (pos 5) 2 10 (omega arith)
