-- ===== src/Tests/Session.antt =====
-- A client on descriptor 5 and a server on descriptor 6, the two ends of a simulated connection.
use nonblocking_unix_socket.Base.{
  ℕ, false, false, List, [], ◌∷◌, ◌++◌, ℤ, pos, minus_one, ◌==ℤ◌, length, take, drop, if◌then◌else◌,
}
use nonblocking_unix_socket.Kernel.{Kernel, SysRead, eagain}
use nonblocking_unix_socket.Client.{Client}
use nonblocking_unix_socket.Client as Client
use nonblocking_unix_socket.Echo.Linked.{Linked}
use nonblocking_unix_socket.Tests.Sim.{World, sim, update}

abbrev peer : ℤ → ℤ
peer fd = if fd ==ℤ pos 5 then pos 6 else pos 5

-- `sent` holds what waits to be read on a descriptor.
abbrev read_waiting : World → ℤ → ℕ → List ℕ → SysRead World
read_waiting w fd n [] = record { world = w; c = minus_one; errno = eagain; bytes = [] }
read_waiting w fd n (b ∷ bs) = record {
  world = record w { sent = update w.sent fd (drop n (b ∷ bs)) };
  c = pos (length (take n (b ∷ bs)));
  errno = 0;
  bytes = take n (b ∷ bs);
}

abbrev paired : Kernel World
paired = record sim {
  sys_write = λ w fd p. record {
    world = record w { sent = update w.sent (peer fd) (w.sent (peer fd) ++ p) };
    c = pos (length p);
    errno = 0;
  };
  sys_read = λ w fd n. read_waiting w fd n (w.sent fd);
}

abbrev client : Client
client = record { data_socket = pos 5; non_blocking_socket = false }
