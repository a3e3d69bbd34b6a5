-- ===== src/Tests/Clients.antt =====
-- The client of libnbuss/BaseClient.cpp and UnixSocketClient.cpp on a simulated system.
use nonblocking_unix_socket.Base.{◌≡◌, ◌≢◌, refl, true, false, [], ◌∷◌, pos, minus_one, arith}
use nonblocking_unix_socket.Transfer.{write_loop}
use nonblocking_unix_socket.Server.Io.{set_fd_non_blocking}
use nonblocking_unix_socket.Client.{Client, write, write_large}
use nonblocking_unix_socket.Client.Write.{Undercounts, client-Undercounts}
use nonblocking_unix_socket.Client.Mode.{
  OnlyLowers, set_fd_non_blocking-OnlyLowers, write_large-StaysBlocking,
}
use nonblocking_unix_socket.Tests.Sim.{sim, sim-WriteLaws, sim-FcntlLaws, busy}

abbrev client : Client
client = record { data_socket = pos 5; non_blocking_socket = true }

-- The system takes both bytes, and the value returned is 0.
two_of_two : (write sim client busy (1 ∷ 2 ∷ [])).ret ≡ pos 0
unfolding write write_loop
two_of_two = refl

client-Undercounts_example :
    Undercounts (λ w. w.sent) busy (pos 5) (1 ∷ 2 ∷ []) (write sim client busy (1 ∷ 2 ∷ []))
client-Undercounts_example =
    client-Undercounts sim (λ w. w.sent) sim-WriteLaws client busy (1 ∷ 2 ∷ []) (λ e. cc e)
      (omega arith)

set_fd_non_blocking-OnlyLowers_example :
    OnlyLowers (λ w. w.mode) busy (pos 5) false (set_fd_non_blocking sim busy (pos 5) false)
set_fd_non_blocking-OnlyLowers_example =
    set_fd_non_blocking-OnlyLowers sim (λ w. w.mode) sim-FcntlLaws busy (pos 5) false

large_returns : (write_large sim client busy (1 ∷ 2 ∷ [])).ret ≢ minus_one
unfolding write_large set_fd_non_blocking write write_loop
large_returns e = cc e

write_large-StaysBlocking_example :
    (write_large sim client busy (1 ∷ 2 ∷ [])).world.mode (pos 5) ≡ false
write_large-StaysBlocking_example =
    write_large-StaysBlocking sim (λ w. w.mode) sim-FcntlLaws client busy (1 ∷ 2 ∷ []) large_returns
