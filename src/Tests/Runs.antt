-- ===== src/Tests/Runs.antt =====
-- A run of the listener of libnbuss/IGenericServer.cpp on a simulated network.
use nonblocking_unix_socket.Base.{ℕ, suc, true, List, [], ◌∷◌, pos}
use nonblocking_unix_socket.Server.{State, Callback}
use nonblocking_unix_socket.Server.Listen.{listen}
use nonblocking_unix_socket.Server.Accounts.Loop.{
  AllKeepAccounts, LeaksNothing, listen-LeaksNothing,
}
use nonblocking_unix_socket.Tests.Sim.{serving}
use nonblocking_unix_socket.Tests.Network.{Net, network, opened, quiet}
use nonblocking_unix_socket.Tests.NetworkLaws.{network-FdLaws, network-PollLaws}

-- A callback that counts.
abbrev recorder_of : Callback Net ℕ
recorder_of s ev = record s { app = suc s.app }

-- The listener accepts a connection in its first round, and is told to stop before the third.
abbrev stops : State Net ℕ → State Net ℕ
stops s = record s { srv = record s.srv { stop_server = true } }

abbrev rounds : List (State Net ℕ → State Net ℕ)
rounds = (λ s. s) ∷ (λ s. s) ∷ stops ∷ []

abbrev waiting : State Net ℕ
waiting = record {
  srv = record serving { incoming_conn_fd = [] };
  world = record quiet { pending = true; next_fd = 10 };
  app = 7;
}

rounds_keep :
    AllKeepAccounts network opened network-FdLaws network-PollLaws
      (opened waiting.world)
      (pos 3)
      rounds
rounds_keep =
    (λ s a. a, (λ s a. a, (λ s a. record { same_sock = a.same_sock; accounted = a.accounted }, tt)))

listen-LeaksNothing_example :
    LeaksNothing network opened network-FdLaws network-PollLaws
      (opened waiting.world)
      (pos 3)
      (listen network recorder_of rounds waiting)
listen-LeaksNothing_example =
    listen-LeaksNothing network opened network-FdLaws network-PollLaws recorder_of rounds waiting
      (λ s ev a. a) rounds_keep
