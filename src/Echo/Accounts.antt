-- ===== src/Echo/Accounts.antt =====
-- `my_listener` of main/main.cpp as the callback of `listen`: which descriptors a run of it leaves
-- open.
use nonblocking_unix_socket.Base.{ℕ, sym, ap, ◌∙◌, inl, inr, Bool, ℤ, pos}
use nonblocking_unix_socket.Kernel.{Kernel, FdLaws}
use nonblocking_unix_socket.Server.{
  State, JobType, available_for_read, close_socket, available_for_write, new_socket,
  available_for_read_and_write, socket_is_closed,
}
use nonblocking_unix_socket.Server.Fds.{has_fd}
use nonblocking_unix_socket.Server.Accounts.{IsAccounted, KeepsAccounts, close-IsAccounted}
use nonblocking_unix_socket.Echo.{answer, buffer_size, my_listener}
use nonblocking_unix_socket.Echo.Record.{OpenLaws, SameConnections, echo-SameConnections}

module _ {W A : Type 0} (k : Kernel W) (is_open : W → ℤ → Bool) (laws : FdLaws k is_open)
    (opens : OpenLaws k is_open) (base : ℤ → Bool) (sock : ℤ) where
  SameConnections-IsAccounted :
      (s t : State W A)
      → SameConnections k is_open laws opens s t
      → IsAccounted is_open base sock s.srv s.world
      → IsAccounted is_open base sock t.srv t.world
  SameConnections-IsAccounted s t same a = record {
    same_sock = same.record_kept.same_listen_sock ∙ a.same_sock;
    accounted = λ n o. elim (a.accounted n (sym (same.open_kept (pos n)) ∙ o)) [
      | inl h ↦ inl h
      | inr (inl m) ↦ inr (inl (ap (has_fd (pos n)) same.record_kept.same_fds ∙ m))
      | inr (inr e) ↦ inr (inr (e ∙ sym same.record_kept.same_epollfd))
    ];
  }

  answer-IsAccounted :
      (fuel : W → ℕ) (s : State W A) (fd : ℤ) (job : JobType)
      → IsAccounted is_open base sock s.srv s.world
      → let t = answer k fuel s fd job in IsAccounted is_open base sock t.srv t.world
  unfolding answer
  answer-IsAccounted fuel s fd close_socket a =
      close-IsAccounted k is_open laws base sock s.srv s.world fd a
  answer-IsAccounted fuel s fd available_for_read a =
      SameConnections-IsAccounted s _
        (echo-SameConnections k is_open laws opens (fuel s.world) buffer_size s fd) a
  answer-IsAccounted fuel s fd available_for_write a = a
  answer-IsAccounted fuel s fd new_socket a = a
  answer-IsAccounted fuel s fd available_for_read_and_write a = a
  answer-IsAccounted fuel s fd socket_is_closed a = a

  pub my_listener-KeepsAccounts :
      (fuel : W → ℕ) → KeepsAccounts k is_open laws base sock {A = A} (my_listener k fuel)
  unfolding my_listener
  my_listener-KeepsAccounts fuel s ev a = answer-IsAccounted fuel s ev.fd ev.job a
