-- ===== src/Echo/Fixed.antt =====
-- `my_listener` of main/main.cpp leaves the flags and the pipe of its server alone.
use nonblocking_unix_socket.Base.{
  ℕ, inl, inr, List, [], ◌∷◌, ℤ, minus_one, ◌==ℤ◌, Bool-cases, Option-cases,
}
use nonblocking_unix_socket.Kernel.{Kernel}
use nonblocking_unix_socket.Server.{
  Server, State, JobType, available_for_read, close_socket, available_for_write, new_socket,
  available_for_read_and_write, socket_is_closed,
}
use nonblocking_unix_socket.Server.Io as Io
use nonblocking_unix_socket.Server.Fixed.{
  SameFixed, SameFixed-refl, SameFixed-trans, KeepsFixed, set_io-SameFixed, close-SameFixed,
}
use nonblocking_unix_socket.Echo.{answer, buffer_size, echo, echo_all, my_listener}

write-SameFixed :
    {W : Type 0} (k : Kernel W) (s : Server) (w : W) (fd : ℤ) (p : List ℕ)
    → SameFixed s (Io.write k s w fd p).srv
unfolding Io.write
write-SameFixed k s w fd p = elim (Bool-cases (fd ==ℤ minus_one)) [
  | inl e ↦ rw e (SameFixed-refl s)
  | inr e ↦ rw e (set_io-SameFixed s fd)
]

module _ {W A : Type 0} (k : Kernel W) where
  echo_all-SameFixed :
      (s : State W A) (fd : ℤ) (items : List (List ℕ)) → SameFixed s.srv (echo_all k s fd items).srv
  unfolding echo_all
  echo_all-SameFixed s fd [] = SameFixed-refl s.srv
  echo_all-SameFixed s fd (item ∷ items) =
      let r = Io.write k s.srv s.world fd item in
      SameFixed-trans (write-SameFixed k s.srv s.world fd item)
        (echo_all-SameFixed (record s { srv = r.srv; world = r.world }) fd items)

  echo-SameFixed :
      (fuel size : ℕ) (s : State W A) (fd : ℤ)
      → SameFixed s.srv (echo k s fd (Io.read k fuel s.srv s.world fd size)).srv
  unfolding echo Io.read Io.read_result
  echo-SameFixed fuel size s fd = elim (Option-cases (Io.read_loop k fuel s.world fd size)) [
    | inl e ↦ rw e (SameFixed-refl s.srv)
    | inr ((w', bs, errno), e) ↦
        rw e (SameFixed-trans (set_io-SameFixed s.srv fd) (echo_all-SameFixed _ fd bs))
  ]

  answer-SameFixed :
      (fuel : W → ℕ) (s : State W A) (fd : ℤ) (job : JobType)
      → SameFixed s.srv (answer k fuel s fd job).srv
  unfolding answer
  answer-SameFixed fuel s fd close_socket = close-SameFixed k s.srv s.world fd
  answer-SameFixed fuel s fd available_for_read = echo-SameFixed (fuel s.world) buffer_size s fd
  answer-SameFixed fuel s fd available_for_write = SameFixed-refl s.srv
  answer-SameFixed fuel s fd new_socket = SameFixed-refl s.srv
  answer-SameFixed fuel s fd available_for_read_and_write = SameFixed-refl s.srv
  answer-SameFixed fuel s fd socket_is_closed = SameFixed-refl s.srv

  pub my_listener-KeepsFixed : (fuel : W → ℕ) → KeepsFixed {A = A} k (my_listener k fuel)
  unfolding my_listener
  my_listener-KeepsFixed fuel s ev = answer-SameFixed fuel s ev.fd ev.job
