-- ===== src/Tests/NetworkLaws.antt =====
-- The simulated system of Network does what the manual pages say.
use nonblocking_unix_socket.Base.{
  ℕ, ◌≡◌, ◌≢◌, ◌⊎◌, inl, inr, refl, Bool, true, false, List, [], ◌∷◌, ℤ, pos, minus_one,
}
use nonblocking_unix_socket.Kernel.{FdLaws, PollLaws}
use nonblocking_unix_socket.Echo.Record.{OpenLaws}
use nonblocking_unix_socket.Tests.Sim.{update_here, update_apart}
use nonblocking_unix_socket.Tests.Network.{
  Net, open_next, accept_next, next_event, network, opened, read_inbox,
}

-- What open_next does.
opens_next :
    (w : Net) (b : Bool)
    → w.is_open (pos w.next_fd) ≡ b
    → let r = open_next w b in
      ((r.c ≡ minus_one) × ((other : ℤ) → r.world.is_open other ≡ w.is_open other))
      ⊎ ((n : ℕ) × (r.c ≡ pos n)
          × (w.is_open (pos n) ≡ false)
          × (r.world.is_open (pos n) ≡ true)
          × ((other : ℤ) → pos n ≢ other → r.world.is_open other ≡ w.is_open other))
opens_next w true e = inl (refl, λ other. refl)
opens_next w false e = inr (
  w.next_fd,
  refl,
  e,
  update_here w.is_open (pos w.next_fd) true,
  λ other ne. update_apart w.is_open (pos w.next_fd) other true ne,
)

accepts_next :
    (w : Net) (b : Bool)
    → let r = accept_next w b in
      ((r.c ≡ minus_one) × ((other : ℤ) → r.world.is_open other ≡ w.is_open other))
      ⊎ ((n : ℕ) × (r.c ≡ pos n)
          × (w.is_open (pos n) ≡ false)
          × (r.world.is_open (pos n) ≡ true)
          × ((other : ℤ) → pos n ≢ other → r.world.is_open other ≡ w.is_open other))
accepts_next w false = inl (refl, λ other. refl)
accepts_next w true =
    opens_next (record w { far = pos w.next_fd; pending = false }) (w.is_open (pos w.next_fd)) refl

pub network-FdLaws : FdLaws network opened
network-FdLaws = record {
  accept_opens = λ w fd. accepts_next w w.pending;
  close_closes = λ w fd. update_here w.is_open fd false;
  close_apart = λ w fd other ne. update_apart w.is_open fd other false ne;
  epoll_add_keeps = λ w e fd other events. refl;
}

event_keeps :
    (w : Net) (pending hung : Bool) (bytes : List ℕ) (other : ℤ)
    → (next_event w pending hung bytes).world.is_open other ≡ w.is_open other
event_keeps w true hung bytes other = refl
event_keeps w false hung (b ∷ bs) other = refl
event_keeps w false true [] other = refl
event_keeps w false false [] other = refl

pub network-PollLaws : PollLaws network opened
network-PollLaws = record {
  listen_keeps = λ w fd other backlog. refl;
  epoll_wait_keeps = λ w e other n. event_keeps w w.pending w.hung_up (w.inbox w.far) other;
  epoll_create1_opens = λ w. opens_next w (w.is_open (pos w.next_fd)) refl;
}

read_keeps :
    (w : Net) (fd other : ℤ) (n : ℕ) (bytes : List ℕ)
    → (read_inbox w fd n bytes).world.is_open other ≡ w.is_open other
read_keeps w fd other n [] = refl
read_keeps w fd other n (b ∷ bs) = refl

pub network-OpenLaws : OpenLaws network opened
network-OpenLaws = record {
  read_keeps = λ other w fd n. read_keeps w fd other n (w.inbox fd);
  write_keeps = λ other w fd p. refl;
}
