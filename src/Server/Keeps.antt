-- ===== src/Server/Keeps.antt =====
-- What IGenericServer::read and write leave as it is: whatever the system calls leave, and all
-- fields of the server but the record of input and output (libnbuss/IGenericServer.cpp).
use nonblocking_unix_socket.Base.{
  ℕ, zero, suc, ◌+◌, ◌≡◌, refl, ◌∙◌, inl, inr, List, Option, none, some, ℤ, pos, minus_one, ◌==ℤ◌,
  ◌==◌, pos_part, drop, length, Bool-cases, arith,
}
use nonblocking_unix_socket.Kernel.{Kernel, eagain}
use nonblocking_unix_socket.Transfer.{is_partial, write_loop}
use nonblocking_unix_socket.Server.{Server, set_io}
use nonblocking_unix_socket.Server.Io.{read_loop, push_buffer, write}

module _ {W V : Type 0} (k : Kernel W) (view : W → V) where
  abbrev pub ReadKeeps : Type 0
  ReadKeeps = (w : W) (fd : ℤ) (n : ℕ) → view (k.sys_read w fd n).world ≡ view w

  abbrev pub WriteKeeps : Type 0
  WriteKeeps = (w : W) (fd : ℤ) (p : List ℕ) → view (k.sys_write w fd p).world ≡ view w

  -- The result of the loop of `read`, if it has one, is in a state with the same view.
  abbrev pub Keeps : W → Option (W × List (List ℕ) × ℕ) → Type 0
  Keeps w none = Unit
  Keeps w (some (w', bs, e)) = view w' ≡ view w

  push-Keeps :
      (w v : W) (b : List ℕ) (r : Option (W × List (List ℕ) × ℕ))
      → view v ≡ view w
      → Keeps v r
      → Keeps w (push_buffer b r)
  unfolding push_buffer
  push-Keeps w v b none same h = tt
  push-Keeps w v b (some (w', bs, e)) same h = h ∙ same

  pub read_loop-Keeps :
      ReadKeeps → (fuel : ℕ) (w : W) (fd : ℤ) (size : ℕ) → Keeps w (read_loop k fuel w fd size)
  unfolding read_loop
  read_loop-Keeps keeps zero w fd size = tt
  read_loop-Keeps keeps (suc fuel) w fd size =
      let r = k.sys_read w fd size in
      elim (Bool-cases (r.c ==ℤ minus_one)) [
        | inl failed ↦ elim (Bool-cases (r.errno == eagain)) [
          | inl e ↦ rw (failed, e) (keeps w fd size)
          | inr e ↦ rw (failed, e) (keeps w fd size)
        ]
        | inr fine ↦ elim (Bool-cases (r.c ==ℤ pos 0)) [
          | inl e ↦ rw (fine, e) (keeps w fd size)
          | inr e ↦
              rw (fine, e)
                (push-Keeps w r.world r.bytes _ (keeps w fd size)
                  (read_loop-Keeps keeps fuel r.world fd size))
        ]
      ]

  pub write_loop-keeps :
      WriteKeeps
      → (fuel : ℕ) (w : W) (fd : ℤ) (p : List ℕ) (before : ℕ)
      → view (write_loop k fuel w fd p before).world ≡ view w
  unfolding write_loop
  write_loop-keeps keeps zero w fd p before = keeps w fd p
  write_loop-keeps keeps (suc fuel) w fd p before =
      let r = k.sys_write w fd p in
      elim (Bool-cases (is_partial k r.c p)) [
        | inl e ↦ rw e (
            write_loop-keeps keeps fuel r.world fd (drop (pos_part r.c) p) (before + pos_part r.c)
            ∙ keeps w fd p)
        | inr e ↦ rw e (keeps w fd p)
      ]

  pub write-keeps :
      WriteKeeps
      → (s : Server) (w : W) (fd : ℤ) (p : List ℕ) → view (write k s w fd p).world ≡ view w
  unfolding write
  write-keeps keeps s w fd p = elim (Bool-cases (fd ==ℤ minus_one)) [
    | inl e ↦ rw e refl
    | inr e ↦ rw e (write_loop-keeps keeps (length p) w fd p 0)
  ]

-- The connections, the listening socket and the epoll descriptor are the same.
pub record SameRecord (s t : Server) : Type 0 where
  pub same_fds : t.incoming_conn_fd ≡ s.incoming_conn_fd
  pub same_count : t.active_connections ≡ s.active_connections
  pub same_listen_sock : t.listen_sock ≡ s.listen_sock
  pub same_epollfd : t.epollfd ≡ s.epollfd

pub SameRecord-refl : (s : Server) → SameRecord s s
SameRecord-refl s = record {
  same_fds = refl;
  same_count = refl;
  same_listen_sock = refl;
  same_epollfd = refl;
}

pub SameRecord-trans : {s t u : Server} → SameRecord s t → SameRecord t u → SameRecord s u
SameRecord-trans a b = record {
  same_fds = b.same_fds ∙ a.same_fds;
  same_count = b.same_count ∙ a.same_count;
  same_listen_sock = b.same_listen_sock ∙ a.same_listen_sock;
  same_epollfd = b.same_epollfd ∙ a.same_epollfd;
}

pub set_io-SameRecord : (s : Server) (fd : ℤ) → SameRecord s (set_io s fd)
unfolding set_io
set_io-SameRecord s fd = record {
  same_fds = ground arith;
  same_count = ground arith;
  same_listen_sock = ground arith;
  same_epollfd = ground arith;
}

pub write-SameRecord :
    {W : Type 0} (k : Kernel W) (s : Server) (w : W) (fd : ℤ) (p : List ℕ)
    → SameRecord s (write k s w fd p).srv
unfolding write
write-SameRecord k s w fd p = elim (Bool-cases (fd ==ℤ minus_one)) [
  | inl e ↦ rw e (SameRecord-refl s)
  | inr e ↦ rw e (set_io-SameRecord s fd)
]
