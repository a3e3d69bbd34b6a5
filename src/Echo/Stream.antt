-- ===== src/Echo/Stream.antt =====
-- What `my_listener` of main/main.cpp sends back.
use nonblocking_unix_socket.Base.{
  ℕ, replicate, ◌==◌, ◌<◌, ◌≡◌, ◌≢◌, ◌⊎◌, inl, inr, refl, sym, ap, ◌∙◌, List, [], ◌∷◌, ◌++◌,
  append_assoc, append-nil, ℤ, minus_one, ==ℤ→eq, ◌==ℤ◌, not, ◌&&◌, Bool-cases, arith,
}
use nonblocking_unix_socket.Kernel.{Kernel, WriteLaws, ReadLaws, SysRead, eagain}
use nonblocking_unix_socket.Server.{Server, State, ListenEvent, available_for_read, set_io}
use nonblocking_unix_socket.Server.Io as Io
use nonblocking_unix_socket.Server.Keeps.{read_loop-Keeps, write-keeps}
use nonblocking_unix_socket.Server.Read.{leftover, read-ReadsAll}
use nonblocking_unix_socket.Transfer.{joined}
use nonblocking_unix_socket.Transfer.Full.{TakesAll}
use nonblocking_unix_socket.Server.Write.{write-all}
use nonblocking_unix_socket.Echo.{buffer_size, echo, echo_all, my_listener}

-- A read leaves what has been sent, and a write what has been read: they are two directions.
pub record DirectionLaws {W : Type 0} (k : Kernel W) (sent got : W → ℤ → List ℕ) : Type 0 where
  pub read_keeps_sent :
      (w : W) (fd other : ℤ) (n : ℕ) → sent (k.sys_read w fd n).world other ≡ sent w other
  pub write_keeps_got :
      (w : W) (fd other : ℤ) (p : List ℕ) → got (k.sys_write w fd p).world other ≡ got w other

joined-append : (xs ys : List (List ℕ)) → joined (xs ++ ys) ≡ joined xs ++ joined ys
joined-append [] ys = refl
joined-append (x ∷ xs) ys =
    ap (◌++◌ x) (joined-append xs ys) ∙ sym (append_assoc x (joined xs) (joined ys))

leftover-cases :
    {W : Type 0} (size : ℕ) (r : SysRead W)
    → (joined (leftover size r) ≡ [])
      ⊎ ((joined (leftover size r) ≡ replicate size 0) × (r.c ≡ minus_one) × (r.errno ≢ eagain))
leftover-cases size r = elim (Bool-cases (r.c ==ℤ minus_one && not (r.errno == eagain))) [
  | inl e ↦ rw e (inr (append-nil _, ground (arith, e, ==ℤ→eq r.c minus_one), ground (arith, e)))
  | inr e ↦ rw e (inl refl)
]

module _ {W : Type 0} (k : Kernel W) (sent got : W → ℤ → List ℕ) (left : W → ℕ)
    (writes : WriteLaws k sent) (reads : ReadLaws k got left)
    (apart : DirectionLaws k sent got) where
  write-both :
      (s : Server) (w : W) (fd : ℤ) (p : List ℕ)
      → fd ≢ minus_one
      → TakesAll k fd
      → let r = Io.write k s w fd p in
        (sent r.world fd ≡ sent w fd ++ p) × (got r.world fd ≡ got w fd)
  write-both s w fd p ne all = (
    write-all k sent writes s w fd p ne all,
    write-keeps k (λ v. got v fd) (λ v d q. apart.write_keeps_got v d fd q) s w fd p,
  )

  echo_all-sends :
      {A : Type 0} (s : State W A) (fd : ℤ) (items : List (List ℕ))
      → fd ≢ minus_one
      → TakesAll k fd
      → let t = echo_all k s fd items in
        (sent t.world fd ≡ sent s.world fd ++ joined items) × (got t.world fd ≡ got s.world fd)
  unfolding echo_all
  echo_all-sends s fd [] ne all = (sym (append-nil _), refl)
  echo_all-sends s fd (item ∷ items) ne all =
      let r = Io.write k s.srv s.world fd item in
      let one = write-both s.srv s.world fd item ne all in
      let rest = echo_all-sends (record s { srv = r.srv; world = r.world }) fd items ne all in
      (
        rest.0
            ∙ ap (λ x. x ++ joined items) one.0
            ∙ append_assoc (sent s.world fd) item (joined items),
        rest.1 ∙ one.1,
      )

  -- What `my_listener` sends on a descriptor: what it was handed by `read`, and behind it, if the
  -- last call of `read` has failed with an error other than EAGAIN, a buffer of zeros.
  pub record Echoes (size : ℕ) (w w' : W) (fd : ℤ) : Type 0 where
    pub bytes : List ℕ
    pub noise : List ℕ
    pub handed_out : got w' fd ≡ got w fd ++ bytes
    pub sent_back : sent w' fd ≡ sent w fd ++ (bytes ++ noise)
    pub quiet :
        (noise ≡ [])
        ⊎ ((noise ≡ replicate size 0)
            × ((reached : W) × ((k.sys_read reached fd size).c ≡ minus_one)
                × ((k.sys_read reached fd size).errno ≢ eagain)))

  echo-Echoes :
      {A : Type 0} (fuel size : ℕ) (s : State W A) (fd : ℤ)
      → left s.world < fuel
      → fd ≢ minus_one
      → TakesAll k fd
      → Echoes size s.world (echo k s fd (Io.read k fuel s.srv s.world fd size)).world fd
  unfolding echo
  echo-Echoes fuel size s fd enough ne all =
      let (b, e) = read-ReadsAll k got left reads fuel s.srv s.world fd size enough in
      let still : sent b.last.world fd ≡ sent s.world fd = rw b.returns at (
        read_loop-Keeps k (λ v. sent v fd) (λ v d n. apart.read_keeps_sent v d fd n) fuel s.world fd
          size) in
      let t =
        echo_all-sends (record s { srv = set_io s.srv fd; world = b.last.world }) fd
          (b.filled ++ leftover size b.last) ne all in
      rw e (record {
        bytes = joined b.filled;
        noise = joined (leftover size b.last);
        handed_out = t.1 ∙ b.handed_out;
        sent_back =
            t.0
            ∙ ap (λ x. x ++ joined (b.filled ++ leftover size b.last)) still
            ∙ ap (◌++◌ (sent s.world fd)) (joined-append b.filled (leftover size b.last));
        quiet = elim (leftover-cases size b.last) [
          | inl none_left ↦ inl none_left
          | inr (zeros, failed, other) ↦
              inr (zeros, (b.reached, rw (← b.is_last) failed, rw (← b.is_last) other))
        ];
      })

  -- At an event AVAILABLE_FOR_READ of a descriptor other than -1 that takes all data, and with
  -- more fuel than the bytes that the system holds, my_listener sends back what its read was
  -- handed, in order, and behind it nothing, or a buffer of zeros where a call of read(2) has
  -- failed with an error other than EAGAIN.
  pub my_listener-Echoes :
      {A : Type 0} (fuel : W → ℕ) (s : State W A) (ev : ListenEvent)
      → left s.world < fuel s.world
      → ev.job ≡ available_for_read
      → ev.fd ≢ minus_one
      → TakesAll k ev.fd
      → Echoes buffer_size s.world (my_listener k fuel s ev).world ev.fd
  unfolding my_listener
  my_listener-Echoes fuel s ev enough job ne all =
      rw job (echo-Echoes (fuel s.world) buffer_size s ev.fd enough ne all)
