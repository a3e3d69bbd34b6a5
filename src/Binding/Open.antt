-- ===== src/Binding/Open.antt =====
-- Which descriptors the constructor of libnbuss/TcpServer.cpp leaves open.
use nonblocking_unix_socket.Base.{
  ℕ, zero, suc, ◌<◌, ◌≡◌, ◌≢◌, ◌⊎◌, sym, ◌∙◌, Bool, true, false, List, none, some, ℤ, pos,
  minus_one,
}
use nonblocking_unix_socket.Kernel.{Kernel, FdLaws}
use nonblocking_unix_socket.Server.{Server}
use nonblocking_unix_socket.Server.Life as Life
use nonblocking_unix_socket.Binding.{Built, Error, cannot_open, open_listening_socket}

-- socket(2) returns a descriptor that was not open, and opens it, or changes nothing and returns -1.
-- bind(2), unlink(2), nanosleep(2) and getaddrinfo(3) leave no descriptor open or closed that was
-- not before.
pub record SocketLaws {W : Type 0} (k : Kernel W) (is_open : W → ℤ → Bool) : Type 0 where
  pub socket_opens :
      (w : W) (family socktype protocol : ℕ)
      → let r = k.sys_socket w family socktype protocol in
        ((r.c ≡ minus_one) × ((other : ℤ) → is_open r.world other ≡ is_open w other))
        ⊎ ((n : ℕ) × (r.c ≡ pos n)
            × (is_open w (pos n) ≡ false)
            × (is_open r.world (pos n) ≡ true)
            × ((other : ℤ) → pos n ≢ other → is_open r.world other ≡ is_open w other))
  pub bind_keeps :
      (w : W) (fd other : ℤ) (addr : List ℕ)
      → is_open (k.sys_bind w fd addr).world other ≡ is_open w other
  pub unlink_keeps :
      (w : W) (path : List ℕ) (other : ℤ)
      → is_open (k.sys_unlink w path).world other ≡ is_open w other
  pub sleep_keeps :
      (w : W) (ms : ℕ) (other : ℤ) → is_open (k.sys_nanosleep w ms) other ≡ is_open w other
  pub info_keeps :
      (w : W) (addr : List ℕ) (port : ℕ) (other : ℤ)
      → is_open (k.sys_getaddrinfo w addr port).world other ≡ is_open w other

-- From `w` to `w'` the descriptor `ret` is opened and no other, or `ret` is -1 and none is.
pub data OpensOnly {W : Type 0} (is_open : W → ℤ → Bool) (w w' : W) (ret : ℤ) : Type 0 where
  fails :
      ret ≡ minus_one
      → ((other : ℤ) → is_open w' other ≡ is_open w other)
      → OpensOnly is_open w w' ret
  opens :
      (n : ℕ)
      → ret ≡ pos n
      → is_open w (pos n) ≡ false
      → is_open w' (pos n) ≡ true
      → ((other : ℤ) → pos n ≢ other → is_open w' other ≡ is_open w other)
      → OpensOnly is_open w w' ret

module _ {W : Type 0} (k : Kernel W) (is_open : W → ℤ → Bool) (fds : FdLaws k is_open)
    (laws : SocketLaws k is_open) where
  -- What was the same before.
  pub after-OpensOnly :
      (w v : W) {w' : W} {ret : ℤ}
      → ((other : ℤ) → is_open v other ≡ is_open w other)
      → OpensOnly is_open v w' ret
      → OpensOnly is_open w w' ret
  after-OpensOnly w v same (fails e h) = fails e (λ other. h other ∙ same other)
  after-OpensOnly w v same (opens n e fresh now h) =
      opens n e (sym (same (pos n)) ∙ fresh) now (λ other ne. h other ne ∙ same other)

  -- What is left when the constructor is done: without an exception the listening socket is the one
  -- descriptor that was opened, and with one nothing was.
  pub data Builds (w : W) (r : Built W) : Type 0 where
    built :
        r.error ≡ none
        → r.srv.listen_sock ≢ minus_one
        → OpensOnly is_open w r.world r.srv.listen_sock
        → Builds w r
    threw :
        (e : Error)
        → r.error ≡ some e
        → ((other : ℤ) → is_open r.world other ≡ is_open w other)
        → Builds w r

  -- From one state to another by so many tries that fail, each with a pause of 100 ms behind it.
  pub data Tries (address : List ℕ) (port : ℕ) (s' : Server) (w' : W)
      : ℕ → Server → W → Type 0 where
    no_try : Tries address port s' w' zero s' w'
    one_more :
        {n : ℕ} (s : Server) (w : W)
        → (open_listening_socket k s w address port).ret ≡ minus_one
        → Tries address port s' w' n
            (record ((open_listening_socket k s w address port).srv) {
              listen_sock = (open_listening_socket k s w address port).ret;
            })
            (k.sys_nanosleep (open_listening_socket k s w address port).world 100)
        → Tries address port s' w' (suc n) s w

  -- A try succeeds after fewer than `limit` that fail, or `limit` of them fail.
  pub data Within (address : List ℕ) (port limit : ℕ) (s : Server) (w : W) (r : Built W)
      : Type 0 where
    opened :
        (n : ℕ) (s' : Server) (w' : W)
        → n < limit
        → Tries address port s' w' n s w
        → (open_listening_socket k s' w' address port).ret ≢ minus_one
        → r ≡ record {
          srv = record ((open_listening_socket k s' w' address port).srv) {
            listen_sock = (open_listening_socket k s' w' address port).ret;
          };
          world = (open_listening_socket k s' w' address port).world;
          error = none;
        }
        → Within address port limit s w r
    gave_up :
        Tries address port r.srv r.world limit s w
        → r.error ≡ some cannot_open
        → Within address port limit s w r

  -- The constructor refuses its arguments and changes nothing, or makes its tries.
  pub data Tried (address : List ℕ) (port : ℕ) (s : Server) (w : W) (r : Built W) : Type 0 where
    refused :
        (e : Error) → r ≡ record { srv = s; world = w; error = some e } → Tried address port s w r
    tried : Within address port 5 s w r → Tried address port s w r
