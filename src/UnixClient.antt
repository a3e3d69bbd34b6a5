-- ===== src/UnixClient.antt =====
-- unix_socket_client/unixsocketclient.c: a client in C that sends its arguments and the word END,
-- each with its zero byte, and prints what it reads. An argument is the bytes before its zero byte.
pub mod Request
pub mod Result
use nonblocking_unix_socket.Base.{
  ℕ, ◌-◌, Bool, List, [], ◌∷◌, ◌++◌, Option, none, some, ℤ, minus_one, ◌==ℤ◌, length, drop, set,
  if◌then◌else◌,
}
use nonblocking_unix_socket.Kernel.{Kernel, Sys}
use nonblocking_unix_socket.Client.{af_unix, sock_stream, sun_path, c_str}

-- "/tmp/mysocket.sock"
abbrev pub socket_name : List ℕ
socket_name =
    b'/' ∷ b't' ∷ b'm' ∷ b'p' ∷ b'/' ∷ b'm' ∷ b'y' ∷ b's' ∷ b'o' ∷ b'c' ∷ b'k' ∷ b'e' ∷ b't' ∷ b'.'
    ∷ b's' ∷ b'o' ∷ b'c' ∷ b'k' ∷ []

abbrev pub buffer_size : ℕ
buffer_size = 12

-- "END" with its zero byte.
abbrev pub end_word : List ℕ
end_word = b'E' ∷ b'N' ∷ b'D' ∷ []

-- What the program leaves: the exit code, and what it has printed as its result.
pub record Ran (W : Type 0) : Type 0 where
  pub world : W
  pub exit_code : ℕ
  pub printed : Option (List ℕ)

-- The buffer after `read`, zero-terminated, as a C string. `buffer` is what it held before.
unfoldable pub result_of : List ℕ → List ℕ → List ℕ
unfolding c_str
result_of buffer bytes = c_str (set (bytes ++ drop (length bytes) buffer) (buffer_size - 1) 0)

module _ {W : Type 0} (k : Kernel W) where
  -- `for (i = 1; i < argc; ++i)`, left at the first write that fails.
  unfoldable pub send_arguments : W → ℤ → List (List ℕ) → W
  send_arguments w fd [] = w
  send_arguments w fd (arg ∷ args) =
      let r = k.sys_write w fd (arg ++ 0 ∷ []) in
      let rest = send_arguments r.world fd args in if r.c ==ℤ minus_one then r.world else rest

  -- The arguments, and the word END.
  unfoldable pub send_request : W → ℤ → List (List ℕ) → Sys W
  unfolding send_arguments
  send_request w fd args = k.sys_write (send_arguments w fd args) fd (end_word ++ 0 ∷ [])

  -- `rest` is what the buffer holds behind the word END, which is not initialised.
  unfoldable pub receive : W → ℤ → List ℕ → Ran W
  unfolding result_of
  receive w fd rest =
      let r = k.sys_read w fd buffer_size in
      if r.c ==ℤ minus_one
      then record { world = r.world; exit_code = 1; printed = none }
      else record {
        world = (k.sys_close r.world fd).world;
        exit_code = 0;
        printed = some (result_of ((end_word ++ 0 ∷ []) ++ rest) r.bytes);
      }

  unfoldable pub main : W → List (List ℕ) → List ℕ → Ran W
  unfolding send_request receive
  main w args rest =
      let f = k.sys_socket w af_unix sock_stream 0 in
      let c = k.sys_connect f.world f.c (sun_path socket_name) in
      let q = send_request c.world f.c args in
      if f.c ==ℤ minus_one
      then record { world = f.world; exit_code = 1; printed = none }
      else if c.c ==ℤ minus_one
      then record { world = c.world; exit_code = 1; printed = none }
      else if q.c ==ℤ minus_one
      then record { world = q.world; exit_code = 1; printed = none }
      else receive q.world f.c rest
