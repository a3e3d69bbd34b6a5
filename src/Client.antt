-- ===== src/Client.antt =====
-- libnbuss/BaseClient.h and BaseClient.cpp, UnixSocketClient.cpp and TcpClient.cpp: a client is its
-- descriptor and the mode that it was made with. A method takes the client and the state of the
-- system and returns both.
pub mod Write
pub mod Mode
pub mod Path
pub mod Lifetime
use nonblocking_unix_socket.Base.{
  ℕ, ◌+◌, ◌*◌, ◌-◌, ◌/◌, ◌%◌, Bool, true, false, ◌&&◌, not, List, [], ◌∷◌, ◌++◌, Option, none, some,
  ℤ, pos, minus_one, pos_part, ◌==ℤ◌, ltb_ℤ, ltb, leb, ◌==◌, length, take, replicate, if◌then◌else◌,
}
use nonblocking_unix_socket.Kernel.{Kernel, eagain, o_nonblock}
use nonblocking_unix_socket.Transfer.{LoopEnd, write_loop, data_of}
use nonblocking_unix_socket.Server.Io.{set_fd_non_blocking}

pub record Client : Type 0 where
  pub data_socket : ℤ
  pub non_blocking_socket : Bool

-- The exceptions.
pub data Error : Type 0 where
  invalid_buffer_size read_error missing_sockname missing_hostname wrong_port : Error
  socket_error connect_error resolve_error : Error

-- What `write` leaves: the value returned and what it stores in `*_errno`.
pub record Result (W : Type 0) : Type 0 where
  pub world : W
  pub ret : ℤ
  pub errno : ℤ

-- What `read` leaves: the bytes, or the exception.
pub record ReadResult (W : Type 0) : Type 0 where
  pub world : W
  pub buffer : List ℕ
  pub error : Option Error

-- What `connect` leaves.
pub record Connected (W : Type 0) : Type 0 where
  pub client : Client
  pub world : W
  pub error : Option Error

abbrev pub new_client : Bool → Client
new_client non_blocking = record { data_socket = minus_one; non_blocking_socket = non_blocking }

-- `ret` from the last result `c`, its errno and `p - data`, which leaves out what the last call has
-- taken.
unfoldable pub client_result : ℤ → ℕ → ℕ → ℤ
client_result c errno before =
    if c ==ℤ minus_one && errno == eagain
    then if ltb 0 before then pos before else minus_one
    else if c ==ℤ minus_one
    then minus_one
    else pos before

-- <sys/socket.h>
abbrev pub af_unix : ℕ
af_unix = 1

abbrev pub pf_inet : ℕ
pf_inet = 2

abbrev pub sock_stream : ℕ
sock_stream = 1

-- The bytes of a C string.
unfoldable pub c_str : List ℕ → List ℕ
c_str [] = []
c_str (b ∷ bs) = if b == 0 then [] else b ∷ c_str bs

-- `sun_path` after `memset` and `strncpy(…, sizeof(addr.sun_path) - 1)`: 108 bytes.
unfoldable pub sun_path : List ℕ → List ℕ
unfolding c_str
sun_path name = let copied = take 107 (c_str name) in copied ++ replicate (108 - length copied) 0

-- The method `write` is virtual: these two call the one of the client's class, `method` here.
module _ {W : Type 0} (method : Client → W → List ℕ → Result W) where
  -- The template over a vector of elements of `width` bytes.
  unfoldable pub write_t : Client → W → ℕ → List (List ℕ) → Result W
  unfolding data_of
  write_t s w width elements = method s w (data_of width elements)

  -- The overload for a `std::string`, which may hold zero bytes.
  unfoldable pub write_string : Client → W → List ℕ → Result W
  write_string s w text = method s w text

module _ {W : Type 0} (k : Kernel W) where
  -- `BaseClient::write`
  unfoldable pub write : Client → W → List ℕ → Result W
  unfolding client_result
  write s w p =
      if s.data_socket ==ℤ minus_one
      then record { world = w; ret = minus_one; errno = minus_one }
      else let e = write_loop k (length p) w s.data_socket p 0 in
        record { world = e.world; ret = client_result e.c e.errno e.before; errno = pos e.errno }

  -- `BaseClient::read`
  unfoldable pub read : Client → W → ℤ → ReadResult W
  read s w size =
      let r = k.sys_read w s.data_socket (pos_part size) in
      if not (ltb_ℤ (pos 0) size)
      then record { world = w; buffer = []; error = some invalid_buffer_size }
      else if r.c ==ℤ minus_one && r.errno == eagain
      then record { world = r.world; buffer = []; error = none }
      else if r.c ==ℤ minus_one
      then record { world = r.world; buffer = []; error = some read_error }
      else record { world = r.world; buffer = r.bytes; error = none }

  unfoldable pub close : Client → W → Client × W
  close s w =
      if ltb_ℤ s.data_socket (pos 0)
      then (s, w)
      else (record s { data_socket = minus_one }, (k.sys_close w s.data_socket).world)

  -- The destructor.
  unfoldable pub destroy : Client → W → W
  unfolding close
  destroy s w = (close s w).1

  -- The last part of `connect`: the descriptor stays in the client whether this succeeds or not.
  unfoldable pub connect_to : Client → W → List ℕ → Connected W
  connect_to s w addr =
      let r = k.sys_connect w s.data_socket addr in
      record {
        client = s;
        world = r.world;
        error = if r.c ==ℤ minus_one then some connect_error else none;
      }

  -- `UnixSocketClient::connect`
  unfoldable pub connect_unix : Client → W → List ℕ → Connected W
  unfolding connect_to sun_path
  connect_unix s w sockname =
      let flags = if s.non_blocking_socket then sock_stream + o_nonblock else sock_stream in
      let f = k.sys_socket w af_unix flags 0 in
      let t = record s { data_socket = f.c } in
      if length sockname == 0
      then record { client = s; world = w; error = some missing_sockname }
      else if f.c ==ℤ minus_one
      then record { client = t; world = f.world; error = some socket_error }
      else connect_to t f.world (sun_path sockname)

  -- `TcpClient::connect`, once the protocol is known. An address is the port, high byte first, and the bytes of the host; the
  -- source copies the size of a pointer of them.
  unfoldable pub connect_proto : Client → W → ℕ → List ℕ → ℕ → Connected W
  unfolding connect_to c_str
  connect_proto s w proto hostname port =
      let f = k.sys_socket w pf_inet sock_stream proto in
      let t = record s { data_socket = f.c } in
      let (w2, host) = k.sys_gethostbyname f.world (c_str hostname) in
      if f.c ==ℤ minus_one
      then record { client = t; world = f.world; error = some socket_error }
      else elim host [
        | none ↦ record { client = t; world = w2; error = some resolve_error }
        | some addr ↦ connect_to t w2 ((port / 256) ∷ port % 256 ∷ addr)
      ]

  -- `none`: `getprotobyname` has returned a null pointer, which is read through.
  unfoldable pub connect_found : Client → W × Option ℕ → List ℕ → ℕ → Option (Connected W)
  unfolding connect_proto
  connect_found s (w, none) hostname port = none
  connect_found s (w, some proto) hostname port = some (connect_proto s w proto hostname port)

  unfoldable pub connect_tcp : Client → W → List ℕ → ℕ → Option (Connected W)
  unfolding connect_found
  connect_tcp s w hostname port =
      if length hostname == 0
      then some (record { client = s; world = w; error = some missing_hostname })
      else if ltb 65535 port
      then some (record { client = s; world = w; error = some wrong_port })
      else connect_found s (k.sys_getprotobyname w) hostname port

  -- `UnixSocketClient::write`, for more than 4096 bytes: the socket is set to blocking mode first,
  -- and to non-blocking mode behind the write.
  unfoldable pub write_large : Client → W → List ℕ → Result W
  unfolding write
  write_large s w p =
      let (w1, res1) = set_fd_non_blocking k w s.data_socket false in
      let r = write s w1 p in
      let (w2, res2) = set_fd_non_blocking k r.world s.data_socket true in
      if res1 ==ℤ minus_one
      then record { world = w1; ret = minus_one; errno = minus_one }
      else if res2 ==ℤ minus_one
      then record { world = w2; ret = minus_one; errno = minus_one }
      else record { world = w2; ret = r.ret; errno = r.errno }

  unfoldable pub write_unix : Client → W → List ℕ → Result W
  unfolding write_large
  write_unix s w p =
      if leb (length p) 4096
      then write s w p
      else if s.non_blocking_socket
      then write_large s w p
      else write s w p
