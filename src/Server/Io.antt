-- ===== src/Server/Io.antt =====
-- IGenericServer::write, read, read_one_buffer, set_fd_non_blocking, get_buffers_size and
-- set_send_buffer_size (libnbuss/IGenericServer.cpp).
use nonblocking_unix_socket.Base.{
  ℕ, zero, suc, ◌+◌, ◌*◌, ◌/◌, Bool, ◌&&◌, List, [], ◌∷◌, Option, none, some, ℤ, pos, minus_one,
  pos_part, ltb_ℤ, ◌==ℤ◌, ltb, ◌==◌, bit_and, length, replicate, take, if◌then◌else◌,
}
use nonblocking_unix_socket.Kernel.{Kernel, eagain, o_nonblock, so_sndbuf, so_rcvbuf}
use nonblocking_unix_socket.Transfer.{write_loop, data_of}
use nonblocking_unix_socket.Server.{Server, set_io}

-- What a method that returns a number leaves. `errno` is what it stores in `*_errno`.
pub record Result (W : Type 0) : Type 0 where
  pub srv : Server
  pub world : W
  pub ret : ℤ
  pub errno : ℤ

-- `ret` from the last result `c`, its errno and `p - data`.
unfoldable pub write_result : ℤ → ℕ → ℕ → ℤ
write_result c errno total =
    if c ==ℤ minus_one && errno == eagain
    then if ltb 0 total then pos total else minus_one
    else if c ==ℤ minus_one
    then minus_one
    else pos total

unfoldable pub push_buffer :
    {W : Type 0} → List ℕ → Option (W × List (List ℕ) × ℕ) → Option (W × List (List ℕ) × ℕ)
push_buffer b none = none
push_buffer b (some (w, bs, e)) = some (w, b ∷ bs, e)

-- The result of `read`: the buffers in order.
pub record ReadResult (W : Type 0) : Type 0 where
  pub srv : Server
  pub world : W
  pub buffers : List (List ℕ)
  pub errno : ℤ

pub record Buffer (W : Type 0) : Type 0 where
  pub srv : Server
  pub world : W
  pub buffer : List ℕ
  pub errno : ℤ
  pub bytes_read : ℤ

pub record BufferSizes (W : Type 0) : Type 0 where
  pub world : W
  pub ret : ℤ
  pub send_buffer_size : ℤ
  pub receive_buffer_size : ℤ

module _ {W : Type 0} (k : Kernel W) where
  -- The data from `data` on is a list, and `data_size` its length. After the loop `p` stands
  -- behind what the last call has taken, if it has taken anything.
  unfoldable pub write : Server → W → ℤ → List ℕ → Result W
  unfolding write_result
  write s w fd p =
      if fd ==ℤ minus_one
      then record { srv = s; world = w; ret = minus_one; errno = minus_one }
      else let e = write_loop k (length p) w fd p 0 in
        record {
          srv = set_io s fd;
          world = e.world;
          ret = write_result e.c e.errno (e.before + pos_part e.c);
          errno = pos e.errno;
        }

  -- The template over a vector of elements of `width` bytes.
  unfoldable pub write_t : Server → W → ℤ → ℕ → List (List ℕ) → Result W
  unfolding write data_of
  write_t s w fd width elements = write s w fd (data_of width elements)

  -- One `::read` into a new buffer of `size` bytes. A buffer that is kept after an error holds the
  -- zeros that `emplace_back(buffer_size)` has put there. `none`: the fuel ran out.
  unfoldable pub read_loop : ℕ → W → ℤ → ℕ → Option (W × List (List ℕ) × ℕ)
  unfolding push_buffer
  read_loop zero w fd size = none
  read_loop (suc fuel) w fd size =
      let r = k.sys_read w fd size in
      let rest = read_loop fuel r.world fd size in
      if r.c ==ℤ minus_one && r.errno == eagain
      then some (r.world, [], r.errno)
      else if r.c ==ℤ minus_one
      then some (r.world, replicate size 0 ∷ [], r.errno)
      else if r.c ==ℤ pos 0
      then some (r.world, [], r.errno)
      else push_buffer r.bytes rest

  unfoldable pub read_result : Server → Option (W × List (List ℕ) × ℕ) → Option (ReadResult W)
  read_result s none = none
  read_result s (some (w, bs, e)) =
      some (record { srv = s; world = w; buffers = bs; errno = pos e })

  unfoldable pub read : ℕ → Server → W → ℤ → ℕ → Option (ReadResult W)
  unfolding read_result
  read fuel s w fd size = read_result (set_io s fd) (read_loop fuel w fd size)

  -- `c >= 0`: the buffer is cut to the bytes read. After any error it is empty.
  unfoldable pub read_one_buffer : Server → W → ℤ → ℕ → Buffer W
  read_one_buffer s w fd size =
      let r = k.sys_read w fd size in
      record {
        srv = set_io s fd;
        world = r.world;
        buffer = if ltb_ℤ r.c (pos 0) then [] else r.bytes;
        errno = pos r.errno;
        bytes_read = r.c;
      }

  -- The template over an element of `width` bytes. The buffer is cut to whole elements.
  unfoldable pub read_one_buffer_t : Server → W → ℤ → ℕ → ℕ → Buffer W
  read_one_buffer_t s w fd width size =
      let r = k.sys_read w fd (size * width) in
      record {
        srv = set_io s fd;
        world = r.world;
        buffer = if ltb_ℤ r.c (pos 0) then [] else take (pos_part r.c / width * width) r.bytes;
        errno = pos r.errno;
        bytes_read = r.c;
      }

  -- `res & (non_blocking ? O_NONBLOCK : !O_NONBLOCK)`, where `!O_NONBLOCK` is 0.
  unfoldable pub set_fd_non_blocking : W → ℤ → Bool → W × ℤ
  set_fd_non_blocking w fd non_blocking =
      let got = k.sys_getfl w fd in
      let put =
        k.sys_setfl got.world fd
          (bit_and (pos_part got.c) (if non_blocking then o_nonblock else 0)) in
      if got.c ==ℤ minus_one then (got.world, got.c) else (put.world, put.c)

  -- The sizes are reference parameters: what is not written keeps the caller's value.
  unfoldable pub get_buffers_size : W → ℤ → ℤ → ℤ → BufferSizes W
  get_buffers_size w fd send receive =
      let a = k.sys_getsockopt w fd so_sndbuf in
      let b = k.sys_getsockopt a.world fd so_rcvbuf in
      if a.c ==ℤ minus_one
      then record {
        world = a.world;
        ret = minus_one;
        send_buffer_size = send;
        receive_buffer_size = receive;
      }
      else if b.c ==ℤ minus_one
      then record {
        world = b.world;
        ret = minus_one;
        send_buffer_size = a.value;
        receive_buffer_size = receive;
      }
      else record {
        world = b.world;
        ret = pos 0;
        send_buffer_size = a.value;
        receive_buffer_size = b.value;
      }

  unfoldable pub set_send_buffer_size : W → ℤ → ℤ → W × ℤ
  set_send_buffer_size w fd size =
      let r = k.sys_setsockopt w fd so_sndbuf size in
      (r.world, if r.c ==ℤ minus_one then minus_one else pos 0)
