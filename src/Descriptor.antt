-- ===== src/Descriptor.antt =====
-- libnbuss/FileDescriptor.h and libnbuss/UnixPipe.h: a descriptor that closes itself, and a pipe.
use nonblocking_unix_socket.Base.{
  ℕ, ◌-◌, List, [], ◌∷◌, Option, none, some, ℤ, pos, negsuc, minus_one, ltb_ℤ, ltb, ◌==ℤ◌,
  if◌then◌else◌,
}
use nonblocking_unix_socket.Kernel.{Kernel}

-- What `FileDescriptor::close` leaves: the field `fd` and the value returned.
pub record Closed (W : Type 0) : Type 0 where
  pub world : W
  pub fd : ℤ
  pub ret : ℤ

-- `UnixPipe`: `fd[0]` and `fd[1]`.
pub record UnixPipe : Type 0 where
  pub read_fd : ℤ
  pub write_fd : ℤ

-- A `char` as an `int`: it is signed.
unfoldable pub char_value : ℕ → ℤ
char_value b = if ltb b 128 then pos b else negsuc (255 - b)

-- `none`: no byte came, and `ch` is returned uninitialised.
unfoldable pub first_char : List ℕ → Option ℤ
unfolding char_value
first_char [] = none
first_char (b ∷ bs) = some (char_value b)

module _ {W : Type 0} (k : Kernel W) where
  -- `FileDescriptor::close`
  unfoldable pub close_descriptor : W → ℤ → Closed W
  close_descriptor w fd =
      if ltb_ℤ fd (pos 0)
      then record { world = w; fd = fd; ret = minus_one }
      else let r = k.sys_close w fd in
        record { world = r.world; fd = if r.c ==ℤ minus_one then fd else minus_one; ret = r.c }

  -- The constructor: where `pipe` fails, the ends keep the value -1.
  unfoldable pub make_pipe : W → W × UnixPipe
  make_pipe w =
      let r = k.sys_pipe w in
      (
        r.world,
        if r.c ==ℤ minus_one
            then record { read_fd = minus_one; write_fd = minus_one }
            else record { read_fd = r.read_end; write_fd = r.write_end },
      )

  -- The destructor.
  unfoldable pub destroy_pipe : W → UnixPipe → W
  destroy_pipe w p = (k.sys_close (k.sys_close w p.read_fd).world p.write_fd).world

  unfoldable pub pipe_write : W → UnixPipe → ℕ → W × ℤ
  pipe_write w p ch = let r = k.sys_write w p.write_fd (ch ∷ []) in (r.world, r.c)

  unfoldable pub pipe_read : W → UnixPipe → W × Option ℤ
  unfolding first_char
  pipe_read w p =
      let r = k.sys_read w p.read_fd 1 in
      (r.world, if r.c ==ℤ minus_one then some r.c else first_char r.bytes)
