-- ===== src/Echo/Linked.antt =====
-- `my_listener` of main/main.cpp at one end of a connection: what waits there goes back to the other
-- end.
use nonblocking_unix_socket.Base.{
  ℕ, zero, suc, ◌<◌, ◌≡◌, ◌≢◌, ◌⊎◌, inl, inr, refl, sym, ap, ◌∙◌, false, List, [], ◌∷◌, ◌++◌,
  append-nil, append_assoc, Option, some, ℤ, pos, minus_one, ne→==ℤ, ◌==◌, length, take, drop,
  drop_all, length-drop, take-append-drop, arith,
}
use nonblocking_unix_socket.Kernel.{Kernel, eagain}
use nonblocking_unix_socket.Transfer.{joined}
use nonblocking_unix_socket.Transfer.Full.{TakesAll, full_unroll}
use nonblocking_unix_socket.Client.Path.{nonzero}
use nonblocking_unix_socket.Server.{Server, State, ListenEvent, available_for_read, set_io}
use nonblocking_unix_socket.Server.Io as Io
use nonblocking_unix_socket.Server.Io.{push_buffer}
use nonblocking_unix_socket.Echo.{buffer_size, echo, echo_all, my_listener}

-- `here` is an end of a connection whose other end is `there`, with room for what is written.
-- `waiting w fd` is what waits to be read on `fd`: a write goes behind what waits on the other end,
-- and a read takes as much as it can of what waits, or fails with EAGAIN if nothing does.
pub record Linked {W : Type 0} (k : Kernel W) (waiting : W → ℤ → List ℕ) (here there : ℤ)
    : Type 0 where
  pub takes : TakesAll k here
  pub delivers :
      (w : W) (p : List ℕ) → waiting (k.sys_write w here p).world there ≡ waiting w there ++ p
  pub write_keeps :
      (w : W) (p : List ℕ) → waiting (k.sys_write w here p).world here ≡ waiting w here
  pub read_gives :
      (w : W) (n : ℕ)
      → let r = k.sys_read w here n in
        ((waiting w here ≡ []) × (r.c ≡ minus_one) × (r.errno ≡ eagain))
        ⊎ ((0 < length (waiting w here))
            × (r.c ≡ pos (length r.bytes))
            × (r.bytes ≡ take n (waiting w here)))
  pub read_leaves :
      (w : W) (n : ℕ) → waiting (k.sys_read w here n).world here ≡ drop n (waiting w here)
  pub read_keeps : (w : W) (n : ℕ) → waiting (k.sys_read w here n).world there ≡ waiting w there

some_taken :
    (n : ℕ) (xs bytes : List ℕ) → 0 < n → 0 < length xs → bytes ≡ take n xs → length bytes ≢ 0
some_taken zero xs bytes room some_byte e z = absurd (omega (arith, room))
some_taken (suc n) [] bytes room some_byte e z = absurd (omega (arith, some_byte))
some_taken (suc n) (x ∷ xs) bytes room some_byte e z = omega (arith, ap length e, z)

shorter :
    (n : ℕ) (xs rest : List ℕ) (fuel : ℕ)
    → 0 < n
    → 0 < length xs
    → rest ≡ drop n xs
    → length xs < suc fuel
    → length rest < fuel
shorter n xs rest fuel room some_byte e enough =
    omega (arith, ap length e, length-drop n xs, room, some_byte, enough)

module _ {W : Type 0} (k : Kernel W) (waiting : W → ℤ → List ℕ) (here there : ℤ)
    (link : Linked k waiting here there) where
  -- All that waited has been read.
  record Drained (w : W) (r : Option (W × List (List ℕ) × ℕ)) : Type 0 where
    after : W
    buffers : List (List ℕ)
    last_errno : ℕ
    returns : r ≡ some (after, buffers, last_errno)
    read_all : joined buffers ≡ waiting w here
    nothing_left : waiting after here ≡ []
    kept : waiting after there ≡ waiting w there

  read_loop-Drained :
      (fuel : ℕ) (w : W) (size : ℕ)
      → length (waiting w here) < fuel
      → 0 < size
      → Drained w (Io.read_loop k fuel w here size)
  unfolding Io.read_loop push_buffer
  read_loop-Drained zero w size enough some_room = absurd (omega (arith, enough))
  read_loop-Drained (suc fuel) w size enough some_room =
      let r = k.sys_read w here size in
      elim (link.read_gives w size) [
        | inl (empty, c, e) ↦
            rw (c, e)
              (record {
                after = r.world;
                buffers = [];
                last_errno = eagain;
                returns = refl;
                read_all = sym empty;
                nothing_left =
                    link.read_leaves w size ∙ ap (drop size) empty ∙ drop_all size [] (omega arith);
                kept = link.read_keeps w size;
              })
        | inr (some_byte, c, b) ↦
            let left : waiting r.world here ≡ drop size (waiting w here) =
              link.read_leaves w size in
            let some_read : (length r.bytes == 0) ≡ false =
              nonzero (length r.bytes)
                (some_taken size (waiting w here) r.bytes some_room some_byte b) in
            let rest =
              read_loop-Drained fuel r.world size
                (shorter size (waiting w here) (waiting r.world here) fuel some_room some_byte left
                  enough)
                some_room in
            rw (c, some_read, rest.returns)
              (record {
                after = rest.after;
                buffers = r.bytes ∷ rest.buffers;
                last_errno = rest.last_errno;
                returns = refl;
                read_all =
                    ap (λ bs. r.bytes ++ bs) (rest.read_all ∙ left)
                    ∙ ap (λ bs. bs ++ drop size (waiting w here)) b
                    ∙ take-append-drop size (waiting w here);
                nothing_left = rest.nothing_left;
                kept = rest.kept ∙ link.read_keeps w size;
              })
      ]

module _ {W : Type 0} (k : Kernel W) (waiting : W → ℤ → List ℕ) (here there : ℤ)
    (link : Linked k waiting here there) (valid : here ≢ minus_one) where
  write-delivers :
      (s : Server) (w : W) (p : List ℕ)
      → let r = Io.write k s w here p in
        (waiting r.world there ≡ waiting w there ++ p) × (waiting r.world here ≡ waiting w here)
  unfolding Io.write
  write-delivers s w p =
      rw (ne→==ℤ here minus_one valid, full_unroll k w here p link.takes)
        (link.delivers w p, link.write_keeps w p)

module _ {W A : Type 0} (k : Kernel W) (waiting : W → ℤ → List ℕ) (here there : ℤ)
    (link : Linked k waiting here there) (valid : here ≢ minus_one) where
  echo_all-delivers :
      (s : State W A) (items : List (List ℕ))
      → let t = echo_all k s here items in
        (waiting t.world there ≡ waiting s.world there ++ joined items)
        × (waiting t.world here ≡ waiting s.world here)
  unfolding echo_all
  echo_all-delivers s [] = (sym (append-nil _), refl)
  echo_all-delivers s (item ∷ items) =
      let r = Io.write k s.srv s.world here item in
      let one = write-delivers k waiting here there link valid s.srv s.world item in
      let rest = echo_all-delivers (record s { srv = r.srv; world = r.world }) items in
      (
        rest.0
            ∙ ap (λ bs. bs ++ joined items) one.0
            ∙ append_assoc (waiting s.world there) item (joined items),
        rest.1 ∙ one.1,
      )

  -- Everything that waited goes back.
  pub my_listener-answers :
      (fuel : W → ℕ) (s : State W A) (ev : ListenEvent)
      → length (waiting s.world here) < fuel s.world
      → ev.job ≡ available_for_read
      → ev.fd ≡ here
      → let t = my_listener k fuel s ev in
        (waiting t.world there ≡ waiting s.world there ++ waiting s.world here)
        × (waiting t.world here ≡ [])
  unfolding my_listener echo Io.read Io.read_result
  my_listener-answers fuel s ev enough job fd =
      let d =
        read_loop-Drained k waiting here there link (fuel s.world) s.world buffer_size enough
          (omega arith) in
      let sent =
        echo_all-delivers (record s { srv = set_io s.srv here; world = d.after }) d.buffers in
      rw (job, fd, d.returns)
        (
          sent.0
              ∙ ap (λ bs. bs ++ joined d.buffers) d.kept
              ∙ ap (λ bs. waiting s.world there ++ bs) d.read_all,
          sent.1 ∙ d.nothing_left,
        )
