-- ===== src/ThreadedServer2/Write.antt =====
-- What ThreadedServer2::write does with the data that the system does not take
-- (libnbuss/ThreadedServer2.cpp).
use nonblocking_unix_socket.Base.{
  ℕ, ◌≡◌, ◌≢◌, ◌≤◌, refl, sym, subst, ap, ◌∙◌, inl, inr, List, [], ◌++◌, ℤ, pos, minus_one, ◌==◌,
  ==_iff, ltb_ℤ, Bool-cases, true, length, take, drop, drop_all, append-nil, arith,
}
use nonblocking_unix_socket.Kernel.{Kernel, WriteLaws, FailsOnlyWhenFull}
use nonblocking_unix_socket.Server.Io as Io
use nonblocking_unix_socket.Server.Write.{Accepted, write-Accepted}
use nonblocking_unix_socket.SocketData.{push_front}
use nonblocking_unix_socket.SocketData.Queue.{pending}
use nonblocking_unix_socket.ThreadedServer2.{Async, Written, write, write_or_queue, get_socket_data}

module _ {W B : Type 0} (k : Kernel W) (sent : W → ℤ → List ℕ) where
  -- `write` claims to have taken all of the data. The stream has its first `count` bytes; the
  -- other bytes are in the copy of the queue that is destroyed, and the queue itself is empty.
  pub record Drops (s : Async W B) (fd : ℤ) (p : List ℕ) (r : Written W B) : Type 0 where
    pub count : ℕ
    pub bounded : count ≤ length p
    pub claimed : r.ret ≡ pos (length p)
    pub stream : sent r.state.world fd ≡ sent s.world fd ++ take count p
    pub in_copy : pending r.local_queue ≡ drop count p
    pub not_queued : (get_socket_data r.state fd).write_queue ≡ []
    pub others_stay :
        (other : ℤ) → fd ≢ other → get_socket_data r.state other ≡ get_socket_data s other

  module _ (laws : WriteLaws k sent) (full : FailsOnlyWhenFull k) where
    offered-Drops :
        (s : Async W B) (fd : ℤ) (p : List ℕ)
        → fd ≢ minus_one
        → (s.app.internal_socket_data fd).write_queue ≡ []
        → Drops s fd p (write_or_queue k [] s fd p)
    unfolding write_or_queue push_front get_socket_data
    offered-Drops s fd p ne e = elim a.reported [
      | inr (ret, none) ↦ rw ret (record {
        count = a.count;
        bounded = a.bounded;
        claimed = refl;
        stream = a.stream;
        in_copy = append-nil p ∙ sym (ap (λ n. drop n p) none);
        not_queued = e;
        others_stay = λ other h. refl;
      })
      | inl ret ↦ elim (Bool-cases (a.count == length p)) [
        | inl all ↦
            let same : a.count ≡ length p = (==_iff _ _).0 all in
            rw (ret, all)
              (record {
                count = a.count;
                bounded = a.bounded;
                claimed = ap pos same;
                stream = a.stream;
                in_copy = sym (drop_all a.count p (omega arith));
                not_queued = e;
                others_stay = λ other h. refl;
              })
        | inr part ↦
            let less : ltb_ℤ (pos a.count) (pos (length p)) ≡ true = ground (arith, a.bounded) in
            rw (ret, part, less)
              (record {
                count = a.count;
                bounded = a.bounded;
                claimed = refl;
                stream = a.stream;
                in_copy = append-nil (drop a.count p);
                not_queued = e;
                others_stay = λ other h. refl;
              })
      ]
    ]
      where
        a : Accepted sent s.world fd p (Io.write k s.srv s.world fd p)
        a = write-Accepted k sent laws full s.srv s.world fd p ne

    -- A write to a descriptor other than -1 with an empty queue, where a write fails for no other
    -- reason than a full buffer, returns the full size of the data; the bytes that the stream has
    -- not taken are in the copy of the queue that is destroyed, and the queue itself stays empty.
    pub write-Drops :
        (s : Async W B) (fd : ℤ) (p : List ℕ)
        → fd ≢ minus_one
        → (get_socket_data s fd).write_queue ≡ []
        → Drops s fd p (write k s fd p)
    unfolding write
    write-Drops s fd p ne e =
        subst (λ q. Drops s fd p (write_or_queue k q s fd p)) (sym e)
          (offered-Drops s fd p ne (unfold get_socket_data in e))
