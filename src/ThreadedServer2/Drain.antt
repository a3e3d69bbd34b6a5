-- ===== src/ThreadedServer2/Drain.antt =====
-- The writing thread on one write queue: write_holding_lock and the inner loop of
-- write_queue_worker (libnbuss/ThreadedServer2.cpp).
use nonblocking_unix_socket.Base.{
  ℕ, ◌≡◌, ◌≢◌, refl, sym, ap, ◌∙◌, ◌⊎◌, inl, inr, List, [], ◌∷◌, ◌++◌, ℤ, pos, minus_one, ◌==ℤ◌,
  ◌==◌, ==_iff, ltb_ℤ, Bool-cases, true, false, length, take, drop, take_all, take-append-drop,
  append_assoc, append-nil, arith,
}
use nonblocking_unix_socket.Kernel.{Kernel, WriteLaws, FailsOnlyWhenFull}
use nonblocking_unix_socket.Server.{Server}
use nonblocking_unix_socket.Server.Io as Io
use nonblocking_unix_socket.Server.Write.{Accepted, write-Accepted}
use nonblocking_unix_socket.SocketData.{WriteItem}
use nonblocking_unix_socket.SocketData.Queue.{pending}
use nonblocking_unix_socket.ThreadedServer2.{Attempt, write_holding_lock, drain}

rejoin : (a item b : List ℕ) (n : ℕ) → (a ++ take n item) ++ (drop n item ++ b) ≡ a ++ (item ++ b)
rejoin a item b n =
    append_assoc a (take n item) (drop n item ++ b)
    ∙ ap (◌++◌ a) (sym (append_assoc (take n item) (drop n item) b))
    ∙ ap (λ t. a ++ (t ++ b)) (take-append-drop n item)

take_whole :
    (a item b : List ℕ) (n : ℕ) → n ≡ length item → (a ++ take n item) ++ b ≡ a ++ (item ++ b)
take_whole a item b n e =
    ap (λ t. (a ++ t) ++ b) (take_all n item (omega arith)) ∙ append_assoc a item b

take_none : (a item : List ℕ) (n : ℕ) → n ≡ 0 → a ++ take n item ≡ a
take_none a item n e = ap (λ m. a ++ take m item) e ∙ append-nil a

module _ {W : Type 0} (k : Kernel W) (sent : W → ℤ → List ℕ) (laws : WriteLaws k sent)
    (full : FailsOnlyWhenFull k) where
  -- No byte is lost, doubled or moved: the stream of the descriptor followed by what waits is as
  -- before, and no other stream changes. The loop has stopped at a write that was not complete,
  -- or the queue is empty.
  pub record Conserves (w : W) (fd : ℤ) (q : List WriteItem) (r : Attempt W) : Type 0 where
    pub stream : sent r.world fd ++ pending r.write_queue ≡ sent w fd ++ pending q
    pub apart : (other : ℤ) → fd ≢ other → sent r.world other ≡ sent w other
    pub outcome : (r.ret ≡ minus_one) ⊎ (r.write_queue ≡ [])

  -- What one call of `write_holding_lock` does, by its result.
  pub record Tries (w : W) (fd : ℤ) (item : WriteItem) (q : List WriteItem) (r : Attempt W)
      : Type 0 where
    pub stream : sent r.world fd ++ pending r.write_queue ≡ sent w fd ++ pending (item ∷ q)
    pub apart : (other : ℤ) → fd ≢ other → sent r.world other ≡ sent w other
    pub outcome : (r.ret ≡ minus_one) ⊎ ((r.write_queue ≡ q) × ((r.ret ==ℤ minus_one) ≡ false))

  attempt-Tries :
      (s : Server) (w : W) (fd : ℤ) (item : WriteItem) (q : List WriteItem)
      → fd ≢ minus_one
      → Tries w fd item q (write_holding_lock k s w fd item q)
  unfolding write_holding_lock
  attempt-Tries s w fd item q ne = elim a.reported [
    | inr (e, none) ↦ rw e (record {
      stream =
          ap (λ t. t ++ (item ++ pending q)) (a.stream ∙ take_none (sent w fd) item a.count none);
      apart = a.apart;
      outcome = inl refl;
    })
    | inl e ↦ elim (Bool-cases (a.count == length item)) [
      | inl all ↦
          rw (e, all)
            (record {
              stream =
                  ap (λ t. t ++ pending q) a.stream
                  ∙ take_whole (sent w fd) item (pending q) a.count
                      (omega (arith, (==_iff _ _).0 all));
              apart = a.apart;
              outcome = inr (refl, refl);
            })
      | inr part ↦
          let less : ltb_ℤ (pos a.count) (pos (length item)) ≡ true = ground (arith, a.bounded) in
          rw (e, part, less)
            (record {
              stream =
                  ap (λ t. t ++ (drop a.count item ++ pending q)) a.stream
                  ∙ rejoin (sent w fd) item (pending q) a.count;
              apart = a.apart;
              outcome = inl refl;
            })
    ]
  ]
    where
      a : Accepted sent w fd item (Io.write k s w fd item)
      a = write-Accepted k sent laws full s w fd item ne

  -- When the writing thread drains the queue of a descriptor other than -1, where a write fails
  -- for no other reason than a full buffer, the stream of the descriptor followed by what waits is
  -- as before, no other stream changes, and the loop ends with -1 or with an empty queue.
  pub drain-Conserves :
      (s : Server) (w : W) (fd : ℤ) (q : List WriteItem)
      → fd ≢ minus_one
      → Conserves w fd q (drain k s w fd q)
  unfolding drain
  drain-Conserves s w fd [] ne = record {
    stream = refl;
    apart = λ other h. refl;
    outcome = inr refl;
  }
  drain-Conserves s w fd (item ∷ q) ne =
      let r = write_holding_lock k s w fd item q in
      let t = attempt-Tries s w fd item q ne in
      elim t.outcome [
        | inl e ↦ rw e (record { stream = t.stream; apart = t.apart; outcome = inl e })
        | inr (same, more) ↦
            let c : Conserves r.world fd q (drain k r.srv r.world fd q) =
              drain-Conserves r.srv r.world fd q ne in
            rw more (record {
              stream = c.stream ∙ ap (λ x. sent r.world fd ++ pending x) (sym same) ∙ t.stream;
              apart = λ other h. c.apart other h ∙ t.apart other h;
              outcome = c.outcome;
            })
      ]
