-- ===== src/WorkQueue/Pool/Silence.antt =====
-- What WorkQueue::close takes out of the deque, with consumers at work (libnbuss/WorkQueue.cpp).
use nonblocking_unix_socket.Base.{
  ◌+◌, ◌≤◌, ◌≡◌, ◌≢◌, refl, ap, ◌∙◌, Bool, Bool-cases, inl, inr, true, false, List, [], ◌∷◌, Option,
  none, some, ℤ, ◌==ℤ◌, ==ℤ→eq, arith, if◌then◌else◌,
}
use nonblocking_unix_socket.Server.{ListenEvent}
use nonblocking_unix_socket.WorkQueue.{Item, mark_all, producer_callback, report_item, queue_of}
use nonblocking_unix_socket.WorkQueue.Fifo.{live, live-append, live-mark, without, waits, given}
use nonblocking_unix_socket.WorkQueue.Pool.{
  Pool, Act, produced, took, reported, closed, pick, take_off, give, act, run,
}
use nonblocking_unix_socket.WorkQueue.Pool.Account.{
  count, count-append, count-item, event_of, total, take-total, give-total, pick-Picked,
}

-- The events of one descriptor.
abbrev pub is_of : ℤ → ListenEvent → Bool
is_of fd e = e.fd ==ℤ fd

-- No event of the descriptor is reported by the server.
abbrev pub NotProduced : ℤ → List Act → Type 0
NotProduced fd [] = Unit
NotProduced fd (produced e ∷ acts) = (e.fd ≢ fd) × NotProduced fd acts
NotProduced fd (_ ∷ acts) = NotProduced fd acts

count-without_same : (fd : ℤ) (es : List ListenEvent) → count (is_of fd) (without fd es) ≡ 0
count-without_same fd [] = refl
count-without_same fd (e ∷ es) = ground (arith, count-without_same fd es)

count-without_le :
    (p : ListenEvent → Bool) (fd : ℤ) (es : List ListenEvent) → count p (without fd es) ≤ count p es
count-without_le p fd [] = omega arith
count-without_le p fd (e ∷ es) = ground (arith, count-without_le p fd es)

count_other : (fd : ℤ) (e : ListenEvent) → e.fd ≢ fd → count (is_of fd) (event_of e ∷ []) ≡ 0
count_other fd e ne = ground (arith, ==ℤ→eq e.fd fd)

rest_unproduced :
    (fd : ℤ) (a : Act) (acts : List Act) → NotProduced fd (a ∷ acts) → NotProduced fd acts
rest_unproduced fd (produced e) acts h = h.1
rest_unproduced fd took acts h = h
rest_unproduced fd (reported n) acts h = h
rest_unproduced fd (closed other) acts h = h

module _ {W : Type 0} where
  -- No event of the descriptor waits in `t`, and those given out and in hand are as many as in `s`.
  abbrev IsQuiet : ℤ → Pool W → Pool W → Type 0
  IsQuiet fd s t =
      (count (is_of fd) (waits t.queue) ≡ 0)
      × (count (is_of fd) (given t.queue) + count (is_of fd) (live t.hands)
          ≡ count (is_of fd) (given s.queue) + count (is_of fd) (live s.hands))

  -- Where nothing of it waits, the total tells.
  by_total :
      (fd : ℤ) (s t : Pool W)
      → count (is_of fd) (waits s.queue) ≡ 0
      → count (is_of fd) (waits t.queue) ≡ 0
      → total (is_of fd) t ≡ total (is_of fd) s
      → IsQuiet fd s t
  by_total fd s t a b e = (b, omega (arith, a, b, e))

  take_off-waits :
      (p : ListenEvent → Bool) (s : Pool W) (is : List Item)
      → (queue_of s.queue).deque ≡ is
      → count p (waits (take_off s is).queue) ≤ count p (waits s.queue)
  unfolding take_off
  take_off-waits p s [] e = omega arith
  take_off-waits p s (i ∷ is) e = rw e (omega (arith, count-item p i is))

  take-waits :
      (p : ListenEvent → Bool) (s : Pool W) (b : Bool)
      → count p (waits (if b then s else take_off s (queue_of s.queue).deque).queue)
        ≤ count p (waits s.queue)
  take-waits p s true = omega arith
  take-waits p s false = take_off-waits p s (queue_of s.queue).deque refl

  give-waits : (s : Pool W) (o : Option (Item × List Item)) → waits (give s o).queue ≡ waits s.queue
  unfolding give report_item
  give-waits s none = refl
  give-waits s (some (i, is)) = elim (Bool-cases i.process) [
    | inl e ↦ rw e refl
    | inr e ↦ rw e refl
  ]

  produce-IsQuiet :
      (fd : ℤ) (s : Pool W) (e : ListenEvent)
      → e.fd ≢ fd
      → count (is_of fd) (waits s.queue) ≡ 0
      → IsQuiet fd s (act s (produced e))
  unfolding act producer_callback
  produce-IsQuiet fd s e ne q =
      let item : Item = record { fd = e.fd; job = e.job; process = true } in
      (
        omega (
          arith,
          ap (count (is_of fd)) (live-append (queue_of s.queue).deque (item ∷ [])),
          count-append (is_of fd) (waits s.queue) (event_of e ∷ []),
          count_other fd e ne,
          q,
        ),
        refl,
      )

  act-IsQuiet :
      (fd : ℤ) (s : Pool W) (a : Act) (acts : List Act)
      → NotProduced fd (a ∷ acts)
      → count (is_of fd) (waits s.queue) ≡ 0
      → IsQuiet fd s (act s a)
  unfolding act mark_all
  act-IsQuiet fd s (produced e) acts n q = produce-IsQuiet fd s e n.0 q
  act-IsQuiet fd s took acts n q =
      by_total fd s (act s took) q (omega (arith, take-waits (is_of fd) s _, q))
        (take-total (is_of fd) s _)
  act-IsQuiet fd s (reported m) acts n q =
      by_total fd s (give s (pick m s.hands)) q
        (ap (count (is_of fd)) (give-waits s (pick m s.hands)) ∙ q)
        (give-total (is_of fd) s (pick m s.hands) (pick-Picked (is_of fd) m s.hands))
  act-IsQuiet fd s (closed other) acts n q = (
    omega (
      arith,
      ap (count (is_of fd)) (live-mark other (queue_of s.queue).deque),
      count-without_le (is_of fd) other (waits s.queue),
      q,
    ),
    refl,
  )

  run-IsQuiet :
      (fd : ℤ) (s : Pool W) (acts : List Act)
      → NotProduced fd acts
      → count (is_of fd) (waits s.queue) ≡ 0
      → IsQuiet fd s (run s acts)
  unfolding run
  run-IsQuiet fd s [] n q = (q, refl)
  run-IsQuiet fd s (a ∷ acts) n q =
      let step = act-IsQuiet fd s a acts n q in
      let rest = run-IsQuiet fd (act s a) acts (rest_unproduced fd a acts n) step.0 in
      (rest.0, rest.1 ∙ step.1)

  -- After WorkQueue::close has marked the items of a descriptor, and as long as the server reports
  -- no event of it, however consumers that may have items in hand, the server and users who close
  -- descriptors work on, no event of it waits, and its events that the callback has been given and
  -- those in hand are together as many as they were before the close: only what a consumer had
  -- already taken can still be given out.
  pub close_silences :
      (fd : ℤ) (s : Pool W) (acts : List Act)
      → NotProduced fd acts
      → let t = run (act s (closed fd)) acts in
        (count (is_of fd) (waits t.queue) ≡ 0)
        × (count (is_of fd) (given t.queue) + count (is_of fd) (live t.hands)
            ≡ count (is_of fd) (given s.queue) + count (is_of fd) (live s.hands))
  unfolding act mark_all
  close_silences fd s acts n =
      run-IsQuiet fd (record s { queue = mark_all s.queue fd }) acts n
        (ap (count (is_of fd)) (live-mark fd (queue_of s.queue).deque)
          ∙ count-without_same fd (waits s.queue))
