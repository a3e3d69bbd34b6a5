-- ===== src/WorkQueue/Pool/Account.antt =====
-- No event is lost or given out twice, however many consumers there are (libnbuss/WorkQueue.cpp).
use nonblocking_unix_socket.Base.{
  ℕ, zero, suc, ◌+◌, ◌≤◌, ◌<◌, ◌≡◌, ◌≢◌, refl, ap, ◌∙◌, inl, inr, Bool, true, false, Bool-cases,
  not, List, [], ◌∷◌, ◌++◌, Option, none, some, ltb, length, length-append, ℤ, ==ℤ→eq,
  if◌then◌else◌, arith,
}
use nonblocking_unix_socket.Server.{ListenEvent}
use nonblocking_unix_socket.WorkQueue.{Item, mark_all, producer_callback, report_item, queue_of}
use nonblocking_unix_socket.WorkQueue.Fifo.{live, without, waits, given, live-append, live-mark}
use nonblocking_unix_socket.WorkQueue.Pool.{
  Pool, Act, produced, took, reported, closed, put_before, pick, take_off, give, act, run,
}

-- How many events pass a test.
abbrev pub count : (ListenEvent → Bool) → List ListenEvent → ℕ
count p [] = 0
count p (e ∷ es) = if p e then suc (count p es) else count p es

pub count-append :
    (p : ListenEvent → Bool) (es fs : List ListenEvent)
    → count p (es ++ fs) ≡ count p es + count p fs
count-append p [] fs = omega arith
count-append p (e ∷ es) fs = ground (arith, count-append p es fs)

count_cons :
    (p : ListenEvent → Bool) (e : ListenEvent) (es : List ListenEvent)
    → count p (e ∷ es) ≡ count p (e ∷ []) + count p es
count_cons p e es = ground arith

-- The event that a consumer makes of an item.
abbrev pub event_of : ListenEvent → ListenEvent
event_of e = record { fd = e.fd; job = e.job; events = 0 }

-- The events that the server has reported, as the callback is given them.
abbrev pub produced_by : List Act → List ListenEvent
produced_by [] = []
produced_by (produced e ∷ acts) = event_of e ∷ produced_by acts
produced_by (_ ∷ acts) = produced_by acts

-- No event that passes the test is one of a descriptor that is closed.
abbrev pub Avoids : (ListenEvent → Bool) → List Act → Type 0
Avoids p [] = Unit
Avoids p (closed fd ∷ acts) = ((e : ListenEvent) → p e ≡ true → e.fd ≢ fd) × Avoids p acts
Avoids p (_ ∷ acts) = Avoids p acts

count-without :
    (p : ListenEvent → Bool) (fd : ℤ) (es : List ListenEvent)
    → ((e : ListenEvent) → p e ≡ true → e.fd ≢ fd)
    → count p (without fd es) ≡ count p es
count-without p fd [] apart = refl
count-without p fd (e ∷ es) apart =
    ground (arith, count-without p fd es apart, apart e, ==ℤ→eq e.fd fd)

pub count-item :
    (p : ListenEvent → Bool) (i : Item) (is : List Item)
    → count p (live (i ∷ is)) ≡ count p (live (i ∷ [])) + count p (live is)
count-item p i is = ground arith

-- What is left when an item has been picked, if there was one.
abbrev Picked : (ListenEvent → Bool) → List Item → Option (Item × List Item) → Type 0
Picked p is none = Unit
Picked p is (some (j, js)) =
    (count p (live is) ≡ count p (live (j ∷ [])) + count p (live js))
    × (length is ≡ suc (length js))

put_before-Picked :
    (p : ListenEvent → Bool) (i : Item) (is : List Item) (o : Option (Item × List Item))
    → Picked p is o
    → Picked p (i ∷ is) (put_before i o)
unfolding put_before
put_before-Picked p i is none h = tt
put_before-Picked p i is (some (j, js)) h =
    (omega (arith, h.0, count-item p i is, count-item p i js), ap suc h.1)

pub pick-Picked : (p : ListenEvent → Bool) (n : ℕ) (is : List Item) → Picked p is (pick n is)
unfolding pick
pick-Picked p n [] = tt
pick-Picked p zero (i ∷ is) = (count-item p i is, refl)
pick-Picked p (suc n) (i ∷ is) = put_before-Picked p i is (pick n is) (pick-Picked p n is)

rest-Avoids :
    (p : ListenEvent → Bool) (a : Act) (acts : List Act) → Avoids p (a ∷ acts) → Avoids p acts
rest-Avoids p (produced e) acts h = h
rest-Avoids p took acts h = h
rest-Avoids p (reported n) acts h = h
rest-Avoids p (closed fd) acts h = h.1

module _ {W : Type 0} where
  -- All events that pass the test: those given out, those in hand, and those that wait.
  abbrev pub total : (ListenEvent → Bool) → Pool W → ℕ
  total p s = count p (given s.queue) + count p (live s.hands) + count p (waits s.queue)

  take_off-total :
      (p : ListenEvent → Bool) (s : Pool W) (is : List Item)
      → (queue_of s.queue).deque ≡ is
      → total p (take_off s is) ≡ total p s
  unfolding take_off
  take_off-total p s [] e = refl
  take_off-total p s (i ∷ is) e = rw e (
      omega (
        arith,
        ap (count p) (live-append s.hands (i ∷ [])),
        count-append p (live s.hands) (live (i ∷ [])),
        count-item p i is,
      ))

  pub give-total :
      (p : ListenEvent → Bool) (s : Pool W) (o : Option (Item × List Item))
      → Picked p s.hands o
      → total p (give s o) ≡ total p s
  unfolding give report_item
  give-total p s none h = refl
  give-total p s (some (i, is)) h = elim (Bool-cases i.process) [
    | inl e ↦ rw e (
        omega (
          arith,
          rw e at h.0,
          count-append p (given s.queue) (record { fd = i.fd; job = i.job; events = 0 } ∷ []),
        ))
    | inr e ↦ rw e (omega (arith, rw e at h.0))
  ]

  pub take-total :
      (p : ListenEvent → Bool) (s : Pool W) (b : Bool)
      → total p (if b then s else take_off s (queue_of s.queue).deque) ≡ total p s
  take-total p s true = refl
  take-total p s false = take_off-total p s (queue_of s.queue).deque refl

  act-total :
      (p : ListenEvent → Bool) (s : Pool W) (a : Act) (acts : List Act)
      → Avoids p (a ∷ acts)
      → total p (act s a) + count p (produced_by acts)
        ≡ total p s + count p (produced_by (a ∷ acts))
  unfolding act producer_callback mark_all
  act-total p s (produced e) acts avoids =
      let item : Item = record { fd = e.fd; job = e.job; process = true } in
      omega (
        arith,
        ap (count p) (live-append (queue_of s.queue).deque (item ∷ [])),
        count-append p (waits s.queue) (event_of e ∷ []),
        count_cons p (event_of e) (produced_by acts),
      )
  act-total p s took acts avoids = ap (λ n. n + count p (produced_by acts)) (take-total p s _)
  act-total p s (reported n) acts avoids =
      ap (λ n. n + count p (produced_by acts))
        (give-total p s (pick n s.hands) (pick-Picked p n s.hands))
  act-total p s (closed fd) acts avoids = omega (
    arith,
    ap (count p) (live-mark fd (queue_of s.queue).deque),
    count-without p fd (waits s.queue) avoids.0,
  )

  run-total :
      (p : ListenEvent → Bool) (s : Pool W) (acts : List Act)
      → Avoids p acts
      → total p (run s acts) ≡ total p s + count p (produced_by acts)
  unfolding run
  run-total p s [] avoids = omega arith
  run-total p s (a ∷ acts) avoids =
      run-total p (act s a) acts (rest-Avoids p a acts avoids) ∙ act-total p s a acts avoids

  -- No more items are in hand than there are consumers.
  abbrev pub Fits : Pool W → Type 0
  Fits s = length s.hands ≤ (queue_of s.queue).number_consumer_threads

  take_off-Fits :
      (s : Pool W) (is : List Item)
      → length s.hands < (queue_of s.queue).number_consumer_threads
      → Fits (take_off s is)
  unfolding take_off
  take_off-Fits s [] lt = omega (arith, lt)
  take_off-Fits s (i ∷ is) lt = omega (arith, lt, length-append s.hands (i ∷ []))

  give-Fits :
      (s : Pool W) (o : Option (Item × List Item))
      → Picked (λ e. true) s.hands o
      → Fits s
      → Fits (give s o)
  unfolding give report_item
  give-Fits s none picked h = h
  give-Fits s (some (i, is)) picked h = elim (Bool-cases i.process) [
    | inl e ↦ rw e (omega (arith, picked.1, h))
    | inr e ↦ rw e (omega (arith, picked.1, h))
  ]

  pub act-Fits : (s : Pool W) (a : Act) → Fits s → Fits (act s a)
  unfolding act producer_callback mark_all
  act-Fits s (produced e) h = h
  act-Fits s took h =
      elim (Bool-cases (not (ltb (length s.hands) (queue_of s.queue).number_consumer_threads))) [
        | inl e ↦ rw e h
        | inr e ↦ rw e (take_off-Fits s _ (ground (arith, e)))
      ]
  act-Fits s (reported n) h = give-Fits s _ (pick-Picked (λ e. true) n s.hands) h
  act-Fits s (closed fd) h = h

  run-Fits : (s : Pool W) (acts : List Act) → Fits s → Fits (run s acts)
  unfolding run
  run-Fits s [] h = h
  run-Fits s (a ∷ acts) h = run-Fits (act s a) acts (act-Fits s a h)

  -- However the steps of the server, of any number of consumers and of the user who closes
  -- descriptors follow each other, the events that pass a test are as many as before and as were
  -- reported, counting those given to the callback, those in hand and those that wait, where no
  -- event that passes is one of a descriptor that is closed; and no more items are in hand than
  -- there are consumers, where that is so at first.
  pub run-Accounts :
      (s : Pool W) (acts : List Act) (p : ListenEvent → Bool)
      → Fits s
      → Avoids p acts
      → (total p (run s acts) ≡ total p s + count p (produced_by acts))
        × (length (run s acts).hands ≤ (queue_of (run s acts).queue).number_consumer_threads)
  run-Accounts s acts p fits avoids = (run-total p s acts avoids, run-Fits s acts fits)
