-- ===== src/WorkQueue/Wake.antt =====
-- Consumers that wait and WorkQueue::stop that wakes them (libnbuss/WorkQueue.cpp), step by step.
-- The flag `consumers_must_terminate` is set without the mutex. A wait ends only by a notification:
-- the library may end it without one, and promises nothing of the kind.
use nonblocking_unix_socket.Base.{
  ℕ, zero, suc, ◌≡◌, ◌≢◌, refl, Bool, true, false, ◌==◌, if◌then◌else◌, arith,
}

-- Where a consumer stands: at the test of the loop, before `lk.lock()`, in `deque_cv.wait`, woken
-- and holding the mutex again, at work on an item, or at its end.
pub data Place : Type 0 where
  testing locking waiting woken working over : Place

-- The flag, whether the server still reports events, the number of items in the deque, the place of
-- each consumer, and, once `stop` has stopped the server, the calls of `notify_one` that it still
-- makes.
pub record Threads : Type 0 where
  pub must_terminate : Bool
  pub serving : Bool
  pub size : ℕ
  pub place : ℕ → Place
  pub notifications : ℕ

abbrev pub move : (ℕ → Place) → ℕ → Place → ℕ → Place
move f i p j = if i == j then p else f j

pub data Step (s t : Threads) : Type 0 where
  goes_on :
      (i : ℕ)
      → s.place i ≡ testing
      → s.must_terminate ≡ false
      → t ≡ record s { place = move s.place i locking }
      → Step s t
  leaves :
      (i : ℕ)
      → s.place i ≡ testing
      → s.must_terminate ≡ true
      → t ≡ record s { place = move s.place i over }
      → Step s t
  takes :
      (i m : ℕ)
      → s.place i ≡ locking
      → s.size ≡ suc m
      → t ≡ record s { size = m; place = move s.place i working }
      → Step s t
  finds_none :
      (i : ℕ)
      → s.place i ≡ locking
      → s.size ≡ 0
      → t ≡ record s { place = move s.place i waiting }
      → Step s t
  finishes :
      (i : ℕ) → s.place i ≡ working → t ≡ record s { place = move s.place i testing } → Step s t
  wakes_to_stop :
      (i : ℕ)
      → s.place i ≡ woken
      → s.must_terminate ≡ true
      → t ≡ record s { place = move s.place i over }
      → Step s t
  wakes_to_work :
      (i : ℕ)
      → s.place i ≡ woken
      → s.must_terminate ≡ false
      → t ≡ record s { place = move s.place i locking }
      → Step s t
  -- The producer, and the notification that it makes; `stop` stops it before it notifies.
  produces_to :
      (i : ℕ)
      → s.serving ≡ true
      → s.place i ≡ waiting
      → t ≡ record s { size = suc s.size; place = move s.place i woken }
      → Step s t
  produces :
      s.serving ≡ true
      → ((i : ℕ) → s.place i ≢ waiting)
      → t ≡ record s { size = suc s.size }
      → Step s t
  stops : s.must_terminate ≡ false → t ≡ record s { must_terminate = true } → Step s t
  server_stops :
      (n : ℕ)
      → s.must_terminate ≡ true
      → s.serving ≡ true
      → t ≡ record s { serving = false; notifications = n }
      → Step s t
  notifies :
      (i m : ℕ)
      → s.notifications ≡ suc m
      → s.place i ≡ waiting
      → t ≡ record s { notifications = m; place = move s.place i woken }
      → Step s t
  notifies_nobody :
      (m : ℕ)
      → s.notifications ≡ suc m
      → ((i : ℕ) → s.place i ≢ waiting)
      → t ≡ record s { notifications = m }
      → Step s t

pub data Reach (s : Threads) : Threads → Type 0 where
  here : Reach s s
  next : {t u : Threads} → Reach s t → Step t u → Reach s u

-- Consumers that have just been started.
abbrev pub started : Threads
started = record {
  must_terminate = false;
  serving = true;
  size = 0;
  place = λ i. testing;
  notifications = 0;
}

-- `stop` has done all it does, and consumer `i` waits.
pub record IsStuck (i : ℕ) (s : Threads) : Type 0 where
  pub flag : s.must_terminate ≡ true
  pub closed : s.serving ≡ false
  pub silent : s.notifications ≡ 0
  pub asleep : s.place i ≡ waiting

Step-IsStuck : (i : ℕ) {s t : Threads} → Step s t → IsStuck i s → IsStuck i t
Step-IsStuck i (goes_on j p f e) h = ground arith
Step-IsStuck i (leaves j p f e) h = ground arith
Step-IsStuck i (takes j m p f e) h = ground arith
Step-IsStuck i (finds_none j p f e) h = ground arith
Step-IsStuck i (finishes j p e) h = ground arith
Step-IsStuck i (wakes_to_stop j p f e) h = ground arith
Step-IsStuck i (wakes_to_work j p f e) h = ground arith
Step-IsStuck i (produces_to j f p e) h = ground arith
Step-IsStuck i (produces f p e) h = ground arith
Step-IsStuck i (stops f e) h = ground arith
Step-IsStuck i (server_stops n f g e) h = ground arith
Step-IsStuck i (notifies j m f p e) h = ground arith
Step-IsStuck i (notifies_nobody m f p e) h = ground arith

Reach-IsStuck : (i : ℕ) {s t : Threads} → Reach s t → IsStuck i s → IsStuck i t
Reach-IsStuck i here h = h
Reach-IsStuck i (next r st) h = Step-IsStuck i st (Reach-IsStuck i r h)

-- Consumer 0 has passed the test of its loop when `stop` sets the flag.
abbrev caught : ℕ → Threads
caught n = record {
  must_terminate = true;
  serving = false;
  size = 0;
  place = move (λ i. testing) 0 locking;
  notifications = n;
}

notify_all : (s : Threads) (n : ℕ) → Reach s (caught n) → Reach s (caught 0)
notify_all s zero r = r
notify_all s (suc n) r = notify_all s n (next r (notifies_nobody n refl (λ i e. ground arith) refl))

-- With any number of notifications and an empty deque, stop can set the flag and make all its
-- notifications between a consumer's test of the flag and its wait; that consumer then waits in
-- every state that follows.
pub stop_may_hang :
    (n : ℕ)
    → (t : Threads) × Reach started t
      × (t.must_terminate ≡ true)
      × (t.notifications ≡ 0)
      × ((u : Threads) → Reach t u → u.place 0 ≡ waiting)
stop_may_hang n = (
  hung,
  next (notify_all started n set) (finds_none 0 refl refl refl),
  refl,
  refl,
  λ u r.
      (Reach-IsStuck 0 r
        (record { flag = refl; closed = refl; silent = refl; asleep = refl })).asleep,
)
  where
    set : Reach started (caught n)
    set =
        next (next (next here (goes_on 0 refl refl refl)) (stops refl refl))
          (server_stops n refl refl refl)

    hung : Threads
    hung = record (caught 0) { place = move (caught 0).place 0 waiting }
