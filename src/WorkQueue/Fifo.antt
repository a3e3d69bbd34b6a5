-- ===== src/WorkQueue/Fifo.antt =====
-- The deque as a first-in first-out queue of events (libnbuss/WorkQueue.cpp).
use nonblocking_unix_socket.Base.{
  ℕ, zero, suc, ◌-◌, length, replicate, ◌≡◌, refl, sym, subst, ap, ◌∙◌, false, Bool-cases, inl, inr,
  List, [], ◌∷◌, ◌++◌, append-nil, append_assoc, map, ℤ, ◌==ℤ◌, arith, if◌then◌else◌,
}
use nonblocking_unix_socket.Server.{Callback, ListenEvent}
use nonblocking_unix_socket.ThreadedServer2.{ThreadedServer2}
use nonblocking_unix_socket.WorkQueue.{
  Item, WorkQueue, Queued, mark, mark_all, producer_callback, consume, take_item, consumer, Pass,
  ended, waiting, passed, queue_of, with_queue,
}

-- What waits, as the consumers will report it: the items that are not marked, oldest first.
abbrev pub live : List Item → List ListenEvent
live [] = []
live (i ∷ is) =
    if i.process then record { fd = i.fd; job = i.job; events = 0 } ∷ live is else live is

-- The events of other descriptors.
abbrev pub without : ℤ → List ListenEvent → List ListenEvent
without fd [] = []
without fd (e ∷ es) = if e.fd ==ℤ fd then without fd es else e ∷ without fd es

pub live-append : (is js : List Item) → live (is ++ js) ≡ live is ++ live js
live-append [] js = refl
live-append (i ∷ is) js = ground (arith, live-append is js)

pub live-mark : (fd : ℤ) (is : List Item) → live (map (mark fd) is) ≡ without fd (live is)
unfolding mark
live-mark fd [] = refl
live-mark fd (i ∷ is) = ground (arith, live-mark fd is)

-- What a thread does to the work queue: the server reports an event, a consumer makes a pass, or
-- the user closes a descriptor (of `close`, the part that concerns the deque).
pub data Op : Type 0 where
  produces : ListenEvent → Op
  consumes : Op
  closes : ℤ → Op

no_items : (is : List Item) → length is ≡ 0 → live is ≡ []
no_items [] e = refl
no_items (i ∷ is) e = absurd (omega arith)

abbrev pub Log : Type 0 → Type 0
Log W = Queued W (List ListenEvent)

module _ {W : Type 0} where
  -- A callback that writes down what it is given.
  abbrev pub log : Callback W (ThreadedServer2 (WorkQueue (List ListenEvent)))
  log s e = with_queue s (record (queue_of s) { user = (queue_of s).user ++ e ∷ [] })

  abbrev pub waits : Log W → List ListenEvent
  waits s = live (queue_of s).deque

  abbrev pub given : Log W → List ListenEvent
  given s = (queue_of s).user

  unfoldable pub after : Log W → Pass W (List ListenEvent) → Log W
  after s ended = s
  after s waiting = s
  after s (passed t) = t

  unfoldable pub apply : Log W → Op → Log W
  unfolding after
  apply s (produces e) = producer_callback s e
  apply s consumes = after s (consumer log s)
  apply s (closes fd) = mark_all s fd

  unfoldable pub run : Log W → List Op → Log W
  run s [] = s
  run s (op ∷ ops) = run (apply s op) ops

  -- What each of them means for the events that wait and those that have been given out.
  abbrev pub Serves : Op → Log W → Log W → Type 0
  Serves (produces e) s t =
      (waits t ≡ waits s ++ (record { fd = e.fd; job = e.job; events = 0 }) ∷ [])
      × (given t ≡ given s)
  Serves consumes s t =
      (given t ++ waits t ≡ given s ++ waits s)
      × (length (queue_of t).deque ≡ length (queue_of s).deque - 1)
  Serves (closes fd) s t = (waits t ≡ without fd (waits s)) × (given t ≡ given s)

  take-Serves :
      (s : Log W) (items : List Item)
      → (queue_of s).deque ≡ items
      → Serves consumes s (after s (take_item log s items))
  unfolding take_item after
  take-Serves s [] e = (refl, rw e refl)
  take-Serves s (i ∷ is) e = elim (Bool-cases i.process) [
    | inl live_item ↦
        rw (e, live_item)
          (
            append_assoc (given s) (record { fd = i.fd; job = i.job; events = 0 } ∷ []) (live is),
            omega arith,
          )
    | inr marked ↦ rw (e, marked) (refl, omega arith)
  ]

  consume-Serves :
      (s : Log W)
      → (queue_of s).consumers_must_terminate ≡ false
      → Serves consumes s (apply s consumes)
  unfolding apply consumer
  consume-Serves s e =
      subst
        (λ b. Serves consumes s (after s (if b then ended else take_item log s (queue_of s).deque)))
        (sym e) (take-Serves s (queue_of s).deque refl)

  -- As long as the queue is not told to stop it is first in, first out: an event goes behind those
  -- that wait, a consumer moves the oldest one that waits to the callback or drops a marked item,
  -- and closing a descriptor takes out its events and no others.
  pub apply-Serves :
      (s : Log W) (op : Op)
      → (queue_of s).consumers_must_terminate ≡ false
      → Serves op s (apply s op)
  unfolding apply producer_callback mark_all
  apply-Serves s (produces e) running = (live-append (queue_of s).deque _, refl)
  apply-Serves s consumes running = consume-Serves s running
  apply-Serves s (closes fd) running = (live-mark fd (queue_of s).deque, refl)

  pub consume_running :
      (s : Log W)
      → (queue_of s).consumers_must_terminate ≡ false
      → (queue_of (apply s consumes)).consumers_must_terminate ≡ false
  unfolding apply consumer after take_item consume
  consume_running s e = ground arith

  -- As many consumer passes as there are items give every event that waits to the callback in the
  -- order of arrival and leave nothing waiting, unless the queue was told to stop.
  pub drain_gives_all :
      (n : ℕ) (s : Log W)
      → length (queue_of s).deque ≡ n
      → (queue_of s).consumers_must_terminate ≡ false
      → let t = run s (replicate n consumes) in (given t ≡ given s ++ waits s) × (waits t ≡ [])
  unfolding run
  drain_gives_all zero s l e =
      (sym (append-nil (given s)) ∙ ap (◌++◌ (given s)) (sym (no_items _ l)), no_items _ l)
  drain_gives_all (suc n) s l e =
      let t = apply s consumes in
      let (kept, fewer) = apply-Serves s consumes e in
      let ih = drain_gives_all n t (omega arith) (consume_running s e) in (ih.0 ∙ kept, ih.1)
