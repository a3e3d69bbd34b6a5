-- ===== src/WorkQueue/Pool/Order.antt =====
-- The order in which several consumers give events to the callback (libnbuss/WorkQueue.cpp).
use nonblocking_unix_socket.Base.{
  ℕ, zero, suc, ◌≤◌, ◌<◌, ◌≡◌, refl, sym, ap, ◌∙◌, inl, inr, Bool, true, false, Bool-cases, not,
  List, [], ◌∷◌, ◌++◌, append-nil, append_assoc, Option, none, some, ltb, lt→ltb, length,
  if◌then◌else◌, arith,
}
use nonblocking_unix_socket.Server.{ListenEvent}
use nonblocking_unix_socket.WorkQueue.{Item, mark_all, producer_callback, report_item, queue_of}
use nonblocking_unix_socket.WorkQueue.Fifo.{Log, live, waits, given, live-append}
use nonblocking_unix_socket.WorkQueue.Pool.{
  Pool, Act, produced, took, reported, closed, put_before, pick, take_off, give, act, run,
}
use nonblocking_unix_socket.WorkQueue.Pool.Account.{act-Fits, produced_by, event_of}

-- No descriptor is closed.
abbrev pub NoneCloses : List Act → Type 0
NoneCloses [] = Unit
NoneCloses (closed fd ∷ acts) = ⊥
NoneCloses (_ ∷ acts) = NoneCloses acts

-- The event of an item.
abbrev pub event_of_item : Item → ListenEvent
event_of_item i = record { fd = i.fd; job = i.job; events = 0 }

live_cons : (i : Item) (is : List Item) → live (i ∷ is) ≡ live (i ∷ []) ++ live is
live_cons i is = elim (Bool-cases i.process) [ inl e ↦ rw e refl | inr e ↦ rw e refl ]

behind : (g h w x p : List ListenEvent) → (g ++ (h ++ (w ++ x))) ++ p ≡ (g ++ (h ++ w)) ++ (x ++ p)
behind g h w x p = simp append_assoc

rest_open : (a : Act) (acts : List Act) → NoneCloses (a ∷ acts) → NoneCloses acts
rest_open (produced e) acts h = h
rest_open took acts h = h
rest_open (reported n) acts h = h
rest_open (closed fd) acts h = absurd h

module _ {W : Type 0} where
  -- The events given out, in hand and waiting, oldest first.
  abbrev pub history : Pool W → List ListenEvent
  history s = given s.queue ++ (live s.hands ++ waits s.queue)

  take_off-history :
      (s : Pool W) (is : List Item)
      → (queue_of s.queue).deque ≡ is
      → history (take_off s is) ≡ history s
  unfolding take_off
  take_off-history s [] e = refl
  take_off-history s (i ∷ is) e = rw e (
      ap (λ es. given s.queue ++ es)
        (ap (λ es. es ++ live is) (live-append s.hands (i ∷ []))
          ∙ append_assoc (live s.hands) (live (i ∷ [])) (live is)
          ∙ ap (λ es. live s.hands ++ es) (sym (live_cons i is))))

  -- One item at most is in hand, so it is the oldest.
  give-history :
      (s : Pool W) (n : ℕ) (hands : List Item)
      → s.hands ≡ hands
      → length hands ≤ 1
      → history (give s (pick n hands)) ≡ history s
  unfolding give pick report_item
  give-history s n [] e le = refl
  give-history s zero (i ∷ []) e le = elim (Bool-cases i.process) [
    | inl f ↦ rw (e, f) (append_assoc (given s.queue) (event_of_item i ∷ []) (waits s.queue))
    | inr f ↦ rw (e, f) refl
  ]
  give-history s (suc n) (i ∷ []) e le = refl
  give-history s n (i ∷ j ∷ is) e le = absurd (omega (arith, le))

  take-history :
      (s : Pool W) (b : Bool)
      → history (if b then s else take_off s (queue_of s.queue).deque) ≡ history s
  take-history s true = refl
  take-history s false = take_off-history s (queue_of s.queue).deque refl

  act-history :
      (s : Pool W) (a : Act) (acts : List Act)
      → length s.hands ≤ 1
      → NoneCloses (a ∷ acts)
      → history (act s a) ++ produced_by acts ≡ history s ++ produced_by (a ∷ acts)
  unfolding act producer_callback
  act-history s (produced e) acts le quiet =
      let item : Item = record { fd = e.fd; job = e.job; process = true } in
      ap (λ w. (given s.queue ++ (live s.hands ++ w)) ++ produced_by acts)
        (live-append (queue_of s.queue).deque (item ∷ []))
      ∙ behind (given s.queue) (live s.hands) (waits s.queue) (event_of e ∷ []) (produced_by acts)
  act-history s took acts le quiet = ap (λ es. es ++ produced_by acts) (take-history s _)
  act-history s (reported n) acts le quiet =
      ap (λ es. es ++ produced_by acts) (give-history s n s.hands refl le)
  act-history s (closed fd) acts le quiet = absurd quiet

  abbrev pub number_of : Pool W → ℕ
  number_of s = (queue_of s.queue).number_consumer_threads

  take_off-number : (s : Pool W) (is : List Item) → number_of (take_off s is) ≡ number_of s
  unfolding take_off
  take_off-number s [] = refl
  take_off-number s (i ∷ is) = refl

  give-number : (s : Pool W) (o : Option (Item × List Item)) → number_of (give s o) ≡ number_of s
  unfolding give report_item
  give-number s none = refl
  give-number s (some (i, is)) = elim (Bool-cases i.process) [
    | inl e ↦ rw e refl
    | inr e ↦ rw e refl
  ]

  act-number : (s : Pool W) (a : Act) → number_of (act s a) ≡ number_of s
  unfolding act producer_callback mark_all
  act-number s (produced e) = refl
  act-number s took =
      elim (Bool-cases (not (ltb (length s.hands) (queue_of s.queue).number_consumer_threads))) [
        | inl e ↦ rw e refl
        | inr e ↦ rw e (take_off-number s _)
      ]
  act-number s (reported n) = give-number s _
  act-number s (closed fd) = refl

  -- With one consumer, which has at most one item in hand at first, and as long as no descriptor
  -- is closed, the events given out, in hand and waiting, in this order, are those from before and
  -- behind them those reported since, in the order of their arrival.
  pub run-InOrder :
      (s : Pool W) (acts : List Act)
      → (queue_of s.queue).number_consumer_threads ≡ 1
      → length s.hands ≤ 1
      → NoneCloses acts
      → history (run s acts) ≡ history s ++ produced_by acts
  unfolding run
  run-InOrder s [] one le quiet = sym (append-nil (history s))
  run-InOrder s (a ∷ acts) one le quiet =
      let fits : length (act s a).hands ≤ number_of (act s a) =
        act-Fits s a (omega (arith, one, le)) in
      let still : number_of (act s a) ≡ 1 = act-number s a ∙ one in
      run-InOrder (act s a) acts still (omega (arith, fits, still)) (rest_open a acts quiet)
      ∙ act-history s a acts le quiet

  took-takes :
      (s : Pool W) (i : Item) (is : List Item)
      → length s.hands < (queue_of s.queue).number_consumer_threads
      → (queue_of s.queue).deque ≡ i ∷ is
      → act s took ≡ take_off s (i ∷ is)
  unfolding act
  took-takes s i is lt e = rw (lt→ltb _ _ lt, e) refl

  given_swapped :
      (q : Log W) (i j : Item)
      → i.process ≡ true
      → j.process ≡ true
      → let t = act (act (record { queue = q; hands = i ∷ j ∷ [] }) (reported 1)) (reported 0) in
        (given t.queue ≡ given q ++ event_of_item j ∷ event_of_item i ∷ [])
        × (waits t.queue ≡ waits q)
  unfolding act give pick put_before report_item
  given_swapped q i j pi pj =
      rw (pi, pj) (append_assoc (given q) (event_of_item j ∷ []) (event_of_item i ∷ []), refl)

  -- With at least two consumers, none of them with an item in hand, there are steps after which
  -- the oldest two events that wait, where neither is marked, have been given to the callback in
  -- the wrong order, with the others still waiting.
  pub two_swap :
      (s : Pool W) (i j : Item) (rest : List Item)
      → 2 ≤ (queue_of s.queue).number_consumer_threads
      → s.hands ≡ []
      → (queue_of s.queue).deque ≡ i ∷ j ∷ rest
      → i.process ≡ true
      → j.process ≡ true
      → (acts : List Act) × (given (run s acts).queue
          ≡ given s.queue ++ event_of_item j ∷ event_of_item i ∷ [])
        × (waits (run s acts).queue ≡ live rest)
  unfolding run take_off
  two_swap s i j rest two free deque pi pj =
      let t = take_off s (i ∷ j ∷ rest) in
      let u = take_off t (j ∷ rest) in
      let first : act s took ≡ t = took-takes s i (j ∷ rest) (rw free (omega (arith, two))) deque in
      let second : act t took ≡ u = took-takes t j rest (rw free (omega (arith, two))) refl in
      let both : act (act s took) took ≡ record { queue = u.queue; hands = i ∷ j ∷ [] } =
        ap (λ v. act v took) first
        ∙ second
        ∙ ap (λ hs. record { queue = u.queue; hands = (hs ++ i ∷ []) ++ j ∷ [] }) free in
      let swapped = given_swapped u.queue i j pi pj in
      (
        took ∷ took ∷ reported 1 ∷ reported 0 ∷ [],
        ap (λ v. given (act (act v (reported 1)) (reported 0)).queue) both ∙ swapped.0,
        ap (λ v. waits (act (act v (reported 1)) (reported 0)).queue) both ∙ swapped.1,
      )
