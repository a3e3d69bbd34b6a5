-- ===== src/WorkQueue/Pool/Passes.antt =====
-- One consumer that takes an item and reports it, again and again (libnbuss/WorkQueue.cpp).
use nonblocking_unix_socket.Base.{
  ℕ, zero, suc, ◌<◌, ◌≡◌, refl, ap, ◌∙◌, false, List, [], ◌∷◌, lt→ltb, replicate, arith,
}
use nonblocking_unix_socket.WorkQueue.{Item, consumer, take_item, consume, report_item, queue_of}
use nonblocking_unix_socket.WorkQueue.Fifo.{Log, log, consumes, after, apply, consume_running}
use nonblocking_unix_socket.WorkQueue.Fifo as Fifo
use nonblocking_unix_socket.WorkQueue.Pool.{
  Pool, Act, took, reported, pick, take_off, give, act, run,
}

-- Passes of consumers, one after the other.
abbrev pub passes : ℕ → List Act
passes zero = []
passes (suc n) = took ∷ reported 0 ∷ passes n

module _ {W : Type 0} where
  abbrev pub free : Log W → Pool W
  free s = record { queue = s; hands = [] }

  taken :
      (s : Log W) (items : List Item)
      → act (take_off (free s) items) (reported 0) ≡ free (after s (take_item log s items))
  unfolding act take_off give pick take_item consume after
  taken s [] = refl
  taken s (i ∷ is) = refl

  pass :
      (s : Log W)
      → 0 < (queue_of s).number_consumer_threads
      → (queue_of s).consumers_must_terminate ≡ false
      → act (act (free s) took) (reported 0) ≡ free (apply s consumes)
  unfolding apply consumer
  pass s some_thread running =
      ap (λ p. act p (reported 0)) (took_item s some_thread)
      ∙ taken s (queue_of s).deque
      ∙ rw running refl
    where
      took_item :
          (s : Log W)
          → 0 < (queue_of s).number_consumer_threads
          → act (free s) took ≡ take_off (free s) (queue_of s).deque
      took_item s h = unfold act in rw (lt→ltb _ _ h) refl

  consume_number :
      (s : Log W)
      → (queue_of (apply s consumes)).number_consumer_threads ≡ (queue_of s).number_consumer_threads
  unfolding apply consumer after take_item consume report_item
  consume_number s = ground arith

  pub passes-run :
      (n : ℕ) (s : Log W)
      → 0 < (queue_of s).number_consumer_threads
      → (queue_of s).consumers_must_terminate ≡ false
      → run (free s) (passes n) ≡ free (Fifo.run s (replicate n consumes))
  unfolding run Fifo.run
  passes-run zero s some_thread running = refl
  passes-run (suc n) s some_thread running =
      ap (λ p. run p (passes n)) (pass s some_thread running)
      ∙ passes-run n (apply s consumes) (omega (arith, consume_number s, some_thread))
          (consume_running s running)
