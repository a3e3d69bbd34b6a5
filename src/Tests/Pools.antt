-- ===== src/Tests/Pools.antt =====
-- Several consumers of the work queue of libnbuss/WorkQueue.cpp on a simulated system.
use nonblocking_unix_socket.Base.{
  ℕ, ◌+◌, ◌≤◌, ◌≡◌, refl, true, false, List, [], ◌∷◌, ◌++◌, ℤ, pos, length, arith,
}
use nonblocking_unix_socket.Server.{ListenEvent, JobType}
use nonblocking_unix_socket.ThreadedServer2.{make_threaded}
use nonblocking_unix_socket.WorkQueue.{Item}
use nonblocking_unix_socket.WorkQueue.Fifo.{live, given, waits}
use nonblocking_unix_socket.WorkQueue.Pool.{Pool, Act, produced, took, reported, closed, act, run}
use nonblocking_unix_socket.WorkQueue.Pool.Silence.{is_of, close_silences}
use nonblocking_unix_socket.WorkQueue.Pool.Account.{total, count, produced_by, run-Accounts}
use nonblocking_unix_socket.WorkQueue.Pool.Order.{history, event_of_item, run-InOrder, two_swap}
use nonblocking_unix_socket.Tests.Sim.{World, busy, serving}

abbrev item : ℤ → Item
item fd = record { fd = fd; job = JobType.available_for_read; process = true }

abbrev event : ℤ → ListenEvent
event fd = record { fd = fd; job = JobType.available_for_read; events = 1 }

-- `n` consumers, none of which has an item, and an event of 5 and one of 6 that wait.
abbrev pool : ℕ → Pool World
pool n = record {
  queue = record {
    srv = serving;
    world = busy;
    app = make_threaded (record {
      number_consumer_threads = n;
      consumer_threads = 0;
      deque = item (pos 5) ∷ item (pos 6) ∷ [];
      consumers_must_terminate = false;
      user = [];
    });
  };
  hands = [];
}

pool_number : (n : ℕ) → (pool n).queue.app.user.number_consumer_threads ≡ n
unfolding make_threaded
pool_number n = refl

pool_deque : (n : ℕ) → (pool n).queue.app.user.deque ≡ item (pos 5) ∷ item (pos 6) ∷ []
unfolding make_threaded
pool_deque n = refl

-- Two items are taken, an event comes in, and the second consumer is faster.
abbrev acts : List Act
acts = took ∷ took ∷ produced (event (pos 7)) ∷ reported 1 ∷ took ∷ reported 0 ∷ []

run-Accounts_example :
    (total (λ e. true) (run (pool 2) acts)
      ≡ total (λ e. true) (pool 2) + count (λ e. true) (produced_by acts))
    × (length (run (pool 2) acts).hands ≤ (run (pool 2) acts).queue.app.user.number_consumer_threads
        )
run-Accounts_example = run-Accounts (pool 2) acts (λ e. true) (omega (arith, pool_number 2)) tt

run-InOrder_example : history (run (pool 1) acts) ≡ history (pool 1) ++ produced_by acts
run-InOrder_example = run-InOrder (pool 1) acts (pool_number 1) (omega arith) tt

two_swap_example :
    (acts : List Act) × (given (run (pool 2) acts).queue
      ≡ given (pool 2).queue ++ event_of_item (item (pos 6)) ∷ event_of_item (item (pos 5)) ∷ [])
    × (waits (run (pool 2) acts).queue ≡ live [])
two_swap_example =
    two_swap (pool 2) (item (pos 5)) (item (pos 6)) [] (omega (arith, pool_number 2)) refl
      (pool_deque 2) refl refl

-- A consumer has taken the event of 5 when 5 is closed; it still reports it.
close_silences_example :
    let t =
      run
        (act (act (pool 2) took) (closed (pos 5)))
        (took ∷ reported 0 ∷ produced (event (pos 6)) ∷ reported 0 ∷ []) in
    (count (is_of (pos 5)) (waits t.queue) ≡ 0)
    × (count (is_of (pos 5)) (given t.queue) + count (is_of (pos 5)) (live t.hands)
        ≡ count (is_of (pos 5)) (given (act (pool 2) took).queue)
          + count (is_of (pos 5)) (live (act (pool 2) took).hands))
close_silences_example =
    close_silences (pos 5) (act (pool 2) took)
      (took ∷ reported 0 ∷ produced (event (pos 6)) ∷ reported 0 ∷ []) (λ e. cc e, tt)
