-- ===== src/WorkQueue/Pool.antt =====
-- Several consumer threads: between taking an item off the deque and giving it to the callback a
-- consumer holds no lock, so that other threads work meanwhile (libnbuss/WorkQueue.cpp, consumer).
pub mod Account
pub mod Order
pub mod Passes
pub mod Silence
use nonblocking_unix_socket.Base.{
  ℕ, zero, suc, Bool, not, List, [], ◌∷◌, ◌++◌, Option, none, some, ltb, length, ℤ, if◌then◌else◌,
}
use nonblocking_unix_socket.Server.{ListenEvent}
use nonblocking_unix_socket.WorkQueue.{
  Item, mark_all, producer_callback, report_item, queue_of, with_queue,
}
use nonblocking_unix_socket.WorkQueue.Fifo.{Log, log}

-- The queue, and the items in the hands of consumers, in the order in which they were taken.
pub record Pool (W : Type 0) : Type 0 where
  pub queue : Log W
  pub hands : List Item

-- What a thread does: the server reports an event, a consumer takes an item, the consumer that has
-- taken the item at this place of the list of hands ends its pass, or the user closes a descriptor.
pub data Act : Type 0 where
  produced : ListenEvent → Act
  took : Act
  reported : ℕ → Act
  closed : ℤ → Act

unfoldable pub put_before : Item → Option (Item × List Item) → Option (Item × List Item)
put_before i none = none
put_before i (some (j, js)) = some (j, i ∷ js)

-- The item at a place of a list, and the others.
unfoldable pub pick : ℕ → List Item → Option (Item × List Item)
unfolding put_before
pick n [] = none
pick zero (i ∷ is) = some (i, is)
pick (suc n) (i ∷ is) = put_before i (pick n is)

module _ {W : Type 0} where
  unfoldable pub take_off : Pool W → List Item → Pool W
  take_off s [] = s
  take_off s (i ∷ is) = record {
    queue = with_queue s.queue (record (queue_of s.queue) { deque = is });
    hands = s.hands ++ i ∷ [];
  }

  unfoldable pub give : Pool W → Option (Item × List Item) → Pool W
  give s none = s
  give s (some (i, is)) = record { queue = report_item log s.queue i; hands = is }

  -- A consumer takes an item if one of the threads is free. One that is past the tests of
  -- `consumers_must_terminate` does so also when the queue has been told to stop since.
  unfoldable pub act : Pool W → Act → Pool W
  unfolding take_off give
  act s (produced e) = record s { queue = producer_callback s.queue e }
  act s took =
      if not (ltb (length s.hands) (queue_of s.queue).number_consumer_threads)
      then s
      else take_off s (queue_of s.queue).deque
  act s (reported n) = give s (pick n s.hands)
  act s (closed fd) = record s { queue = mark_all s.queue fd }

  pub run : Pool W → List Act → Pool W
  run s [] = s
  run s (a ∷ acts) = run (act s a) acts
