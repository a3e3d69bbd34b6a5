-- ===== src/SocketData/Lock.antt =====
-- The lock of libnbuss/SocketData.cpp among threads: `lock` and `release` alone exclude one
-- another, and `cleanup` under the lock breaks this.
use nonblocking_unix_socket.Base.{
  ℕ, ◌≡◌, ◌≢◌, refl, Bool, true, false, [], some, pos, ◌+ℤ◌, ◌-ℤ◌, ◌==◌, if◌then◌else◌, arith,
}
use nonblocking_unix_socket.SocketData.{SocketData, cleanup, lock, release, new_socket_data}

-- The data of a descriptor, and which threads have returned from `lock` and not called `release`.
pub record Threads : Type 0 where
  pub sd : SocketData
  pub holds : ℕ → Bool

abbrev set_holds : (ℕ → Bool) → ℕ → Bool → ℕ → Bool
set_holds h i b j = if i == j then b else h j

-- A step of one thread: it returns from `lock`, or it releases what it holds.
pub data Step (s t : Threads) : Type 0 where
  locks :
      (i : ℕ)
      → s.holds i ≡ false
      → lock s.sd ≡ some t.sd
      → t.holds ≡ set_holds s.holds i true
      → Step s t
  releases :
      (i : ℕ)
      → s.holds i ≡ true
      → t.sd ≡ release s.sd
      → t.holds ≡ set_holds s.holds i false
      → Step s t

pub data Reach (s : Threads) : Threads → Type 0 where
  here : Reach s s
  next : {t u : Threads} → Reach s t → Step t u → Reach s u

abbrev pub unlocked : Threads
unlocked = record { sd = new_socket_data; holds = λ i. false }

-- Nobody holds the lock and the counter is 0, or one thread holds it and the counter is 1.
pub data IsExclusive (s : Threads) : Type 0 where
  free : s.sd.uses ≡ pos 0 → ((j : ℕ) → s.holds j ≡ false) → IsExclusive s
  held : (i : ℕ) → s.sd.uses ≡ pos 1 → ((j : ℕ) → s.holds j ≡ (i == j)) → IsExclusive s

lock_free : (sd sd' : SocketData) → lock sd ≡ some sd' → sd.uses ≡ pos 0 → sd'.uses ≡ pos 1
unfolding lock ◌+ℤ◌
lock_free sd sd' e h = ground arith

lock_held : (sd sd' : SocketData) → lock sd ≡ some sd' → sd.uses ≢ pos 1
unfolding lock
lock_held sd sd' e h = ground arith

release_held : (sd : SocketData) → sd.uses ≡ pos 1 → (release sd).uses ≡ pos 0
unfolding release ◌-ℤ◌
release_held sd h = ground arith

Step-IsExclusive : {s t : Threads} → Step s t → IsExclusive s → IsExclusive t
Step-IsExclusive {s} {t} (locks i idle e h) (free u none) =
    held i (lock_free s.sd t.sd e u) (λ j. rw h (ground (arith, none j)))
Step-IsExclusive {s} {t} (locks i idle e h) (held m u only) = absurd (lock_held s.sd t.sd e u)
Step-IsExclusive (releases i mine e h) (free u none) = cc (none i, mine)
Step-IsExclusive {s} {t} (releases i mine e h) (held m u only) =
    free (rw e (release_held s.sd u)) (λ j. rw h (ground (arith, only i, only j)))

Reach-IsExclusive : {t : Threads} → Reach unlocked t → IsExclusive t
Reach-IsExclusive here = free refl (λ j. refl)
Reach-IsExclusive (next r st) = Step-IsExclusive st (Reach-IsExclusive r)

-- However threads lock and release the data of a descriptor, no two of them hold it at once.
pub lock_exclusive :
    (t : Threads) (i j : ℕ) → Reach unlocked t → t.holds i ≡ true → t.holds j ≡ true → i ≡ j
lock_exclusive t i j r hi hj = elim (Reach-IsExclusive r) [
  | free u none ↦ cc (none i, hi)
  | held m u only ↦ ground (arith, only i, only j)
]

-- After cleanup under the lock and the release that follows, two threads can lock the data with no
-- release between.
pub cleanup_admits_two :
    (sd : SocketData)
    → (a : SocketData) × (b : SocketData) × (lock (release (cleanup sd)) ≡ some a)
      × (lock a ≡ some b)
unfolding lock release cleanup ◌+ℤ◌ ◌-ℤ◌
cleanup_admits_two sd = (
  record { uses = pos 0; write_queue = [] },
  record { uses = pos 1; write_queue = [] },
  refl,
  refl,
)
