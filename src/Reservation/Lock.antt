-- ===== src/Reservation/Lock.antt =====
-- The lock of the monitor among any number of workers, as a step relation.
pub mod Held
use ya_risc_v.Reservation.Window.{set_reservation_locked-lock, invalidate-lock}
use ya_risc_v.Bytes.{Bytes}
use ya_risc_v.Reservation.Monitor.{
  set_reservation_locked, try_take_reservation, invalidate_overlapping_reservations_locked,
  acquire_monitor_lock, Monitor, release_monitor_lock, Worker, release_sc_monitor_if_held,
  take_locked, clear_reservation_locked,
}
use ya_risc_v.Prelude.{Bool, arith, some, ◌<◌, ◌==◌, ◌≡◌, ◌⊎◌, if◌then◌else◌, ℕ, none, ◌≢◌}

pub record World : Type 0 where
  pub workers : ℕ → Worker
  pub monitor : Monitor

abbrev pub after : World → ℕ → Worker → Monitor → World
after world i worker monitor = record {
  workers = λ j. if j == i then worker else world.workers j;
  monitor = monitor;
}

abbrev pub depth : World → ℕ → ℕ
depth world i = (world.workers i).monitor_lock_depth

-- One operation of worker `i`. The operations whose names end in `Locked` want the lock held.
pub data Step (i : ℕ) : World → World → Type 0 where
  acquires :
      (world : World) (worker : Worker) (monitor : Monitor)
      → acquire_monitor_lock (world.workers i) world.monitor ≡ some (worker, monitor)
      → Step i world (after world i worker monitor)
  releases :
      (world : World)
      → Step i world (
          after world i
            (release_monitor_lock (world.workers i) world.monitor).0
            (release_monitor_lock (world.workers i) world.monitor).1)
  releases_window :
      (world : World)
      → Step i world (
          after world i
            (release_sc_monitor_if_held (world.workers i) world.monitor).0
            (release_sc_monitor_if_held (world.workers i) world.monitor).1)
  reserves :
      (world : World) (hart : ℕ) (address : Bytes) (byte_length : ℕ)
      → 0 < depth world i
      → Step i world (
          after world i
            (world.workers i)
            (set_reservation_locked world.monitor hart address byte_length))
  invalidates :
      (world : World) (address : Bytes) (byte_length : ℕ)
      → 0 < depth world i
      → Step i world (
          after world i
            (world.workers i)
            (invalidate_overlapping_reservations_locked world.monitor address byte_length))
  takes :
      (world : World) (hart : ℕ) (address : Bytes) (byte_length : ℕ) (b : Bool) (worker : Worker)
      (monitor : Monitor)
      → try_take_reservation (world.workers i) world.monitor hart address byte_length
        ≡ some (b, (worker, monitor))
      → Step i world (after world i worker monitor)

pub data Reaches : World → World → Type 0 where
  here : (world : World) → Reaches world world
  next :
      {start world world' : World} (i : ℕ)
      → Reaches start world
      → Step i world world'
      → Reaches start world'

-- One worker at most is inside the lock, and none while the word is 0.
pub record IsExclusive (world : World) : Type 0 where
  pub single : (i j : ℕ) → 0 < depth world i → 0 < depth world j → i ≡ j
  pub free : (i : ℕ) → world.monitor.lock ≡ 0 → depth world i ≡ 0

-- What a step of worker `i` may do to its depth and to the lock word.
record Keeps (worker : Worker) (monitor : Monitor) (worker' : Worker) (monitor' : Monitor)
    : Type 0 where
  entered : 0 < worker'.monitor_lock_depth → (0 < worker.monitor_lock_depth) ⊎ (monitor.lock ≡ 0)
  left :
      monitor'.lock ≡ 0
      → worker'.monitor_lock_depth ≡ 0 × ((monitor.lock ≡ 0) ⊎ (0 < worker.monitor_lock_depth))

Keeps-IsExclusive :
    (world : World) (i : ℕ) (worker' : Worker) (monitor' : Monitor)
    → Keeps (world.workers i) world.monitor worker' monitor'
    → IsExclusive world
    → IsExclusive (after world i worker' monitor')
Keeps-IsExclusive world i worker' monitor' keeps before = record {
  single = λ j k p q. ground (
    arith,
    before.single j k,
    before.single i j,
    before.single i k,
    before.free j,
    before.free k,
    keeps.entered,
  );
  free = λ j e. ground (arith, keeps.left e, before.free j, before.single i j);
}

module _ (worker : Worker) (monitor : Monitor)
    (free : monitor.lock ≡ 0 → worker.monitor_lock_depth ≡ 0) where
  acquire_monitor_lock-Keeps :
      (worker' : Worker) (monitor' : Monitor)
      → acquire_monitor_lock worker monitor ≡ some (worker', monitor')
      → Keeps worker monitor worker' monitor'
  unfolding acquire_monitor_lock
  acquire_monitor_lock-Keeps worker' monitor' e = record {
    entered = λ p. ground arith;
    left = λ z. ground arith;
  }

  release_monitor_lock-Keeps :
      Keeps worker monitor
        (release_monitor_lock worker monitor).0
        (release_monitor_lock worker monitor).1
  unfolding release_monitor_lock
  release_monitor_lock-Keeps = record { entered = λ p. ground arith; left = λ z. ground arith }

  release_sc_monitor_if_held-Keeps :
      Keeps worker monitor
        (release_sc_monitor_if_held worker monitor).0
        (release_sc_monitor_if_held worker monitor).1
  unfolding release_sc_monitor_if_held release_monitor_lock
  release_sc_monitor_if_held-Keeps = record {
    entered = λ p. ground arith;
    left = λ z. ground arith;
  }

  slots_only-Keeps :
      (monitor' : Monitor) → monitor'.lock ≡ monitor.lock → Keeps worker monitor worker monitor'
  slots_only-Keeps monitor' e = record { entered = λ p. ground arith; left = λ z. ground arith }

  take_reservation-Keeps :
      (hart : ℕ) (address : Bytes) (byte_length : ℕ) (b : Bool) (worker' : Worker)
      (monitor' : Monitor)
      → try_take_reservation worker monitor hart address byte_length ≡ some (b, (worker', monitor'))
      → Keeps worker monitor worker' monitor'
  unfolding try_take_reservation take_locked acquire_monitor_lock release_monitor_lock
      clear_reservation_locked
  take_reservation-Keeps hart address byte_length b worker' monitor' e = record {
    entered = λ p. ground arith;
    left = λ z. ground arith;
  }

pub Step-IsExclusive :
    {i : ℕ} {world world' : World} → Step i world world' → IsExclusive world → IsExclusive world'
Step-IsExclusive {i} (acquires world worker monitor e) before =
    Keeps-IsExclusive world i worker monitor
      (acquire_monitor_lock-Keeps (world.workers i) world.monitor (before.free i) worker monitor e)
      before
Step-IsExclusive {i} (releases world) before =
    Keeps-IsExclusive world i _ _
      (release_monitor_lock-Keeps (world.workers i) world.monitor (before.free i)) before
Step-IsExclusive {i} (releases_window world) before =
    Keeps-IsExclusive world i _ _
      (release_sc_monitor_if_held-Keeps (world.workers i) world.monitor (before.free i)) before
Step-IsExclusive {i} (reserves world hart address byte_length inside) before =
    Keeps-IsExclusive world i _ _
      (slots_only-Keeps (world.workers i) world.monitor (before.free i) _
        (set_reservation_locked-lock world.monitor hart address byte_length))
      before
Step-IsExclusive {i} (invalidates world address byte_length inside) before =
    Keeps-IsExclusive world i _ _
      (slots_only-Keeps (world.workers i) world.monitor (before.free i) _
        (invalidate-lock world.monitor address byte_length))
      before
Step-IsExclusive {i} (takes world hart address byte_length b worker monitor e) before =
    Keeps-IsExclusive world i worker monitor
      (take_reservation-Keeps (world.workers i) world.monitor (before.free i) hart address
        byte_length b worker monitor e)
      before

-- Nobody is inside and the word is 0.
pub record IsInitial (world : World) : Type 0 where
  pub nobody : (i : ℕ) → depth world i ≡ 0
  pub unlocked : world.monitor.lock ≡ 0

-- From a world in which nobody is inside the lock, after any sequence of operations of any workers,
-- at most one worker is inside, and none while the lock word is 0.
pub Reaches-IsExclusive :
    (start world : World) → IsInitial start → Reaches start world → IsExclusive world
Reaches-IsExclusive start world initial (here _) = record {
  single = λ i j p q. absurd (omega (arith, initial.nobody i));
  free = λ i e. initial.nobody i;
}
Reaches-IsExclusive start world initial (next {world = middle} i reached step) =
    Step-IsExclusive step (Reaches-IsExclusive start middle initial reached)

module _ (worker : Worker) (monitor : Monitor) (outside : worker.monitor_lock_depth ≡ 0)
    (held : monitor.lock ≢ 0) where
  acquire-blocked : acquire_monitor_lock worker monitor ≡ none
  unfolding acquire_monitor_lock
  acquire-blocked = ground arith

  release-idle : (release_monitor_lock worker monitor).1 ≡ monitor
  unfolding release_monitor_lock
  release-idle = ground arith

  release_sc-idle : (release_sc_monitor_if_held worker monitor).1 ≡ monitor
  unfolding release_sc_monitor_if_held release_monitor_lock
  release_sc-idle = ground arith

  take-idle :
      (hart : ℕ) (address : Bytes) (byte_length : ℕ) (b : Bool) (worker' : Worker)
      (monitor' : Monitor)
      → try_take_reservation worker monitor hart address byte_length ≡ some (b, (worker', monitor'))
      → monitor' ≡ monitor
  unfolding try_take_reservation
  take-idle hart address byte_length b worker' monitor' e = ground (arith, acquire-blocked)

unchanged :
    {j : ℕ} {world world' : World}
    → Step j world world'
    → depth world j ≡ 0
    → world.monitor.lock ≢ 0
    → world'.monitor ≡ world.monitor
unchanged {j} (acquires world worker monitor e) outside held =
    absurd (ground (arith, acquire-blocked (world.workers j) world.monitor outside held))
unchanged {j} (releases world) outside held =
    release-idle (world.workers j) world.monitor outside held
unchanged {j} (releases_window world) outside held =
    release_sc-idle (world.workers j) world.monitor outside held
unchanged {j} (reserves world hart address byte_length inside) outside held = absurd (omega arith)
unchanged {j} (invalidates world address byte_length inside) outside held = absurd (omega arith)
unchanged {j} (takes world hart address byte_length b worker monitor e) outside held =
    take-idle (world.workers j) world.monitor outside held hart address byte_length b worker monitor
      e

-- While worker `i` is inside the lock, no operation of another worker changes the monitor.
pub Step-other_worker :
    (i j : ℕ) (world world' : World)
    → IsExclusive world
    → 0 < depth world i
    → j ≢ i
    → Step j world world'
    → world'.monitor ≡ world.monitor
Step-other_worker i j world world' exclusive inside other step =
    unchanged step (ground (arith, exclusive.single j i)) (λ e. omega (arith, exclusive.free i e))
