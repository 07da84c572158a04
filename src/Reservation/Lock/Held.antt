-- ===== src/Reservation/Lock/Held.antt =====
-- The window of a conditional store: `tryTakeReservation` succeeds and keeps the lock, the store is
-- done, and `releaseScMonitorIfHeld` gives the lock back.
use ya_risc_v.Bytes.{Bytes}
use ya_risc_v.Reservation.Lock.{
  releases, Step-IsExclusive, invalidates, Step, World, acquires, IsExclusive, reserves,
  Step-other_worker, releases_window, takes, depth, after,
}
use ya_risc_v.Prelude.{true, refl, some, ap, false, arith, ◌≢◌, ◌<◌, ◌==◌, ◌≡◌, ◌∙◌, ℕ, ap₂}
use ya_risc_v.Reservation.Monitor.{
  try_take_reservation, Monitor, release_monitor_lock, release_sc_monitor_if_held, take_locked,
  acquire_monitor_lock, Worker, reservation_holds_locked,
}

-- Any operations of workers other than `i`.
pub data OthersRun (i : ℕ) : World → World → Type 0 where
  idle : (world : World) → OthersRun i world world
  next :
      {start world world' : World} (j : ℕ)
      → OthersRun i start world
      → j ≢ i
      → Step j world world'
      → OthersRun i start world'

self_equal : (i : ℕ) → (i == i) ≡ true
self_equal i = ground arith

other_workers :
    {i j : ℕ} {world world' : World}
    → Step j world world'
    → j ≢ i
    → world'.workers i ≡ world.workers i
other_workers {i} {j} (acquires world worker monitor e) other = ground arith
other_workers {i} {j} (releases world) other = ground arith
other_workers {i} {j} (releases_window world) other = ground arith
other_workers {i} {j} (reserves world hart address byte_length inside) other = ground arith
other_workers {i} {j} (invalidates world address byte_length inside) other = ground arith
other_workers {i} {j} (takes world hart address byte_length b worker monitor e) other = ground arith

-- What stays while others run.
record Stays (i : ℕ) (start world : World) : Type 0 where
  exclusive : IsExclusive world
  same_monitor : world.monitor ≡ start.monitor
  same_worker : world.workers i ≡ start.workers i

others-Stays :
    {i : ℕ} {start world : World}
    → OthersRun i start world
    → IsExclusive start
    → 0 < depth start i
    → Stays i start world
others-Stays (idle world) exclusive inside = record {
  exclusive = exclusive;
  same_monitor = refl;
  same_worker = refl;
}
others-Stays {i} {start} (next {world = middle} {world' = last} j run other step) exclusive inside =
    let so_far = others-Stays run exclusive inside in
    let still : 0 < depth middle i =
      rw (ap (λ (w : Worker). w.monitor_lock_depth) so_far.same_worker) inside in
    record {
      exclusive = Step-IsExclusive step so_far.exclusive;
      same_monitor =
          Step-other_worker i j middle last so_far.exclusive still other step ∙ so_far.same_monitor;
      same_worker = other_workers step other ∙ so_far.same_worker;
    }

module _ (worker : Worker) (monitor : Monitor) (hart : ℕ) (address : Bytes) (byte_length : ℕ)
    (worker' : Worker) (monitor' : Monitor)
    (taken : try_take_reservation worker monitor hart address byte_length
      ≡ some (true, (worker', monitor'))) where
  taken-inside : 0 < worker'.monitor_lock_depth
  unfolding try_take_reservation take_locked acquire_monitor_lock
  taken-inside = ground arith

  taken-held : worker'.sc_monitor_held ≡ true
  unfolding try_take_reservation take_locked acquire_monitor_lock
  taken-held = ground arith

  taken-slots : monitor'.slots ≡ monitor.slots
  unfolding try_take_reservation take_locked acquire_monitor_lock
  taken-slots = ground arith

  taken-depth :
      (release_sc_monitor_if_held worker' monitor').0.monitor_lock_depth ≡ worker.monitor_lock_depth
  unfolding try_take_reservation take_locked acquire_monitor_lock release_sc_monitor_if_held
      release_monitor_lock
  taken-depth = ground arith

  taken-lock : (release_sc_monitor_if_held worker' monitor').1.lock ≡ monitor.lock
  unfolding try_take_reservation take_locked acquire_monitor_lock release_sc_monitor_if_held
      release_monitor_lock
  taken-lock = ground arith

  taken-free : (release_sc_monitor_if_held worker' monitor').0.sc_monitor_held ≡ false
  unfolding try_take_reservation take_locked acquire_monitor_lock release_sc_monitor_if_held
      release_monitor_lock
  taken-free = ground arith

  taken-holds : reservation_holds_locked monitor' hart address byte_length ≡ true
  unfolding try_take_reservation take_locked acquire_monitor_lock
  taken-holds = ground arith

after_self :
    (world : World) (i : ℕ) (worker : Worker) (monitor : Monitor)
    → (after world i worker monitor).workers i ≡ worker
after_self world i worker monitor = rw (self_equal i) refl

-- When a conditional store's check succeeds while at most one worker is inside the lock, then through
-- any operations of other workers the monitor and the worker's own state stay as the check left
-- them: the reservation still holds and the worker is marked to hold the monitor. Its release then
-- clears the mark and gives the worker's depth and the lock word the values from before the check.
pub try_take_reservation-window :
    (i hart : ℕ) (address : Bytes) (byte_length : ℕ) (world later : World) (worker : Worker)
    (monitor : Monitor)
    → IsExclusive world
    → try_take_reservation (world.workers i) world.monitor hart address byte_length
      ≡ some (true, (worker, monitor))
    → OthersRun i (after world i worker monitor) later
    → (later.monitor ≡ monitor)
      × (later.workers i ≡ worker)
      × (reservation_holds_locked later.monitor hart address byte_length ≡ true)
      × ((later.workers i).sc_monitor_held ≡ true)
      × ((release_sc_monitor_if_held (later.workers i) later.monitor).0.sc_monitor_held ≡ false)
      × ((release_sc_monitor_if_held (later.workers i) later.monitor).0.monitor_lock_depth
          ≡ depth world i)
      × ((release_sc_monitor_if_held (later.workers i) later.monitor).1.lock ≡ world.monitor.lock)
try_take_reservation-window i hart address byte_length world later worker monitor exclusive taken
      run =
    let own = after_self world i worker monitor in
    let start = after world i worker monitor in
    let before = world.workers i in
    let inside : 0 < depth start i =
      rw (ap (λ (w : Worker). w.monitor_lock_depth) own)
        (taken-inside before world.monitor hart address byte_length worker monitor taken) in
    let step : Step i world start =
      takes world hart address byte_length true worker monitor taken in
    let stays = others-Stays run (Step-IsExclusive step exclusive) inside in
    let same_worker : later.workers i ≡ worker = stays.same_worker ∙ own in
    let same_monitor : later.monitor ≡ monitor = stays.same_monitor in
    (
      same_monitor,
      same_worker,
      ap (λ (m : Monitor). reservation_holds_locked m hart address byte_length) same_monitor
          ∙ taken-holds before world.monitor hart address byte_length worker monitor taken,
      ap (λ (w : Worker). w.sc_monitor_held) same_worker
          ∙ taken-held before world.monitor hart address byte_length worker monitor taken,
      ap₂ (λ (w : Worker) (m : Monitor). (release_sc_monitor_if_held w m).0.sc_monitor_held)
            same_worker same_monitor
          ∙ taken-free before world.monitor hart address byte_length worker monitor taken,
      ap₂ (λ (w : Worker) (m : Monitor). (release_sc_monitor_if_held w m).0.monitor_lock_depth)
            same_worker same_monitor
          ∙ taken-depth before world.monitor hart address byte_length worker monitor taken,
      ap₂ (λ (w : Worker) (m : Monitor). (release_sc_monitor_if_held w m).1.lock) same_worker
            same_monitor
          ∙ taken-lock before world.monitor hart address byte_length worker monitor taken,
    )
