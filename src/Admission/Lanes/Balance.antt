-- ===== src/Admission/Lanes/Balance.antt =====
-- The books of the pool: every permit is available or held by a task, and the gauges and shed
-- counters count the tasks that they are about.
use sipi.Common.{ℕ, ◌+◌, ◌%◌, Bool, true, false, ◌≡◌, u64_mod, arith}
use sipi.Admission.Pool.{AdmissionMode, basic, advanced, tile, full, Semaphore, Admission}
use sipi.Admission.Lanes.{
  shed, timed_out, Task, starting, tile_busy, tile_parked, advanced_probing, advanced_busy,
  advanced_passed, basic_tried, basic_busy, basic_passed, sub_parked, global_parked, running, ended,
  advance, expire, close, cancel, Event, advances, expires, closes, cancels, happen, start_full,
}

abbrev pub one_if : Bool → ℕ
one_if true = 1
one_if false = 0

-- The permits of each semaphore that a task holds.
abbrev pub on_global : Task → ℕ
on_global (running kind held) = 1
on_global _ = 0

abbrev pub on_full : Task → ℕ
on_full advanced_probing = 1
on_full (basic_tried held) = one_if held
on_full (basic_busy held) = one_if held
on_full (basic_passed held) = one_if held
on_full (global_parked held) = one_if held
on_full (running kind held) = one_if held
on_full _ = 0

-- The gauges that a task is counted in.
abbrev pub waits_tile : Task → ℕ
waits_tile tile_parked = 1
waits_tile _ = 0

abbrev pub waits_full : Task → ℕ
waits_full sub_parked = 1
waits_full (global_parked held) = 1
waits_full _ = 0

-- The shed counters: a tile counts when it times out, a full also when it is turned away.
abbrev pub shed_tile : Task → ℕ
shed_tile (ended tile timed_out) = 1
shed_tile _ = 0

abbrev pub shed_full_task : Task → ℕ
shed_full_task (ended full timed_out) = 1
shed_full_task (ended full shed) = 1
shed_full_task _ = 0

module _ {R S : Type 0} (sem : Semaphore S) where
  -- The books, given what all tasks together hold, wait for and were shed.
  pub record Balanced (a : Admission R S) (g f tw fw ts fs : ℕ) : Type 0 where
    pub global : sem.available a.global + g ≡ a.permits_total
    pub full : sem.available a.full + f ≡ a.full_max
    pub tile_waiting : a.tile_waiting ≡ tw % u64_mod
    pub full_waiting : a.full_waiting ≡ fw % u64_mod
    pub tile_shed : a.tile_shed_total ≡ ts % u64_mod
    pub full_shed : a.full_shed_total ≡ fs % u64_mod

  -- The books of a pool with one task set apart from the others.
  abbrev pub BalancedWith : Admission R S → Task → ℕ → ℕ → ℕ → ℕ → ℕ → ℕ → Type 0
  BalancedWith a t g f tw fw ts fs =
      Balanced a (g + on_global t) (f + on_full t) (tw + waits_tile t) (fw + waits_full t)
        (ts + shed_tile t) (fs + shed_full_task t)

  module _ (g f tw fw ts fs : ℕ) where
    abbrev Holds : Admission R S × Task → Type 0
    Holds s = BalancedWith s.0 s.1 g f tw fw ts fs

    start_full-Balanced :
        (a : Admission R S) (m : AdmissionMode)
        → Holds (a, starting full)
        → Holds (start_full sem m a)
    unfolding start_full
    start_full-Balanced a advanced b = ground (arith, sem.try_acquire_cases a.full)
    start_full-Balanced a basic b = ground (arith, sem.try_acquire_cases a.full)

    advance-Balanced : (a : Admission R S) (t : Task) → Holds (a, t) → Holds (advance sem a t)
    unfolding advance
    advance-Balanced a (starting tile) b = ground (arith, sem.try_acquire_cases a.global)
    advance-Balanced a tile_busy b = ground arith
    advance-Balanced a tile_parked b = ground (arith, sem.try_acquire_cases a.global)
    advance-Balanced a (starting full) b = start_full-Balanced a a.mode b
    advance-Balanced a advanced_probing b =
        ground (arith, sem.try_acquire_cases a.global, sem.available-release a.full)
    advance-Balanced a advanced_busy b = ground arith
    advance-Balanced a advanced_passed b = ground arith
    advance-Balanced a sub_parked b = ground (arith, sem.try_acquire_cases a.full)
    advance-Balanced a (basic_tried held) b = ground (arith, sem.try_acquire_cases a.global)
    advance-Balanced a (basic_busy held) b = ground (arith, sem.available-release a.full)
    advance-Balanced a (basic_passed held) b = ground arith
    advance-Balanced a (global_parked held) b = ground (arith, sem.try_acquire_cases a.global)
    advance-Balanced a (running kind held) b =
        ground (arith, sem.available-release a.global, sem.available-release a.full)
    advance-Balanced a (ended kind outcome) b = b

    expire-Balanced : (a : Admission R S) (t : Task) → Holds (a, t) → Holds (expire sem a t)
    unfolding expire
    expire-Balanced a tile_parked b = ground arith
    expire-Balanced a sub_parked b = ground arith
    expire-Balanced a (global_parked held) b = ground (arith, sem.available-release a.full)
    expire-Balanced a t b = b

    close-Balanced : (a : Admission R S) (t : Task) → Holds (a, t) → Holds (close sem a t)
    unfolding close
    close-Balanced a tile_parked b = ground arith
    close-Balanced a sub_parked b = ground arith
    close-Balanced a (global_parked held) b = ground (arith, sem.available-release a.full)
    close-Balanced a t b = b

    cancel-Balanced : (a : Admission R S) (t : Task) → Holds (a, t) → Holds (cancel sem a t)
    unfolding cancel
    cancel-Balanced a tile_parked b = ground arith
    cancel-Balanced a sub_parked b = ground arith
    cancel-Balanced a (global_parked held) b = ground (arith, sem.available-release a.full)
    cancel-Balanced a t b = b

    pub happen-Balanced :
        (e : Event) (a : Admission R S) (t : Task) → Holds (a, t) → Holds (happen sem e a t)
    unfolding happen
    happen-Balanced advances a t b = advance-Balanced a t b
    happen-Balanced expires a t b = expire-Balanced a t b
    happen-Balanced closes a t b = close-Balanced a t b
    happen-Balanced cancels a t b = cancel-Balanced a t b
