-- ===== src/Admission/Lanes/Modes.antt =====
-- Which tasks can occur in which mode: with the full lane enforced, a full image never runs or waits
-- for a global permit without a permit of the full sub-pool.
use sipi.Common.{true, false, ◌≡◌, refl, arith}
use sipi.Admission.Pool.{AdmissionMode, basic, advanced, tile, full, Semaphore, Admission}
use sipi.Admission.Lanes.{
  Task, starting, tile_busy, tile_parked, advanced_probing, advanced_busy, advanced_passed,
  basic_tried, basic_busy, basic_passed, sub_parked, global_parked, running, ended, advance, expire,
  close, cancel, Event, advances, expires, closes, cancels, happen, start_full,
}

abbrev pub Fits : AdmissionMode → Task → Type 0
Fits m (basic_tried held) = m ≡ basic
Fits m (basic_busy held) = m ≡ basic
Fits m (basic_passed held) = m ≡ basic
Fits m (global_parked false) = m ≡ basic
Fits m (running full false) = m ≡ basic
Fits m (running tile true) = ⊥
Fits m _ = Unit

-- What no step changes.
pub record SameSetup {R S : Type 0} (a b : Admission R S) : Type 0 where
  pub mode : b.mode ≡ a.mode
  pub permits_total : b.permits_total ≡ a.permits_total
  pub tile_min : b.tile_min ≡ a.tile_min
  pub full_max : b.full_max ≡ a.full_max
  pub max_waiting : b.max_waiting ≡ a.max_waiting

module _ {R S : Type 0} (sem : Semaphore S) where
  abbrev Kept : Admission R S → Admission R S × Task → Type 0
  Kept a s = SameSetup a s.0 × Fits a.mode s.1

  start_full-Kept :
      (a : Admission R S) (m : AdmissionMode) → a.mode ≡ m → Kept a (start_full sem m a)
  unfolding start_full
  start_full-Kept a advanced e = ground (arith, sem.try_acquire_cases a.full)
  start_full-Kept a basic e = ground (arith, sem.try_acquire_cases a.full)

  advance-Kept : (a : Admission R S) (t : Task) → Fits a.mode t → Kept a (advance sem a t)
  unfolding advance
  advance-Kept a (starting tile) f = ground (arith, sem.try_acquire_cases a.global)
  advance-Kept a (starting full) f = start_full-Kept a a.mode refl
  advance-Kept a tile_busy f = ground arith
  advance-Kept a tile_parked f = ground (arith, sem.try_acquire_cases a.global)
  advance-Kept a advanced_probing f = ground (arith, sem.try_acquire_cases a.global)
  advance-Kept a advanced_busy f = ground arith
  advance-Kept a advanced_passed f = ground arith
  advance-Kept a sub_parked f = ground (arith, sem.try_acquire_cases a.full)
  advance-Kept a (basic_tried true) f = ground (arith, sem.try_acquire_cases a.global)
  advance-Kept a (basic_tried false) f = ground (arith, sem.try_acquire_cases a.global)
  advance-Kept a (basic_busy true) f = ground arith
  advance-Kept a (basic_busy false) f = ground arith
  advance-Kept a (basic_passed true) f = ground arith
  advance-Kept a (basic_passed false) f = ground arith
  advance-Kept a (global_parked true) f = ground (arith, sem.try_acquire_cases a.global)
  advance-Kept a (global_parked false) f = ground (arith, sem.try_acquire_cases a.global)
  advance-Kept a (running kind true) f = ground arith
  advance-Kept a (running kind false) f = ground arith
  advance-Kept a (ended kind outcome) f = ground arith

  parked-Kept :
      (a : Admission R S) (t : Task)
      → Fits a.mode t
      → Kept a (expire sem a t) × Kept a (close sem a t) × Kept a (cancel sem a t)
  unfolding expire close cancel
  parked-Kept a tile_parked f = ground arith
  parked-Kept a sub_parked f = ground arith
  parked-Kept a (global_parked true) f = ground arith
  parked-Kept a (global_parked false) f = ground arith
  parked-Kept a t f = ((same, f), (same, f), (same, f))
    where
      same : SameSetup a a
      same = record {
        mode = refl;
        permits_total = refl;
        tile_min = refl;
        full_max = refl;
        max_waiting = refl;
      }

  pub happen-Kept :
      (e : Event) (a : Admission R S) (t : Task) → Fits a.mode t → Kept a (happen sem e a t)
  unfolding happen
  happen-Kept advances a t f = advance-Kept a t f
  happen-Kept expires a t f = (parked-Kept a t f).0
  happen-Kept closes a t f = (parked-Kept a t f).1
  happen-Kept cancels a t f = (parked-Kept a t f).2
