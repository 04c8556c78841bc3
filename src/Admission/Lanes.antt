-- ===== src/Admission/Lanes.antt =====
-- Acquiring and dropping permits. Each request is a task; `advance` is the next operation of its call
-- of `acquire` (one try on a semaphore, one look at a counter, one change of a counter), and a
-- sequence of steps interleaves the calls. What tokio's timer, a closed semaphore or a dropped future
-- do to a parked task are the other events; such an event takes what follows it in that task, the
-- release of a permit, a counter and the drop of the guard, in one step.
pub mod Balance
pub mod Modes
pub mod Invariant
pub mod Safety
use sipi.Common.{
  ℕ, suc, ◌+◌, ◌-◌, ◌%◌, List, [], ◌∷◌, ◌++◌, Bool, true, false, ◌||◌, Option, none, some,
  if◌then◌else◌, leb, ◌==◌, fetch_add, fetch_sub, get_elem?, set,
}
use sipi.Admission.Pool.{
  AdmissionMode, basic, advanced, AdmissionKind, tile, full, Semaphore, Admission,
}

pub data Outcome : Type 0 where
  shed timed_out cancelled released : Outcome

-- Where a request stands in its call. A `Bool` tells whether it holds a permit of the full sub-pool.
pub data Task : Type 0 where
  starting : AdmissionKind → Task
  tile_busy tile_parked : Task
  advanced_probing advanced_busy advanced_passed : Task
  basic_tried basic_busy basic_passed : Bool → Task
  sub_parked : Task
  global_parked : Bool → Task
  running : AdmissionKind → Bool → Task
  ended : AdmissionKind → Outcome → Task

module _ {R S : Type 0} (sem : Semaphore S) where
  -- The drop of an `Option` of a full sub-pool permit.
  unfoldable pub drop_full : Bool → Admission R S → Admission R S
  drop_full true a = record a { full = sem.release a.full }
  drop_full false a = a

  -- `max_waiting == 0 || full_waiting >= max_waiting`.
  unfoldable pub queue_full : Admission R S → Bool
  queue_full a = a.max_waiting == 0 || leb a.max_waiting a.full_waiting

  abbrev shed_full : Admission R S → Admission R S
  shed_full a = record a { full_shed_total = fetch_add a.full_shed_total }

  abbrev enter_full : Admission R S → Admission R S
  enter_full a = record a { full_waiting = fetch_add a.full_waiting }

  abbrev leave_full : Admission R S → Admission R S
  leave_full a = record a { full_waiting = fetch_sub a.full_waiting }

  abbrev leave_tile : Admission R S → Admission R S
  leave_tile a = record a { tile_waiting = fetch_sub a.tile_waiting }

  unfoldable pub start_full : AdmissionMode → Admission R S → Admission R S × Task
  start_full advanced a = elim (sem.try_acquire a.full) [
    | some f ↦ (record a { full = f }, advanced_probing)
    | none ↦ (a, advanced_busy)
  ]
  start_full basic a = elim (sem.try_acquire a.full) [
    | some f ↦ (record a { full = f }, basic_tried true)
    | none ↦ (
      record a { full_shadow_rejected_total = fetch_add a.full_shadow_rejected_total },
      basic_tried false,
    )
  ]

  unfoldable pub advance : Admission R S → Task → Admission R S × Task
  unfolding start_full drop_full queue_full
  advance a (starting tile) = elim (sem.try_acquire a.global) [
    | some g ↦ (record a { global = g }, running tile false)
    | none ↦ (a, tile_busy)
  ]
  advance a tile_busy = (record a { tile_waiting = fetch_add a.tile_waiting }, tile_parked)
  advance a tile_parked = elim (sem.try_acquire a.global) [
    | some g ↦ (leave_tile (record a { global = g }), running tile false)
    | none ↦ (a, tile_parked)
  ]
  advance a (starting full) = start_full a.mode a
  advance a advanced_probing = elim (sem.try_acquire a.global) [
    | some g ↦ (record a { global = g }, running full true)
    | none ↦ (drop_full true a, advanced_busy)
  ]
  advance a advanced_busy =
      if queue_full a then (shed_full a, ended full shed) else (a, advanced_passed)
  advance a advanced_passed = (enter_full a, sub_parked)
  advance a sub_parked = elim (sem.try_acquire a.full) [
    | some f ↦ (record a { full = f }, global_parked true)
    | none ↦ (a, sub_parked)
  ]
  advance a (basic_tried held) = elim (sem.try_acquire a.global) [
    | some g ↦ (record a { global = g }, running full held)
    | none ↦ (a, basic_busy held)
  ]
  advance a (basic_busy held) =
      if queue_full a
      then (drop_full held (shed_full a), ended full shed)
      else (a, basic_passed held)
  advance a (basic_passed held) = (enter_full a, global_parked held)
  advance a (global_parked held) = elim (sem.try_acquire a.global) [
    | some g ↦ (leave_full (record a { global = g }), running full held)
    | none ↦ (a, global_parked held)
  ]
  advance a (running kind held) =
      (drop_full held (record a { global = sem.release a.global }), ended kind released)
  advance a (ended kind outcome) = (a, ended kind outcome)

  -- `queue_timeout` elapsed; nothing happens to a task that is not parked.
  unfoldable pub expire : Admission R S → Task → Admission R S × Task
  unfolding drop_full
  expire a tile_parked = (
    leave_tile (record a { tile_shed_total = fetch_add a.tile_shed_total }),
    ended tile timed_out,
  )
  expire a sub_parked = (leave_full (shed_full a), ended full timed_out)
  expire a (global_parked held) = (drop_full held (leave_full (shed_full a)), ended full timed_out)
  expire a t = (a, t)

  -- The awaited semaphore was closed, on teardown.
  pub close : Admission R S → Task → Admission R S × Task
  unfolding drop_full
  close a tile_parked = (leave_tile a, ended tile shed)
  close a sub_parked = (leave_full (shed_full a), ended full shed)
  close a (global_parked held) = (drop_full held (leave_full (shed_full a)), ended full shed)
  close a t = (a, t)

  -- The future of a parked task was dropped.
  pub cancel : Admission R S → Task → Admission R S × Task
  unfolding drop_full
  cancel a tile_parked = (leave_tile a, ended tile cancelled)
  cancel a sub_parked = (leave_full a, ended full cancelled)
  cancel a (global_parked held) = (drop_full held (leave_full a), ended full cancelled)
  cancel a t = (a, t)

pub data Event : Type 0 where
  advances expires closes cancels : Event

pub record System (R S : Type 0) : Type 0 where
  pub pool : Admission R S
  pub tasks : List Task

-- A request arrives, or something happens to the task at a place.
pub data Action : Type 0 where
  arrive : AdmissionKind → Action
  on : ℕ → Event → Action

module _ {R S : Type 0} (sem : Semaphore S) where
  unfoldable pub happen : Event → Admission R S → Task → Admission R S × Task
  happen advances a t = advance sem a t
  happen expires a t = expire sem a t
  happen closes a t = close sem a t
  happen cancels a t = cancel sem a t

  unfoldable pub step : System R S → Action → System R S
  unfolding happen
  step s (arrive kind) = record s { tasks = s.tasks ++ starting kind ∷ [] }
  step s (on i e) = elim (get_elem? s.tasks i) [
    | none ↦ s
    | some t ↦ let (a, t') = happen e s.pool t in record { pool = a; tasks = set s.tasks i t' }
  ]

  unfoldable pub run : System R S → List Action → System R S
  run s [] = s
  run s (x ∷ xs) = run (step s x) xs
