-- ===== src/Admission/Lanes/Safety.antt =====
-- What holds of a pool that `new` made, in every state that it can reach, whatever the order of the
-- steps.
use sipi.Common.{
  ℕ, ◌+◌, ◌%◌, ◌≤◌, List, [], ◌∷◌, true, false, Option, ◌≡◌, ◌∙◌, arith, All, subst, ok, u64_mod,
}
use sipi.Admission.Pool.{
  AdmissionMode, advanced, tile, full, Semaphore, Admission, Ratios, AdmissionConfig, new,
}
use sipi.Admission.Pool.Sizing.{IsFresh, new-IsFresh}
use sipi.Admission.Lanes.{Task, global_parked, running, ended, System, Action, run}
use sipi.Admission.Lanes.Balance.{
  on_global, on_full, waits_tile, waits_full, shed_tile, shed_full_task,
}
use sipi.Admission.Lanes.Modes.{Fits, SameSetup}
use sipi.Admission.Lanes.Invariant.{sum, Inv, run-Inv, run-SameSetup}

-- The tasks that run for a tile, and the fulls that run or wait for a global permit.
abbrev pub runs_tile : Task → ℕ
runs_tile (running tile held) = 1
runs_tile _ = 0

abbrev pub full_at_global : Task → ℕ
full_at_global (running full held) = 1
full_at_global (global_parked held) = 1
full_at_global _ = 0

full_at_global-le : (t : Task) → Fits advanced t → full_at_global t ≤ on_full t
full_at_global-le (running full true) f = omega arith
full_at_global-le (running full false) f = absurd (cc)
full_at_global-le (global_parked true) f = omega arith
full_at_global-le (global_parked false) f = absurd (cc)
full_at_global-le (running tile held) f = omega arith
full_at_global-le t f = omega arith

on_global-le : (t : Task) → on_global t ≤ runs_tile t + full_at_global t
on_global-le (running tile held) = omega arith
on_global-le (running full held) = omega arith
on_global-le t = omega arith

sum-full_at_global-le :
    (ts : List Task) → All (Fits advanced) ts → sum full_at_global ts ≤ sum on_full ts
unfolding sum
sum-full_at_global-le [] f = omega arith
sum-full_at_global-le (t ∷ ts) f =
    omega (arith, full_at_global-le t f.0, sum-full_at_global-le ts f.1)

sum-on_global-le : (ts : List Task) → sum on_global ts ≤ sum runs_tile ts + sum full_at_global ts
unfolding sum
sum-on_global-le [] = omega arith
sum-on_global-le (t ∷ ts) = omega (arith, on_global-le t, sum-on_global-le ts)

-- A request whose call of `acquire` is over, and whose permit, if any, was dropped.
abbrev pub IsEnded : Task → Type 0
IsEnded (ended kind outcome) = Unit
IsEnded _ = ⊥

sum-ended :
    (ts : List Task)
    → All IsEnded ts
    → (sum on_global ts ≡ 0)
      × (sum on_full ts ≡ 0)
      × (sum waits_tile ts ≡ 0)
      × (sum waits_full ts ≡ 0)
unfolding sum
sum-ended [] e = omega arith
sum-ended (ended kind outcome ∷ ts) e = omega (arith, sum-ended ts e.1)
sum-ended (running k h ∷ ts) e = absurd e.0
sum-ended (t ∷ ts) e = absurd e.0

-- The pool before the first request.
abbrev pub before : {R S : Type 0} → Admission R S → System R S
before a = record { pool = a; tasks = [] }

module _ {R S : Type 0} (ratios : Ratios R) (sem : Semaphore S) where
  fresh-Inv :
      (host : Option ℕ) (cfg : AdmissionConfig R) (a : Admission R S)
      → IsFresh ratios sem host cfg a
      → Inv sem (before a)
  unfolding sum
  fresh-Inv host cfg a f = record {
    balanced = omega (arith, f.global, f.full, f.counters);
    fits = tt;
  }

  module _ (host : Option ℕ) (cfg : AdmissionConfig R) (a : Admission R S)
      (made : new ratios sem host cfg ≡ ok a) (xs : List Action) where
    abbrev pub after : System R S
    after = run sem (before a) xs

    fresh : IsFresh ratios sem host cfg a
    fresh = (new-IsFresh ratios sem host cfg a made).0

    invariant : Inv sem after
    invariant = run-Inv sem (before a) xs (fresh-Inv host cfg a fresh)

    pub setup : SameSetup a after.pool
    setup = run-SameSetup sem (before a) xs (fresh-Inv host cfg a fresh)

    -- After any list of steps of any requests, from a pool that `new` made: the permits that are
    -- available and the tasks that run make up the pool, and the gauges and
    -- the shed counters count the tasks that wait and those that were shed.
    pub permits_balance :
        (sem.available after.pool.global + sum on_global after.tasks ≡ a.permits_total)
        × (sem.available after.pool.full + sum on_full after.tasks ≡ a.full_max)
        × (after.pool.tile_waiting ≡ sum waits_tile after.tasks % u64_mod)
        × (after.pool.full_waiting ≡ sum waits_full after.tasks % u64_mod)
        × (after.pool.tile_shed_total ≡ sum shed_tile after.tasks % u64_mod)
        × (after.pool.full_shed_total ≡ sum shed_full_task after.tasks % u64_mod)
    permits_balance =
        let b = invariant.balanced in
        (
          b.global ∙ setup.permits_total,
          b.full ∙ setup.full_max,
          b.tile_waiting,
          b.full_waiting,
          b.tile_shed,
          b.full_shed,
        )

    -- After any list of steps from a pool that `new` made, with the full lane enforced: the fulls that run or wait for a global permit are never more
    -- than `full_max`.
    pub full_lane_bound : cfg.mode ≡ advanced → sum full_at_global after.tasks ≤ a.full_max
    full_lane_bound m =
        let fits : All (Fits advanced) after.tasks =
          subst (λ (k : AdmissionMode). All (Fits k) after.tasks) (setup.mode ∙ fresh.mode ∙ m)
            invariant.fits in
        omega (arith, sum-full_at_global-le after.tasks fits, permits_balance.1)

    -- After any list of steps from a pool that `new` made, with the full lane enforced and two
    -- permits or more: a tile finds no permit only while
    -- `tile_min` other tiles run, and that is at least one.
    pub tiles_wait_for_tiles :
        cfg.mode ≡ advanced
        → 2 ≤ a.permits_total
        → sem.available after.pool.global ≡ 0
        → (1 ≤ a.tile_min) × (a.tile_min ≤ sum runs_tile after.tasks)
    tiles_wait_for_tiles m two busy =
        let (some_tile, _, whole) = fresh.lanes.0 two in
        (
          some_tile,
          omega (
            arith,
            full_lane_bound m,
            permits_balance.0,
            sum-on_global-le after.tasks,
            whole,
            busy,
          ),
        )

    -- After any list of steps from a pool that `new` made: when every request has ended, every permit is back and nobody is counted as waiting.
    pub permits_return :
        All IsEnded after.tasks
        → (sem.available after.pool.global ≡ a.permits_total)
          × (sem.available after.pool.full ≡ a.full_max)
          × (after.pool.tile_waiting ≡ 0)
          × (after.pool.full_waiting ≡ 0)
    permits_return e =
        let (g, f, tw, fw, _, _) = permits_balance in
        let (g0, f0, tw0, fw0) = sum-ended after.tasks e in
        omega (arith, g, f, tw, fw, g0, f0, tw0, fw0)
