-- ===== src/Admission/Snapshot.antt =====
-- The snapshot of the pool, and what it reads in any state that the pool can reach.
use sipi.Common.{ℕ, ◌-◌, ◌%◌, List, Option, ◌≡◌, arith, ok, u64_mod}
use sipi.Admission.Pool.{AdmissionMode, Admission, AdmissionConfig, Ratios, Semaphore, new}
use sipi.Admission.Lanes.{Action}
use sipi.Admission.Lanes.Balance.{
  on_global, on_full, waits_tile, waits_full, shed_tile, shed_full_task,
}
use sipi.Admission.Lanes.Invariant.{sum}
use sipi.Admission.Lanes.Safety.{after, setup, permits_balance}

pub record AdmissionSnapshot (R : Type 0) : Type 0 where
  pub permits_total : ℕ
  pub tile_min : ℕ
  pub full_max : ℕ
  pub permits_in_use : ℕ
  pub full_in_use : ℕ
  pub tile_waiting : ℕ
  pub full_waiting : ℕ
  pub tile_shed_total : ℕ
  pub full_shed_total : ℕ
  pub full_shadow_rejected_total : ℕ
  pub classifier_disagreement_total : ℕ
  pub tiles_thread_ratio : R
  pub tiles_memory_ratio : R
  pub mode : AdmissionMode
  pub large_decode_threshold_bytes : ℕ
  pub memory_limit_bytes : ℕ

module _ {R S : Type 0} (sem : Semaphore S) where
  -- The loads of the counters as one step; `saturating_sub` stops at 0.
  unfoldable pub snapshot : Admission R S → AdmissionSnapshot R
  snapshot a = record {
    permits_total = a.permits_total;
    tile_min = a.tile_min;
    full_max = a.full_max;
    permits_in_use = a.permits_total - sem.available a.global;
    full_in_use = a.full_max - sem.available a.full;
    tile_waiting = a.tile_waiting;
    full_waiting = a.full_waiting;
    tile_shed_total = a.tile_shed_total;
    full_shed_total = a.full_shed_total;
    full_shadow_rejected_total = a.full_shadow_rejected_total;
    classifier_disagreement_total = a.classifier_disagreement_total;
    tiles_thread_ratio = a.tiles_thread_ratio;
    tiles_memory_ratio = a.tiles_memory_ratio;
    mode = a.mode;
    large_decode_threshold_bytes = a.large_decode_threshold_bytes;
    memory_limit_bytes = a.memory_limit_bytes;
  }

module _ {R S : Type 0} (ratios : Ratios R) (sem : Semaphore S) where
  -- After any list of steps from a pool that `new` made, a snapshot reports as in use exactly the
  -- permits that the requests hold, in the pool and in the full sub-pool, and as waiting and shed the
  -- requests that wait and that were shed, modulo 2 ^ 64.
  pub snapshot-after :
      (host : Option ℕ) (cfg : AdmissionConfig R) (a : Admission R S)
      (made : new ratios sem host cfg ≡ ok a) (xs : List Action)
      → let s = after ratios sem host cfg a made xs in
        let shown = snapshot sem s.pool in
        (shown.permits_in_use ≡ sum on_global s.tasks)
        × (shown.full_in_use ≡ sum on_full s.tasks)
        × (shown.tile_waiting ≡ sum waits_tile s.tasks % u64_mod)
        × (shown.full_waiting ≡ sum waits_full s.tasks % u64_mod)
        × (shown.tile_shed_total ≡ sum shed_tile s.tasks % u64_mod)
        × (shown.full_shed_total ≡ sum shed_full_task s.tasks % u64_mod)
  unfolding snapshot
  snapshot-after host cfg a made xs =
      let (g, f, tw, fw, ts, fs) = permits_balance ratios sem host cfg a made xs in
      let setup = setup ratios sem host cfg a made xs in
      (omega (arith, g, setup.permits_total), omega (arith, f, setup.full_max), tw, fw, ts, fs)
