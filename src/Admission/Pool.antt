-- ===== src/Admission/Pool.antt =====
-- The configuration of the pool, its state and its construction. The ratios are `f64`: a type `R`
-- with the range test and the rounded product that `new` uses. The semaphores are those of tokio,
-- behind the interface `Semaphore`.
pub mod Sizing
use sipi.Common.{
  ℕ, suc, ◌+◌, ◌-◌, ◌≤◌, ◌<◌, List, [], ◌∷◌, Bool, true, false, Option, none, some, Text, codes,
  ◌≡◌, ◌⊎◌, ◌=t=◌, to_ascii_lowercase, if◌then◌else◌, ltb, leb, ◌==◌, min, max, Result, ok, err,
}

pub data AdmissionMode : Type 0 where
  basic advanced : AdmissionMode

pub mode_parse : Text → Option AdmissionMode
mode_parse s =
    let lower = to_ascii_lowercase s in
    if lower =t= codes "basic"
    then some AdmissionMode.basic
    else if lower =t= codes "advanced"
    then some AdmissionMode.advanced
    else none

pub as_str : AdmissionMode → Text
as_str AdmissionMode.basic = codes "basic"
as_str AdmissionMode.advanced = codes "advanced"

pub data AdmissionKind : Type 0 where
  tile full : AdmissionKind

-- `r > 0.0 && r < 1.0`, and `((n as f64) * r).round() as usize`.
pub record Ratios (R : Type 0) : Type 0 where
  pub in_unit : R → Bool
  pub scaled : ℕ → R → ℕ

-- What the pool relies on of `tokio::sync::Semaphore`: `try_acquire_owned` takes a permit exactly
-- where one is available, and a dropped permit is available again.
pub record Semaphore (S : Type 0) : Type 0 where
  pub create : ℕ → S
  pub available : S → ℕ
  pub try_acquire : S → Option S
  pub release : S → S
  pub available-create : (n : ℕ) → available (create n) ≡ n
  pub try_acquire_cases :
      (s : S)
      → ((available s ≡ 0) × (try_acquire s ≡ none))
        ⊎ ((s' : S) × (try_acquire s ≡ some s') × (available s ≡ available s' + 1))
  pub available-release : (s : S) → available (release s) ≡ available s + 1

pub record AdmissionConfig (R : Type 0) : Type 0 where
  pub nthreads : ℕ
  pub tiles_thread_ratio : R
  pub tiles_memory_ratio : R
  pub mode : AdmissionMode
  pub max_waiting : ℕ
  pub queue_timeout : ℕ
  pub large_decode_threshold_bytes : ℕ
  pub memory_limit_bytes : ℕ

pub record AdmissionError (R : Type 0) : Type 0 where
  pub name : Text
  pub value : R

-- The pool: sizing and limits, which `new` fixes, then the semaphores and the counters.
pub record Admission (R S : Type 0) : Type 0 where
  pub permits_total : ℕ
  pub tile_min : ℕ
  pub full_max : ℕ
  pub max_waiting : ℕ
  pub queue_timeout : ℕ
  pub large_decode_threshold_bytes : ℕ
  pub tiles_thread_ratio : R
  pub tiles_memory_ratio : R
  pub mode : AdmissionMode
  pub memory_limit_bytes : ℕ
  pub global : S
  pub full : S
  pub tile_waiting : ℕ
  pub full_waiting : ℕ
  pub tile_shed_total : ℕ
  pub full_shed_total : ℕ
  pub full_shadow_rejected_total : ℕ
  pub classifier_disagreement_total : ℕ

-- `available_parallelism().map_or(4, NonZeroUsize::get)`, given what the host reports.
unfoldable pub default_pool_size : Option ℕ → ℕ
default_pool_size none = 4
default_pool_size (some n) = n

-- `(tile_min, full_max)` for a pool of so many permits, given the rounded share of the tiles.
unfoldable pub partition : ℕ → ℕ → ℕ × ℕ
partition permits_total raw =
    if ltb permits_total 2
    then (0, max permits_total 1)
    else let tile_min = min (max raw 1) (permits_total - 1) in
      (tile_min, max (permits_total - tile_min) 1)

module _ {R S : Type 0} (ratios : Ratios R) (sem : Semaphore S) where
  unfoldable pub permits_of : Option ℕ → AdmissionConfig R → ℕ
  unfolding default_pool_size
  permits_of host cfg = if ltb 0 cfg.nthreads then cfg.nthreads else default_pool_size host

  unfoldable pub build : AdmissionConfig R → ℕ → ℕ × ℕ → Admission R S
  build cfg permits_total (tile_min, full_max) = record {
    permits_total = permits_total;
    tile_min = tile_min;
    full_max = full_max;
    max_waiting = cfg.max_waiting;
    queue_timeout = cfg.queue_timeout;
    large_decode_threshold_bytes = cfg.large_decode_threshold_bytes;
    tiles_thread_ratio = cfg.tiles_thread_ratio;
    tiles_memory_ratio = cfg.tiles_memory_ratio;
    mode = cfg.mode;
    memory_limit_bytes = cfg.memory_limit_bytes;
    global = sem.create permits_total;
    full = sem.create full_max;
    tile_waiting = 0;
    full_waiting = 0;
    tile_shed_total = 0;
    full_shed_total = 0;
    full_shadow_rejected_total = 0;
    classifier_disagreement_total = 0;
  }

  unfoldable pub new : Option ℕ → AdmissionConfig R → Result (AdmissionError R) (Admission R S)
  unfolding permits_of partition build
  new host cfg =
      if ratios.in_unit cfg.tiles_thread_ratio
      then if ratios.in_unit cfg.tiles_memory_ratio
        then ok (
            build cfg (permits_of host cfg) (
              partition (permits_of host cfg)
                (ratios.scaled (permits_of host cfg) cfg.tiles_thread_ratio)))
        else err (record { name = codes "tiles_memory_ratio"; value = cfg.tiles_memory_ratio })
      else err (record { name = codes "tiles_thread_ratio"; value = cfg.tiles_thread_ratio })
