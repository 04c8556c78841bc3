-- ===== src/Admission/Pool/Sizing.antt =====
-- How `new` sizes the lanes, and the mode's text.
use sipi.Common.{ℕ, ◌+◌, ◌≤◌, ◌<◌, true, Option, ◌≡◌, arith, ok}
use sipi.Admission.Pool.{Semaphore, Admission, Ratios, AdmissionConfig, new, partition, permits_of}

-- The lanes of a pool of so many permits.
abbrev pub AreLanes : ℕ → ℕ → ℕ → Type 0
AreLanes total tile_min full_max =
    (2 ≤ total → (1 ≤ tile_min) × (1 ≤ full_max) × (tile_min + full_max ≡ total))
    × (total < 2 → (tile_min ≡ 0) × (full_max ≡ 1))

partition-AreLanes :
    (total raw : ℕ) → AreLanes total (partition total raw).0 (partition total raw).1
unfolding partition
partition-AreLanes total raw = ground arith

module _ {R S : Type 0} (ratios : Ratios R) (sem : Semaphore S) where
  -- A pool as `new` leaves it.
  pub record IsFresh (host : Option ℕ) (cfg : AdmissionConfig R) (a : Admission R S) : Type 0 where
    pub total : a.permits_total ≡ permits_of ratios sem host cfg
    pub lanes : AreLanes a.permits_total a.tile_min a.full_max
    pub global : sem.available a.global ≡ a.permits_total
    pub full : sem.available a.full ≡ a.full_max
    pub mode : a.mode ≡ cfg.mode
    pub counters :
        (a.tile_waiting ≡ 0)
        × (a.full_waiting ≡ 0)
        × (a.tile_shed_total ≡ 0)
        × (a.full_shed_total ≡ 0)
        × (a.full_shadow_rejected_total ≡ 0)
        × (a.classifier_disagreement_total ≡ 0)

  -- Where `new` makes a pool, both ratios lie within (0, 1), the lanes are sized, all permits are
  -- available and all counters are 0.
  pub new-IsFresh :
      (host : Option ℕ) (cfg : AdmissionConfig R) (a : Admission R S)
      → new ratios sem host cfg ≡ ok a
      → IsFresh host cfg a
        × (ratios.in_unit cfg.tiles_thread_ratio ≡ true)
        × (ratios.in_unit cfg.tiles_memory_ratio ≡ true)
  unfolding new
  new-IsFresh host cfg a h =
      let total = permits_of ratios sem host cfg in
      let raw = ratios.scaled total cfg.tiles_thread_ratio in
      ground (
        arith,
        partition-AreLanes total raw,
        sem.available-create total,
        sem.available-create (partition total raw).1,
      )
