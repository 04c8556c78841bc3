-- ===== src/Admission/Tests.antt =====
-- A pool of two permits, and the theorems at it.
use sipi.Common.{
  ℕ, zero, suc, ◌+◌, ◌*◌, ◌/◌, ◌%◌, ◌≤◌, List, [], ◌∷◌, Option, none, some, ◌≡◌, refl, arith, ◌&&◌,
  ltb, u64_mod, ok, ◌⊎◌, inl, inr, ◌↔◌, codes, All,
}
use sipi.Iiif.Domain.{IiifParams}
use sipi.Iiif.Tests.{decimals, percent_decode, lena_request, parse_request_image_test}
use sipi.Admission.Pool.{
  advanced, tile, full, Semaphore, Admission, Ratios, AdmissionConfig, new, permits_of, partition,
  build,
}
use sipi.Admission.Lanes.{
  start_full, drop_full, queue_full, System, Action, arrive, on, advances, expires, run, step,
  advance, expire, happen,
}
use sipi.Admission.Lanes.Balance.{
  on_global, on_full, waits_tile, waits_full, shed_tile, shed_full_task,
}
use sipi.Admission.Lanes.Invariant.{sum}
use sipi.Admission.Lanes.Safety.{
  full_at_global, runs_tile, IsEnded, before, permits_balance, full_lane_bound,
  tiles_wait_for_tiles, permits_return,
}
use sipi.Admission.Snapshot.{AdmissionSnapshot, snapshot}
use sipi.Iiif.Domain.{SizeKind}
use sipi.Admission.Classify.{classify, upper_bound}
use sipi.Admission.Classify.Exact.{IsLarge, classify-parse_request}

-- Ratios in hundredths.
abbrev hundredths : Ratios ℕ
hundredths = record { in_unit = λ r. ltb 0 r && ltb r 100; scaled = λ n r. (n * r + 50) / 100 }

-- A semaphore that is no more than its count.
abbrev take_one : ℕ → Option ℕ
take_one zero = none
take_one (suc n) = some n

take_one_cases :
    (s : ℕ) → ((s ≡ 0) × (take_one s ≡ none)) ⊎ ((s' : ℕ) × (take_one s ≡ some s') × (s ≡ s' + 1))
take_one_cases zero = inl (refl, refl)
take_one_cases (suc n) = inr (n, refl, omega arith)

abbrev counter : Semaphore ℕ
counter = record {
  create = λ n. n;
  available = λ s. s;
  try_acquire = take_one;
  release = λ s. s + 1;
  available-create = λ n. refl;
  try_acquire_cases = take_one_cases;
  available-release = λ s. refl;
}

abbrev config : AdmissionConfig ℕ
config = record {
  nthreads = 2;
  tiles_thread_ratio = 50;
  tiles_memory_ratio = 50;
  mode = advanced;
  max_waiting = 8;
  queue_timeout = 30;
  large_decode_threshold_bytes = 100000;
  memory_limit_bytes = 0;
}

abbrev pool : Admission ℕ ℕ
pool = record {
  permits_total = 2;
  tile_min = 1;
  full_max = 1;
  max_waiting = 8;
  queue_timeout = 30;
  large_decode_threshold_bytes = 100000;
  tiles_thread_ratio = 50;
  tiles_memory_ratio = 50;
  mode = advanced;
  memory_limit_bytes = 0;
  global = 2;
  full = 1;
  tile_waiting = 0;
  full_waiting = 0;
  tile_shed_total = 0;
  full_shed_total = 0;
  full_shadow_rejected_total = 0;
  classifier_disagreement_total = 0;
}

made : new hundredths counter none config ≡ ok pool
unfolding new permits_of partition build
made = refl

-- A full image starts, a second one parks for the sub-pool, and a tile takes the other permit.
abbrev busy_actions : List Action
busy_actions =
    arrive full
    ∷ on 0 advances
    ∷ on 0 advances
    ∷ arrive full
    ∷ on 1 advances
    ∷ on 1 advances
    ∷ on 1 advances
    ∷ arrive tile
    ∷ on 2 advances
    ∷ []

-- All of them end: the first and the tile are done, the second times out.
abbrev all_actions : List Action
all_actions =
    arrive full
    ∷ on 0 advances
    ∷ on 0 advances
    ∷ arrive full
    ∷ on 1 advances
    ∷ on 1 advances
    ∷ on 1 advances
    ∷ arrive tile
    ∷ on 2 advances
    ∷ on 1 expires
    ∷ on 0 advances
    ∷ on 2 advances
    ∷ []

abbrev busy : System ℕ ℕ
busy = run counter (before pool) busy_actions

abbrev done : System ℕ ℕ
done = run counter (before pool) all_actions

busy_test : (busy.pool.global ≡ 0) × (busy.pool.full ≡ 0) × (busy.pool.full_waiting ≡ 1)
unfolding run step advance happen start_full drop_full queue_full
busy_test = (refl, refl, refl)

permits_balance_example :
    (busy.pool.global + sum on_global busy.tasks ≡ 2)
    × (busy.pool.full + sum on_full busy.tasks ≡ 1)
    × (busy.pool.tile_waiting ≡ sum waits_tile busy.tasks % u64_mod)
    × (busy.pool.full_waiting ≡ sum waits_full busy.tasks % u64_mod)
    × (busy.pool.tile_shed_total ≡ sum shed_tile busy.tasks % u64_mod)
    × (busy.pool.full_shed_total ≡ sum shed_full_task busy.tasks % u64_mod)
permits_balance_example = permits_balance hundredths counter none config pool made busy_actions

full_lane_bound_example : sum full_at_global busy.tasks ≤ 1
full_lane_bound_example = full_lane_bound hundredths counter none config pool made busy_actions refl

tiles_wait_for_tiles_example : (1 ≤ 1) × (1 ≤ sum runs_tile busy.tasks)
tiles_wait_for_tiles_example =
    tiles_wait_for_tiles hundredths counter none config pool made busy_actions refl (omega arith)
      busy_test.0

done-IsEnded : All IsEnded done.tasks
unfolding run step advance happen expire start_full drop_full queue_full
done-IsEnded = (tt, (tt, (tt, tt)))

permits_return_example :
    (done.pool.global ≡ 2)
    × (done.pool.full ≡ 1)
    × (done.pool.tile_waiting ≡ 0)
    × (done.pool.full_waiting ≡ 0)
permits_return_example =
    permits_return hundredths counter none config pool made all_actions done-IsEnded

classify-parse_request_example : (classify pool lena_request ≡ full) ↔ (
    (p : IiifParams ℕ) × (lena_request.params ≡ some p)
    × IsLarge 100000 p.size_kind p.size_nx p.size_ny)
classify-parse_request_example =
    classify-parse_request decimals pool percent_decode
      (codes "/iiif/2/image.jpg/full/200,/0/default.jpg") lena_request parse_request_image_test

-- A size of one side has a bound, whatever the aspect of the source.
one_side_test : upper_bound SizeKind.pixels_x 100 0 ≡ some 10000
unfolding upper_bound
one_side_test = refl

abbrev busy_shown : AdmissionSnapshot ℕ
busy_shown = snapshot counter busy.pool
