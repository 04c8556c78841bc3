-- ===== src/Admission/Lanes/Invariant.antt =====
-- The invariant of the pool and its tasks, kept by every step in every order.
use sipi.Common.{
  ℕ, zero, suc, ◌+◌, List, [], ◌∷◌, ◌++◌, some, ◌≡◌, refl, ◌∙◌, sym, inl, inr, get_elem?, set,
  arith, All, All-append, Option-cases, subst,
}
use sipi.Admission.Pool.{AdmissionMode, AdmissionKind, Semaphore, Admission}
use sipi.Admission.Lanes.{Task, starting, Event, happen, System, Action, arrive, on, step, run}
use sipi.Admission.Lanes.Balance.{
  on_global, on_full, waits_tile, waits_full, shed_tile, shed_full_task, Balanced, happen-Balanced,
}
use sipi.Admission.Lanes.Modes.{Fits, SameSetup, happen-Kept}

unfoldable pub sum : (Task → ℕ) → List Task → ℕ
sum w [] = 0
sum w (t ∷ ts) = w t + sum w ts

-- The sum over all tasks but one.
others : (Task → ℕ) → List Task → ℕ → ℕ
others w [] i = 0
others w (t ∷ ts) zero = sum w ts
others w (t ∷ ts) (suc i) = w t + others w ts i

sum-others :
    (w : Task → ℕ) (ts : List Task) (i : ℕ) (t : Task)
    → get_elem? ts i ≡ some t
    → sum w ts ≡ others w ts i + w t
unfolding sum others
sum-others w [] i t h = absurd (cc)
sum-others w (u ∷ ts) zero t h = ground arith
sum-others w (u ∷ ts) (suc i) t h = omega (arith, sum-others w ts i t h)

sum-set :
    (w : Task → ℕ) (ts : List Task) (i : ℕ) (t v : Task)
    → get_elem? ts i ≡ some t
    → sum w (set ts i v) ≡ others w ts i + w v
unfolding sum others
sum-set w [] i t v h = absurd (cc)
sum-set w (u ∷ ts) zero t v h = omega arith
sum-set w (u ∷ ts) (suc i) t v h = omega (arith, sum-set w ts i t v h)

sum-append : (w : Task → ℕ) (ts : List Task) (t : Task) → sum w (ts ++ t ∷ []) ≡ sum w ts + w t
unfolding sum
sum-append w [] t = omega arith
sum-append w (u ∷ ts) t = omega (arith, sum-append w ts t)

All-set {ℓ} :
    (P : Task → Type ℓ) (ts : List Task) (i : ℕ) (v : Task) → All P ts → P v → All P (set ts i v)
All-set P [] i v h k = tt
All-set P (t ∷ ts) zero v h k = (k, h.1)
All-set P (t ∷ ts) (suc i) v h k = (h.0, All-set P ts i v h.1 k)

All-get {ℓ} :
    (P : Task → Type ℓ) (ts : List Task) (i : ℕ) {t : Task}
    → All P ts
    → get_elem? ts i ≡ some t
    → P t
All-get P [] i h e = absurd (cc)
All-get P (u ∷ ts) zero h e = subst P (some_injective e) h.0
  where
    some_injective : {a b : Task} → some a ≡ some b → a ≡ b
    some_injective e = cc
All-get P (u ∷ ts) (suc i) h e = All-get P ts i h.1 e

module _ {R S : Type 0} (sem : Semaphore S) where
  -- The books balance over all tasks, and every task fits the mode.
  pub record Inv (s : System R S) : Type 0 where
    pub balanced :
        Balanced sem s.pool
          (sum on_global s.tasks)
          (sum on_full s.tasks)
          (sum waits_tile s.tasks)
          (sum waits_full s.tasks)
          (sum shed_tile s.tasks)
          (sum shed_full_task s.tasks)
    pub fits : All (Fits s.pool.mode) s.tasks

  arrive-Inv : (s : System R S) (k : AdmissionKind) → Inv s → Inv (step sem s (arrive k))
  unfolding step
  arrive-Inv s k v = record {
    balanced = omega (
      arith,
      sum-append on_global s.tasks (starting k),
      sum-append on_full s.tasks (starting k),
      sum-append waits_tile s.tasks (starting k),
      sum-append waits_full s.tasks (starting k),
      sum-append shed_tile s.tasks (starting k),
      sum-append shed_full_task s.tasks (starting k),
    );
    fits = All-append (Fits s.pool.mode) s.tasks (starting k ∷ []) v.fits (tt, tt);
  }

  -- The books with the task at one place set apart, and back again with the task changed.
  module _ (s : System R S) (i : ℕ) (t : Task) (n : get_elem? s.tasks i ≡ some t) where
    abbrev Apart : Admission R S → Task → Type 0
    Apart a u =
        Balanced sem a (others on_global s.tasks i + on_global u)
          (others on_full s.tasks i + on_full u) (others waits_tile s.tasks i + waits_tile u)
          (others waits_full s.tasks i + waits_full u) (others shed_tile s.tasks i + shed_tile u)
          (others shed_full_task s.tasks i + shed_full_task u)

    set-Apart : Inv s → Apart s.pool t
    set-Apart v = omega (
      arith,
      sum-others on_global s.tasks i t n,
      sum-others on_full s.tasks i t n,
      sum-others waits_tile s.tasks i t n,
      sum-others waits_full s.tasks i t n,
      sum-others shed_tile s.tasks i t n,
      sum-others shed_full_task s.tasks i t n,
    )

    put_back :
        (a : Admission R S) (u : Task)
        → Apart a u
        → Balanced sem a
            (sum on_global (set s.tasks i u))
            (sum on_full (set s.tasks i u))
            (sum waits_tile (set s.tasks i u))
            (sum waits_full (set s.tasks i u))
            (sum shed_tile (set s.tasks i u))
            (sum shed_full_task (set s.tasks i u))
    put_back a u b = omega (
      arith,
      sum-set on_global s.tasks i t u n,
      sum-set on_full s.tasks i t u n,
      sum-set waits_tile s.tasks i t u n,
      sum-set waits_full s.tasks i t u n,
      sum-set shed_tile s.tasks i t u n,
      sum-set shed_full_task s.tasks i t u n,
    )

  on-Inv : (s : System R S) (i : ℕ) (e : Event) → Inv s → Inv (step sem s (on i e))
  unfolding step
  on-Inv s i e v = elim (Option-cases (get_elem? s.tasks i)) [
    | inl n ↦ rw (n, step) v
    | inr (t, n) ↦
        let fit = All-get (Fits s.pool.mode) s.tasks i v.fits n in
        let kept = happen-Kept sem e s.pool t fit in
        rw (n, step)
          (record {
            balanced =
                put_back s i t n (happen sem e s.pool t).0 (happen sem e s.pool t).1
                  (happen-Balanced sem _ _ _ _ _ _ e s.pool t (set-Apart s i t n v));
            fits =
                subst
                  (λ (m : AdmissionMode). All (Fits m) (set s.tasks i (happen sem e s.pool t).1))
                  (sym kept.0.mode) (All-set (Fits s.pool.mode) s.tasks i _ v.fits kept.1);
          })
  ]

  pub step-Inv : (s : System R S) (x : Action) → Inv s → Inv (step sem s x)
  step-Inv s (arrive k) v = arrive-Inv s k v
  step-Inv s (on i e) v = on-Inv s i e v

  -- Every sequence of steps keeps the books balanced.
  pub run-Inv : (s : System R S) (xs : List Action) → Inv s → Inv (run sem s xs)
  unfolding run
  run-Inv s [] v = v
  run-Inv s (x ∷ xs) v = run-Inv (step sem s x) xs (step-Inv s x v)

  step-SameSetup : (s : System R S) (x : Action) → Inv s → SameSetup s.pool (step sem s x).pool
  unfolding step
  step-SameSetup s (arrive k) v = record {
    mode = refl;
    permits_total = refl;
    tile_min = refl;
    full_max = refl;
    max_waiting = refl;
  }
  step-SameSetup s (on i e) v = elim (Option-cases (get_elem? s.tasks i)) [
    | inl n ↦
        rw (n, step)
          (record {
            mode = refl;
            permits_total = refl;
            tile_min = refl;
            full_max = refl;
            max_waiting = refl;
          })
    | inr (t, n) ↦
        rw (n, step)
          ((happen-Kept sem e s.pool t (All-get (Fits s.pool.mode) s.tasks i v.fits n)).0)
  ]

  pub run-SameSetup :
      (s : System R S) (xs : List Action) → Inv s → SameSetup s.pool (run sem s xs).pool
  unfolding run
  run-SameSetup s [] v = record {
    mode = refl;
    permits_total = refl;
    tile_min = refl;
    full_max = refl;
    max_waiting = refl;
  }
  run-SameSetup s (x ∷ xs) v =
      let first = step-SameSetup s x v in
      let rest = run-SameSetup (step sem s x) xs (step-Inv s x v) in
      record {
        mode = rest.mode ∙ first.mode;
        permits_total = rest.permits_total ∙ first.permits_total;
        tile_min = rest.tile_min ∙ first.tile_min;
        full_max = rest.full_max ∙ first.full_max;
        max_waiting = rest.max_waiting ∙ first.max_waiting;
      }
