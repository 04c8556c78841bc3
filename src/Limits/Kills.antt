-- ===== src/Limits/Kills.antt =====
-- When a run is killed, and what is counted.
use sipi.Common.{
  ℕ, ◌+◌, ◌≤◌, ◌<◌, ◌%◌, List, [], ◌∷◌, Bool, true, false, leb, if◌then◌else◌, Result, ok, err, ◌≡◌,
  ◌⊎◌, ◌↔◌, inl, inr, refl, arith, u64_mod, Bool-cases, subst, sym, ◌∙◌,
}
use sipi.Limits.{
  KillReason, Deadline, starting_now, poll_expired, KillStats, record_kill, LuaError, memory_error,
  callback_error, with_context, is_memory_error, RuntimeError, killed, script, setup, RequestVm,
  kill, classified, classify_run,
}

-- The hooks and the bindings poll the deadline at these times.
abbrev pub poll_all : List ℕ → Deadline → Deadline
poll_all [] d = d
poll_all (t ∷ ts) d = poll_all ts (poll_expired t d).1

-- One of the times is not before `at`.
abbrev pub SomeLate : ℕ → List ℕ → Type 0
SomeLate at [] = ⊥
SomeLate at (t ∷ ts) = (at ≤ t) ⊎ SomeLate at ts

-- The error is one of memory, or is caused by one.
pub data MemoryCaused : LuaError → Type 0 where
  itself : MemoryCaused memory_error
  by_callback : {e : LuaError} → MemoryCaused e → MemoryCaused (callback_error e)
  in_context : {e : LuaError} → MemoryCaused e → MemoryCaused (with_context e)

-- What each outcome says of the work's result, and of whether the deadline was seen to have passed.
abbrev pub Classified : {A : Type 0} → Type 0 → Result LuaError A → Result RuntimeError A → Type 0
Classified late result (ok a) = (late → ⊥) × (result ≡ ok a)
Classified late result (err (killed KillReason.timeout)) = late
Classified late result (err (killed KillReason.memory)) =
    (late → ⊥) × (e : LuaError) × (result ≡ err e) × MemoryCaused e
Classified late result (err (script e)) = (late → ⊥) × (result ≡ err e) × (MemoryCaused e → ⊥)
Classified late result (err (setup text)) = ⊥

-- The kills of each kind.
abbrev pub timeouts : {A : Type 0} → Result RuntimeError A → ℕ
timeouts (err (killed KillReason.timeout)) = 1
timeouts _ = 0

abbrev pub memory_kills : {A : Type 0} → Result RuntimeError A → ℕ
memory_kills (err (killed KillReason.memory)) = 1
memory_kills _ = 0

at-poll_expired : (t : ℕ) (d : Deadline) → (poll_expired t d).1.at ≡ d.at
unfolding poll_expired
at-poll_expired t d = ground arith

-- A poll latches the flag if the time is not before the deadline.
poll_expired_iff :
    (t : ℕ) (d : Deadline)
    → ((poll_expired t d).1.expired ≡ true) ↔ ((d.expired ≡ true) ⊎ (d.at ≤ t))
unfolding poll_expired
poll_expired_iff t d = elim (Bool-cases d.expired) [
  | inl e ↦ (λ h. inl e, λ h. ground arith)
  | inr e ↦ elim (Bool-cases (leb d.at t)) [
    | inl l ↦ (λ h. inr (ground arith), λ h. ground arith)
    | inr l ↦ (λ h. absurd (ground arith), λ h. absurd (ground arith))
  ]
]

at-poll_all : (ts : List ℕ) (d : Deadline) → (poll_all ts d).at ≡ d.at
at-poll_all [] d = refl
at-poll_all (t ∷ ts) d = at-poll_all ts (poll_expired t d).1 ∙ at-poll_expired t d

poll_all_iff :
    (ts : List ℕ) (d : Deadline)
    → ((poll_all ts d).expired ≡ true) ↔ ((d.expired ≡ true) ⊎ SomeLate d.at ts)
poll_all_iff [] d = (λ h. inl h, λ h. elim h [ inl e ↦ e | inr f ↦ absurd f ])
poll_all_iff (t ∷ ts) d =
    let d' : Deadline = (poll_expired t d).1 in
    let (f, g) = poll_all_iff ts d' in
    let (p, q) = poll_expired_iff t d in
    (
      λ h. elim (f h) [
        | inl e ↦ elim (p e) [ inl x ↦ inl x | inr l ↦ inr (inl l) ]
        | inr s ↦ inr (inr (subst (λ n. SomeLate n ts) (at-poll_expired t d) s))
      ],
      λ h. g (elim h [
        | inl e ↦ inl (q (inl e))
        | inr s ↦ elim s [
          | inl l ↦ inl (q (inr l))
          | inr s ↦ inr (subst (λ n. SomeLate n ts) (sym (at-poll_expired t d)) s)
        ]
      ]),
    )

is_memory_error_iff : (e : LuaError) → (is_memory_error e ≡ true) ↔ MemoryCaused e
unfolding is_memory_error
is_memory_error_iff memory_error = (λ h. itself, λ h. refl)
is_memory_error_iff (callback_error e) =
    let (f, g) = is_memory_error_iff e in
    (λ h. by_callback (f h), λ h. elim h [ by_callback k ↦ g k ])
is_memory_error_iff (with_context e) =
    let (f, g) = is_memory_error_iff e in
    (λ h. in_context (f h), λ h. elim h [ in_context k ↦ g k ])
is_memory_error_iff (LuaError.other text) = (λ h. cc, λ h. elim h [ ])

abbrev pub vm_of : KillStats → Deadline → RequestVm
vm_of stats deadline = record { deadline = deadline; stats = stats }

answer-poll_expired : (t : ℕ) (d : Deadline) → (poll_expired t d).0 ≡ (poll_expired t d).1.expired
unfolding poll_expired
answer-poll_expired t d = ground arith

-- The poll at the end tells whether any poll was late.
ended_late :
    (start budget now : ℕ) (ts : List ℕ)
    → ((poll_expired now (poll_all ts (starting_now start budget))).0 ≡ true)
      ↔ SomeLate (start + budget) (now ∷ ts)
unfolding starting_now
ended_late start budget now ts =
    let d : Deadline = poll_all ts (starting_now start budget) in
    let (f, g) = poll_expired_iff now d in
    let (p, q) = poll_all_iff ts (starting_now start budget) in
    let same = at-poll_all ts (starting_now start budget) in
    (
      λ h. elim (f (sym (answer-poll_expired now d) ∙ h)) [
        | inl e ↦ elim (p e) [ inl x ↦ cc | inr s ↦ inr s ]
        | inr l ↦ inl (omega (arith, same))
      ],
      λ h.
          answer-poll_expired now d
          ∙ g (elim h [ inl l ↦ inr (omega (arith, same)) | inr s ↦ inl (q (inr s)) ]),
    )

module _ (A : Type 0) where
  -- The result and the counters.
  abbrev pub IsRun :
      Type 0 → Result LuaError A → KillStats → Result RuntimeError A × RequestVm → Type 0
  IsRun late result stats (r, vm) =
      Classified late result r
      × (vm.stats.timeout ≡ (stats.timeout + timeouts r) % u64_mod)
      × (vm.stats.memory ≡ (stats.memory + memory_kills r) % u64_mod)

  module _ (late : Type 0) (stats : KillStats) (deadline : Deadline) where
    module _ (t : stats.timeout < u64_mod) (m : stats.memory < u64_mod) where
      classified_error :
          (e : LuaError) (b : Bool)
          → is_memory_error e ≡ b
          → (late → ⊥)
          → IsRun late (err e) stats (
              if b
              then kill KillReason.memory (vm_of stats deadline)
              else (err (script e), vm_of stats deadline))
      unfolding record_kill
      classified_error e true h l =
          ((l, e, refl, (is_memory_error_iff e).0 h), omega arith, omega arith)
      classified_error e false h l =
          ((l, refl, λ k. cc ((is_memory_error_iff e).1 k)), omega arith, omega arith)

      classified_lem :
          (result : Result LuaError A) (expired : Bool)
          → (expired ≡ true) ↔ late
          → IsRun late result stats (classified expired result (vm_of stats deadline))
      unfolding classified
      classified_lem result true l = (l.0 refl, omega arith, omega arith)
      classified_lem (ok a) false l = ((λ h. cc (l.1 h), refl), omega arith, omega arith)
      classified_lem (err e) false l = classified_error e (is_memory_error e) refl (λ h. cc (l.1 h))

  -- A run that starts with a budget, and polls the clock at the times `ts` and at its end `now`, is killed
  -- for its time exactly if one of these is past the budget, even if the script returned; else for its
  -- memory, exactly if its error is caused by one. Each kill is counted once, under its reason.
  pub classify_run-IsRun :
      (start budget now : ℕ) (ts : List ℕ) (result : Result LuaError A) (stats : KillStats)
      → stats.timeout < u64_mod
      → stats.memory < u64_mod
      → IsRun
          (SomeLate (start + budget) (now ∷ ts))
          result
          stats
          (classify_run now result (vm_of stats (poll_all ts (starting_now start budget))))
  unfolding classify_run starting_now
  classify_run-IsRun start budget now ts result stats t m =
      let d : Deadline = poll_all ts (starting_now start budget) in
      classified_lem (SomeLate (start + budget) (now ∷ ts)) stats (poll_expired now d).1 t m result
        (poll_expired now d).0 (ended_late start budget now ts)
