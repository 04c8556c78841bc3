-- ===== src/Limits/Tests.antt =====
-- A budget of 5 and its polls, and the knobs of an environment.
use sipi.Common.{ℕ, [], ◌∷◌, Text, codes, ◌=t=◌, if◌then◌else◌, ok, err, ◌≡◌, refl, arith}
use sipi.Limits.{
  EnvVar, not_present, present, invalid_value, default_limits, from_env, KillReason, KillStats,
  memory_error, callback_error, killed, starting_now, classify_run,
}
use sipi.Limits.Kills.{poll_all, SomeLate, IsRun, vm_of, classify_run-IsRun}

abbrev env : Text → Text → EnvVar
env value name = if name =t= codes "SIPI_LUA_HOOK_PERIOD" then present value else not_present

period_zero : from_env (env (codes "0")) ≡ ok (record default_limits { hook_period = 1 })
unfolding from_env
period_zero = refl

period_wide :
    from_env (env (codes "4294967296"))
    ≡ err (invalid_value (codes "SIPI_LUA_HOOK_PERIOD") (codes "4294967296"))
unfolding from_env
period_wide = refl

abbrev stats : KillStats
stats = record { timeout = 3; memory = 4 }

-- A script that traps the kill and returns is killed all the same.
trapped :
    (classify_run {A = ℕ} 12 (ok 7) (vm_of stats (poll_all (11 ∷ 15 ∷ []) (starting_now 10 5)))).0
    ≡ err (killed KillReason.timeout)
unfolding classify_run starting_now
trapped = refl

classify_run-IsRun_example :
    IsRun ℕ (SomeLate 15 (12 ∷ 11 ∷ [])) (err (callback_error memory_error)) stats (
      classify_run 12
        (err (callback_error memory_error))
        (vm_of stats (poll_all (11 ∷ []) (starting_now 10 5))))
classify_run-IsRun_example =
    classify_run-IsRun ℕ 10 5 12 (11 ∷ []) (err (callback_error memory_error)) stats (omega arith)
      (omega arith)
