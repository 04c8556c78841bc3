-- ===== src/Limits.antt =====
-- The limits of a script's run: src/scripting/rust/limits.rs, and `run` of runtime.rs. A time is a number
-- of nanoseconds; each read of the clock is an argument.
pub mod Kills
mod Tests
use sipi.Common.{
  ℕ, ◌+◌, ◌-◌, ◌*◌, ◌^◌, List, [], ◌∷◌, ◌++◌, Bool, true, false, Option, none, some, Text, codes,
  leb, max, if◌then◌else◌, Result, ok, err, ◌>>=◌, fetch_add, u64_mod, parse_usize, parse_u32,
}

pub record LimitConfig : Type 0 where
  pub memory_limit : ℕ
  pub timeout : ℕ
  pub hook_period : ℕ

abbrev pub nanos_per_milli : ℕ
nanos_per_milli = 1000000

unfoldable pub default_limits : LimitConfig
default_limits = record {
  memory_limit = 64 * 1024 * 1024;
  timeout = 5 * 1000 * nanos_per_milli;
  hook_period = 1000;
}

-- An environment variable: absent, its text, or what is wrong with it.
pub data EnvVar : Type 0 where
  not_present : EnvVar
  present : Text → EnvVar
  not_unicode : EnvVar

-- The name of the knob and, if it is text, its value.
pub data KnobError : Type 0 where
  invalid_value : Text → Text → KnobError
  unreadable : Text → KnobError

unfoldable pub knob : (Text → EnvVar) → (Text → Option ℕ) → Text → Result KnobError (Option ℕ)
knob env parse name = elim (env name) [
  | not_present ↦ ok none
  | not_unicode ↦ err (unreadable name)
  | present raw ↦ elim (parse raw) [ none ↦ err (invalid_value name raw) | some n ↦ ok (some n) ]
]

abbrev pub or_value : Option ℕ → (ℕ → ℕ) → ℕ → ℕ
or_value none f default = default
or_value (some n) f default = f n

unfoldable pub from_env : (Text → EnvVar) → Result KnobError LimitConfig
unfolding knob parse_usize parse_u32 default_limits
from_env env = do
  bytes ← knob env parse_usize (codes "SIPI_LUA_MEMORY_LIMIT")
  ms ← knob env parse_usize (codes "SIPI_LUA_TIMEOUT_MS")
  period ← knob env parse_u32 (codes "SIPI_LUA_HOOK_PERIOD")
  ok (record {
    memory_limit = or_value bytes (λ n. n) default_limits.memory_limit;
    timeout = or_value ms (λ n. n * nanos_per_milli) default_limits.timeout;
    hook_period = or_value period (λ n. max n 1) default_limits.hook_period;
  })

pub data KillReason : Type 0 where
  timeout memory : KillReason

pub record Deadline : Type 0 where
  pub at : ℕ
  pub expired : Bool

unfoldable pub starting_now : ℕ → ℕ → Deadline
starting_now now budget = record { at = now + budget; expired = false }

unfoldable pub poll_expired : ℕ → Deadline → Bool × Deadline
poll_expired now d =
    if d.expired
    then (true, d)
    else if leb d.at now
    then (true, record d { expired = true })
    else (false, d)

-- The check at the entry of a binding, and the instruction hook.
unfoldable pub check : ℕ → Deadline → Result KillReason (Unit {0}) × Deadline
unfolding poll_expired
check now d = let (expired, d) = poll_expired now d in (if expired then err timeout else ok tt, d)

unfoldable pub remaining : ℕ → Deadline → ℕ
remaining now d = d.at - now

pub record KillStats : Type 0 where
  pub timeout : ℕ
  pub memory : ℕ

unfoldable pub record_kill : KillReason → KillStats → KillStats
record_kill KillReason.timeout s = record s { timeout = fetch_add s.timeout }
record_kill KillReason.memory s = record s { memory = fetch_add s.memory }

-- The errors of the virtual machine, as far as `is_memory_error` looks into them.
pub data LuaError : Type 0 where
  memory_error : LuaError
  callback_error : LuaError → LuaError
  with_context : LuaError → LuaError
  other : Text → LuaError

unfoldable pub is_memory_error : LuaError → Bool
is_memory_error memory_error = true
is_memory_error (callback_error cause) = is_memory_error cause
is_memory_error (with_context cause) = is_memory_error cause
is_memory_error (other text) = false

pub data RuntimeError : Type 0 where
  killed : KillReason → RuntimeError
  script : LuaError → RuntimeError
  setup : Text → RuntimeError

-- A request's virtual machine, with the counters of the process.
pub record RequestVm : Type 0 where
  pub deadline : Deadline
  pub stats : KillStats

module _ {A : Type 0} where
  abbrev pub kill : KillReason → RequestVm → Result RuntimeError A × RequestVm
  kill reason vm = (err (killed reason), record vm { stats = record_kill reason vm.stats })

  unfoldable pub classified :
      Bool → Result LuaError A → RequestVm → Result RuntimeError A × RequestVm
  unfolding is_memory_error record_kill
  classified true result vm = kill KillReason.timeout vm
  classified false (ok value) vm = (ok value, vm)
  classified false (err e) vm =
      if is_memory_error e then kill KillReason.memory vm else (err (script e), vm)

  -- `now` is the time at which the work has ended with the result.
  unfoldable pub classify_run :
      ℕ → Result LuaError A → RequestVm → Result RuntimeError A × RequestVm
  unfolding poll_expired classified
  classify_run now result vm =
      let (expired, d) = poll_expired now vm.deadline in
      classified expired result (record vm { deadline = d })
