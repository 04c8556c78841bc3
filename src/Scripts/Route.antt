-- ===== src/Scripts/Route.antt =====
-- A Lua route: `run_route` of src/scripting/rust/entry.rs and `run_lua_route_blocking` of
-- server-rs/src/routes.rs. A send on the body channel fails when the client is gone or has stopped
-- reading past the deadline, after any number of sends.
use sipi.Common.{
  ℕ, zero, suc, List, [], ◌∷◌, ◌++◌, Bool, true, false, Text, Result, ok, err, if◌then◌else◌, ℤ,
}
use sipi.Http.{Http}
use sipi.Sink.{
  Outcome, complete, stream_head, BodyItem, chunk, body_abort, direct_response, error_response,
}
use sipi.Scripts.{
  Head, Closures, ResponseWriter, RuntimeError, killed, other, Script, new_writer, head_snapshot,
  run,
}

-- The two channels: whether the outcome is still to be sent, and how many sends still work.
pub record Channels (M : Type 0) : Type 0 where
  pub outcome_tx : Bool
  pub outcomes : List (Outcome M)
  pub items : List BodyItem
  pub patience : ℕ

-- The kinds of `RouteFailure`.
pub data RouteFailure : Type 0 where
  not_found route_killed route_error : RouteFailure

pub record RouteOutcome : Type 0 where
  pub result : Result RouteFailure (Unit {0})
  pub committed : Bool
  pub head : Head

abbrev pub route_failure : RuntimeError → RouteFailure
route_failure killed = route_killed
route_failure other = route_error

-- A run whose virtual machine could not be set up reports that nothing was committed.
abbrev pub setup_failed : RuntimeError → RouteOutcome
setup_failed e = record { result = err (route_failure e); committed = false; head = (500, []) }

-- The script that was loaded: `none` where the file is missing, and an error where it does not load.
pub data Loaded : Type 0 where
  missing unloadable : Loaded
  loaded : Script Unit → Loaded

module _ {M : Type 0} where
  -- `take_tx`, and a send.
  unfoldable pub deliver : Outcome M → Channels M → Channels M
  deliver outcome c =
      if c.outcome_tx
      then record c { outcome_tx = false; outcomes = c.outcomes ++ outcome ∷ [] }
      else c

  -- Every send is bounded by a deadline.
  unfoldable pub send_body_until : BodyItem → Channels M → Bool × Channels M
  send_body_until item c = elim c.patience [
    | zero ↦ (false, c)
    | suc p ↦ (true, record c { items = c.items ++ item ∷ []; patience = p })
  ]

  abbrev pub send_away : BodyItem → Channels M → Channels M
  unfolding send_body_until
  send_away item c = (send_body_until item c).1

  unfoldable pub closures : Closures (Channels M)
  unfolding deliver send_body_until
  closures = record {
    commit = λ head c. deliver (stream_head head.0 head.1) c;
    write = λ bytes c. send_body_until (chunk bytes) c;
  }

  unfoldable pub outcome_of :
      (ℤ → Text) → Result RuntimeError (Unit {0}) × ResponseWriter (Channels M) → RouteOutcome
  unfolding head_snapshot
  outcome_of date (ok u, w) = record {
    result = ok tt;
    committed = w.committed;
    head = head_snapshot date w;
  }
  outcome_of date (err e, w) = record {
    result = err (route_failure e);
    committed = w.committed;
    head = head_snapshot date w;
  }

  unfoldable pub run_loaded :
      (ℤ → Text) → Loaded → ResponseWriter (Channels M) → RouteOutcome × Channels M
  unfolding run closures outcome_of head_snapshot
  run_loaded date missing w = (
    record { result = err not_found; committed = w.committed; head = head_snapshot date w },
    w.captured,
  )
  run_loaded date unloadable w = (
    record { result = err route_error; committed = w.committed; head = head_snapshot date w },
    w.captured,
  )
  run_loaded date (loaded script) w =
      let (r, w) = run date closures script w in (outcome_of date (r, w), w.captured)

  -- The init script runs first, with the same writer.
  unfoldable pub run_route :
      (ℤ → Text) → Script Unit → Loaded → Channels M → RouteOutcome × Channels M
  unfolding run closures run_loaded new_writer
  run_route date init script c =
      let (r, w) = run date closures init (new_writer c) in
      elim r [ err e ↦ (setup_failed e, w.captured) | ok u ↦ run_loaded date script w ]

module _ {M : Type 0} (http : Http M) where
  unfoldable pub end_route : RouteOutcome → Channels M → Channels M
  unfolding deliver send_body_until direct_response error_response
  end_route o c = elim o.result [
    | ok u ↦ deliver (complete (direct_response http o.head.0 o.head.1 [])) c
    | err f ↦ elim f [
      | not_found ↦ deliver (complete (error_response http 404)) c
      | _ ↦
          if o.committed
          then (send_body_until body_abort c).1
          else deliver (complete (error_response http 500)) c
    ]
  ]

  -- The blocking task of a Lua route, from a request's fresh channels.
  unfoldable pub run_lua_route_blocking : (ℤ → Text) → Script Unit → Loaded → ℕ → Channels M
  unfolding run_route end_route
  run_lua_route_blocking date init script patience =
      let (o, c) =
        run_route date init script
          (record { outcome_tx = true; outcomes = []; items = []; patience = patience }) in
      end_route o c
