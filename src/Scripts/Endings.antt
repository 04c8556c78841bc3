-- ===== src/Scripts/Endings.antt =====
-- How a Lua route ends for the client.
use sipi.Common.{
  ℕ, List, [], ◌∷◌, ◌++◌, Bool, true, false, Text, ◌≡◌, ◌≢◌, ◌⊎◌, inl, inr, refl, Result, ok, err,
  All, ℤ,
}
use sipi.Http.{Http, Response}
use sipi.Sink.{complete, stream_head, BodyItem, body_abort, direct_response, error_response}
use sipi.Sink.Region.{ℕ-cases}
use sipi.Scripts.{
  Head, ResponseCookie, ResponseWriter, RuntimeError, killed, other, Script, returns, fails,
  send_status, send_header, send_cookie, print, new_writer, head_snapshot, run, set_status,
  add_header, add_cookie,
}
use sipi.Scripts.Route.{
  Channels, RouteFailure, not_found, route_killed, route_error, RouteOutcome, deliver,
  send_body_until, closures, outcome_of, Loaded, missing, unloadable, loaded, run_loaded, run_route,
  end_route, run_lua_route_blocking, setup_failed,
}
use sipi.Scripts.Phases.{IsChunk, fresh, untouched, Committed, Uncommitted, Phase, run-untouched}

-- A script that writes no body.
abbrev pub Quiet : {A : Type 0} → Script A → Type 0
Quiet (returns a) = Unit
Quiet (fails e) = Unit
Quiet (send_status n k) = Quiet k
Quiet (send_header name value k) = Quiet k
Quiet (send_cookie c k) = Quiet k
Quiet (print bytes k) = ⊥

-- A body that ends cleanly is the whole of what a successful script wrote; one of a failure ends with
-- an abort, unless no send works any more.
abbrev pub Closing : Result RouteFailure (Unit {0}) → List BodyItem → ℕ → Type 0
Closing (ok u) items p = All IsChunk items
Closing (err f) items p =
    ((p ≡ 0) × All IsChunk items)
    ⊎ ((front : List BodyItem) × (items ≡ front ++ body_abort ∷ []) × All IsChunk front)

module _ {M : Type 0} where
  -- The status of a failure that comes before the head is sent.
  abbrev pub HasStatus : Result RouteFailure (Unit {0}) → Response M → Type 0
  HasStatus (ok u) r = Unit
  HasStatus (err not_found) r = r.status ≡ 404
  HasStatus (err route_killed) r = r.status ≡ 500
  HasStatus (err route_error) r = r.status ≡ 500

  -- One response: a whole one, or a head with a body.
  abbrev pub Ends : Result RouteFailure (Unit {0}) → Channels M → Type 0
  Ends result c =
      ((r : Response M) × (c.outcomes ≡ complete r ∷ []) × (c.items ≡ []) × HasStatus result r)
      ⊎ ((h : Head) × (c.outcomes ≡ stream_head h.0 h.1 ∷ []) × Closing result c.items c.patience)

module _ {M : Type 0} (http : Http M) (date : ℤ → Text) where
  abbrev ended : Result RouteFailure (Unit {0}) → ResponseWriter (Channels M) → Channels M
  unfolding end_route head_snapshot
  ended result w =
      end_route http
        (record { result = result; committed = w.committed; head = head_snapshot date w })
        w.captured

  Uncommitted-Ends :
      (result : Result RouteFailure (Unit {0})) (p : ℕ) (w : ResponseWriter (Channels M))
      → Uncommitted p w
      → Ends result (ended result w)
  unfolding ended deliver direct_response error_response
  Uncommitted-Ends (ok u) p w x = rw (ended, end_route, x.nothing_sent) (inl (_, refl, refl, tt))
  Uncommitted-Ends (err not_found) p w x =
      rw (ended, end_route, x.nothing_sent) (inl (_, refl, refl, refl))
  Uncommitted-Ends (err route_killed) p w x =
      rw (ended, end_route, x.not_committed, x.nothing_sent) (inl (_, refl, refl, refl))
  Uncommitted-Ends (err route_error) p w x =
      rw (ended, end_route, x.not_committed, x.nothing_sent) (inl (_, refl, refl, refl))

  Committed-Ends :
      (result : Result RouteFailure (Unit {0})) (h : Head) (w : ResponseWriter (Channels M))
      → ◌≢◌ {A = Result RouteFailure (Unit {0})} result (err not_found)
      → Committed (stream_head h.0 h.1) w
      → Ends result (ended result w)
  unfolding ended deliver send_body_until direct_response error_response
  Committed-Ends (ok u) h w n x =
      rw (ended, end_route, deliver, x.no_tx) (inr (h, x.outcomes, x.chunks))
  Committed-Ends (err not_found) h w n x = absurd (n refl)
  Committed-Ends (err route_killed) h w n x = elim (ℕ-cases w.captured.patience) [
    | inl z ↦
        rw (ended, end_route, x.is_committed, send_body_until, z)
          (inr (h, x.outcomes, inl (z, x.chunks)))
    | inr (p, z) ↦
        rw (ended, end_route, x.is_committed, send_body_until, z)
          (inr (h, x.outcomes, inr (w.captured.items, refl, x.chunks)))
  ]
  Committed-Ends (err route_error) h w n x = elim (ℕ-cases w.captured.patience) [
    | inl z ↦
        rw (ended, end_route, x.is_committed, send_body_until, z)
          (inr (h, x.outcomes, inl (z, x.chunks)))
    | inr (p, z) ↦
        rw (ended, end_route, x.is_committed, send_body_until, z)
          (inr (h, x.outcomes, inr (w.captured.items, refl, x.chunks)))
  ]

  Phase-Ends :
      (result : Result RouteFailure (Unit {0})) (p : ℕ) (w : ResponseWriter (Channels M))
      → ◌≢◌ {A = Result RouteFailure (Unit {0})} result (err not_found)
      → Phase p w
      → Ends result (ended result w)
  Phase-Ends result p w n (inl x) = Uncommitted-Ends result p w x
  Phase-Ends result p w n (inr (h, x)) = Committed-Ends result h w n x

  loaded-Ends :
      (r : Result RuntimeError (Unit {0})) (p : ℕ) (w : ResponseWriter (Channels M))
      → Phase p w
      → Ends ((outcome_of date (r, w)).result) (end_route http (outcome_of date (r, w)) w.captured)
  unfolding outcome_of ended
  loaded-Ends (ok u) p w x = Phase-Ends (ok tt) p w (λ e. cc) x
  loaded-Ends (err killed) p w x = Phase-Ends (err route_killed) p w (λ e. cc) x
  loaded-Ends (err other) p w x = Phase-Ends (err route_error) p w (λ e. cc) x

  -- What follows the init script.
  abbrev after_init :
      Loaded
      → Result RuntimeError (Unit {0})
      → ResponseWriter (Channels M)
      → RouteOutcome × Channels M
  unfolding run_loaded
  after_init script r w = elim r [
    | err e ↦ (setup_failed e, w.captured)
    | ok u ↦ run_loaded date script w
  ]

  after_init-Ends :
      (script : Loaded) (r : Result RuntimeError (Unit {0})) (status : ℕ) (set : Bool)
      (headers : List (Text × Text)) (cookies : List ResponseCookie) (p : ℕ)
      → let o = after_init script r (untouched status set headers cookies p) in
        Ends (o.0.result) (end_route http (o.0) (o.1))
  unfolding after_init run_loaded end_route deliver error_response ended
  after_init-Ends script (err killed) status set headers cookies p = inl (_, refl, refl, refl)
  after_init-Ends script (err other) status set headers cookies p = inl (_, refl, refl, refl)
  after_init-Ends missing (ok u) status set headers cookies p = inl (_, refl, refl, refl)
  after_init-Ends unloadable (ok u) status set headers cookies p = inl (_, refl, refl, refl)
  after_init-Ends (loaded script) (ok u) status set headers cookies p =
      let t = run date closures script (untouched status set headers cookies p) in
      loaded-Ends t.0 p t.1 (run-untouched date script status set headers cookies p)

  after-Quiet-Ends :
      (script : Loaded) (init : Script (Unit {0})) (status : ℕ) (set : Bool)
      (headers : List (Text × Text)) (cookies : List ResponseCookie) (p : ℕ)
      → Quiet init
      → let t = run date closures init (untouched status set headers cookies p) in
        let o = after_init script (t.0) (t.1) in Ends (o.0.result) (end_route http (o.0) (o.1))
  unfolding run set_status add_header add_cookie
  after-Quiet-Ends script (returns a) status set headers cookies p q =
      after_init-Ends script (ok a) status set headers cookies p
  after-Quiet-Ends script (fails e) status set headers cookies p q =
      after_init-Ends script (err e) status set headers cookies p
  after-Quiet-Ends script (send_status n k) status set headers cookies p q =
      after-Quiet-Ends script k n true headers cookies p q
  after-Quiet-Ends script (send_header name value k) status set headers cookies p q =
      after-Quiet-Ends script k status set (headers ++ (name, value) ∷ []) cookies p q
  after-Quiet-Ends script (send_cookie c k) status set headers cookies p q =
      after-Quiet-Ends script k status set headers (cookies ++ c ∷ []) p q
  after-Quiet-Ends script (print bytes k) status set headers cookies p q = absurd q

  -- Whatever a route's script does, after an init script that writes no body, one response is sent: a whole
  -- one, with the status 404 for a script that is missing and 500 for another failure; or a head with a
  -- body, which has no abort if the script succeeds and ends with an abort if it fails, unless no
  -- send works any more.
  pub run_lua_route_blocking-Ends :
      (init : Script (Unit {0})) (script : Loaded) (p : ℕ)
      → Quiet init
      → Ends
          ((run_route {M = M} date init script (fresh p)).0.result)
          (run_lua_route_blocking http date init script p)
  unfolding run_lua_route_blocking run_route new_writer after_init
  run_lua_route_blocking-Ends init script p q = after-Quiet-Ends script init 200 false [] [] p q
