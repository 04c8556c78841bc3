-- ===== src/Scripts/Phases.antt =====
-- Before and after the head of a Lua route is sent.
use sipi.Common.{
  ℕ, zero, suc, List, [], ◌∷◌, ◌++◌, Bool, true, false, Text, ◌≡◌, ◌⊎◌, inl, inr, refl, All,
  All-append, ℤ,
}
use sipi.Sink.{Outcome, stream_head, BodyItem, chunk, body_abort}
use sipi.Scripts.{
  Head, ResponseCookie, ResponseWriter, Script, returns, fails, send_status, send_header,
  send_cookie, print, head_snapshot, commit_head, write, run, set_status, add_header, add_cookie,
}
use sipi.Scripts.Route.{Channels, deliver, send_body_until, closures}

abbrev pub IsChunk : BodyItem → Type 0
IsChunk (chunk bytes) = Unit
IsChunk body_abort = ⊥

module _ {M : Type 0} where
  abbrev pub fresh : ℕ → Channels M
  fresh p = record { outcome_tx = true; outcomes = []; items = []; patience = p }

  -- A writer that has sent nothing, and one that has sent its head.
  abbrev pub untouched :
      ℕ → Bool → List (Text × Text) → List ResponseCookie → ℕ → ResponseWriter (Channels M)
  untouched status set headers cookies p = record {
    status = status;
    status_set = set;
    headers = headers;
    cookies = cookies;
    committed = false;
    commit_left = true;
    captured = fresh p;
  }

  abbrev pub begun :
      Outcome M
      → ℕ
      → Bool
      → List (Text × Text)
      → List ResponseCookie
      → List BodyItem
      → ℕ
      → ResponseWriter (Channels M)
  begun o status set headers cookies items p = record {
    status = status;
    status_set = set;
    headers = headers;
    cookies = cookies;
    committed = true;
    commit_left = false;
    captured = record { outcome_tx = false; outcomes = o ∷ []; items = items; patience = p };
  }

  pub record Committed (o : Outcome M) (w : ResponseWriter (Channels M)) : Type 0 where
    pub is_committed : w.committed ≡ true
    pub no_tx : w.captured.outcome_tx ≡ false
    pub outcomes : w.captured.outcomes ≡ o ∷ []
    pub chunks : All IsChunk w.captured.items

  pub record Uncommitted (p : ℕ) (w : ResponseWriter (Channels M)) : Type 0 where
    pub not_committed : w.committed ≡ false
    pub nothing_sent : w.captured ≡ fresh p

  abbrev pub Phase : ℕ → ResponseWriter (Channels M) → Type 0
  Phase p w = Uncommitted p w ⊎ ((h : Head) × Committed (stream_head h.0 h.1) w)

  module _ (date : ℤ → Text) where
    run-begun :
        {A : Type 0} (script : Script A) (o : Outcome M) (status : ℕ) (set : Bool)
        (headers : List (Text × Text)) (cookies : List ResponseCookie) (items : List BodyItem)
        (p : ℕ)
        → All IsChunk items
        → Committed o ((run date closures script (begun o status set headers cookies items p)).1)
    unfolding run write commit_head closures send_body_until set_status add_header add_cookie
    run-begun (returns a) o status set headers cookies items p h = record {
      is_committed = refl;
      no_tx = refl;
      outcomes = refl;
      chunks = h;
    }
    run-begun (fails e) o status set headers cookies items p h = record {
      is_committed = refl;
      no_tx = refl;
      outcomes = refl;
      chunks = h;
    }
    run-begun (send_status n k) o status set headers cookies items p h =
        run-begun k o n true headers cookies items p h
    run-begun (send_header name value k) o status set headers cookies items p h =
        run-begun k o status set (headers ++ (name, value) ∷ []) cookies items p h
    run-begun (send_cookie c k) o status set headers cookies items p h =
        run-begun k o status set headers (cookies ++ c ∷ []) items p h
    run-begun (print bytes k) o status set headers cookies items zero h =
        run-begun (k false) o status set headers cookies items zero h
    run-begun (print bytes k) o status set headers cookies items (suc p) h =
        run-begun (k true) o status set headers cookies (items ++ chunk bytes ∷ []) p
          (All-append IsChunk items (chunk bytes ∷ []) h (tt, tt))

    pub run-untouched :
        {A : Type 0} (script : Script A) (status : ℕ) (set : Bool) (headers : List (Text × Text))
        (cookies : List ResponseCookie) (p : ℕ)
        → Phase p ((run date closures script (untouched status set headers cookies p)).1)
    unfolding run write commit_head closures deliver send_body_until set_status add_header
        add_cookie
    run-untouched (returns a) status set headers cookies p =
        inl (record { not_committed = refl; nothing_sent = refl })
    run-untouched (fails e) status set headers cookies p =
        inl (record { not_committed = refl; nothing_sent = refl })
    run-untouched (send_status n k) status set headers cookies p =
        run-untouched k n true headers cookies p
    run-untouched (send_header name value k) status set headers cookies p =
        run-untouched k status set (headers ++ (name, value) ∷ []) cookies p
    run-untouched (send_cookie c k) status set headers cookies p =
        run-untouched k status set headers (cookies ++ c ∷ []) p
    run-untouched (print bytes k) status set headers cookies zero =
        let h = head_snapshot date (untouched status set headers cookies zero) in
        inr (h, run-begun (k false) (stream_head h.0 h.1) status set [] [] [] zero tt)
    run-untouched (print bytes k) status set headers cookies (suc p) =
        let h = head_snapshot date (untouched status set headers cookies (suc p)) in
        inr (
          h,
          run-begun (k true) (stream_head h.0 h.1) status set [] [] (chunk bytes ∷ []) p (tt, tt),
        )
