-- ===== src/Bindings/Outbound/Bounded.antt =====
-- What a script can do to the outside.
use sipi.Common.{
  ℕ, ◌≤◌, List, [], ◌∷◌, ◌++◌, Option, none, some, Text, codes, length, drop, to_ascii_lowercase,
  ◌=t=◌, if◌then◌else◌, Result, ok, err, ◌≡◌, ◌⊎◌,
}
use sipi.Settings.{Value}
use sipi.Bindings.{Lua}
use sipi.Bindings.Outbound.{
  Request, Response, Reply, fetched, http_body_cap, http_default_timeout, http_arguments,
}

-- The body is within the cap.
abbrev pub Small : Reply → Type 0
Small (fetched f) = length f.body ≤ http_body_cap
Small _ = Unit

-- The first value under the name `traceparent`, in any case.
abbrev pub trace_of : List (Text × Text) → Option Text
trace_of [] = none
trace_of ((name, value) ∷ hs) =
    let rest = trace_of hs in
    if to_ascii_lowercase name =t= codes "traceparent" then some value else rest

abbrev or_else : Option Text → Option Text → Option Text
or_else none o = o
or_else (some v) o = some v

abbrev added : Option Text → List (Text × Text)
added none = []
added (some tp) = (codes "traceparent", tp) ∷ []

-- The headers of a script are sent as they are, and behind them at most the trace of the request that runs the
-- script; the trace that is sent is the script's own, if it has set one, and otherwise that of the request.
abbrev pub IsTraced : Option Text → List (Text × Text) → List (Text × Text) → Type 0
IsTraced traceparent hs sent =
    (trace_of sent ≡ or_else (trace_of hs) traceparent)
    × ((sent ≡ hs) ⊎ (sent ≡ hs ++ added traceparent))

abbrev IsRefusal : Reply → Type 0
IsRefusal (fetched f) = ⊥
IsRefusal _ = Unit

-- What the arguments of a script ask for: headers and a time.
abbrev pub Asked : Type 0
Asked = Result Text (List (Text × Text) × ℕ)

-- The request ends before the deadline and the time that the script asks for, and is traced.
abbrev pub IsProper : ℕ → Option Text → Asked → Request → Type 0
IsProper left traceparent asked request =
    (hs : List (Text × Text)) × (timeout : ℕ) × (asked ≡ ok (hs, timeout))
    × (request.timeout ≤ left)
    × (request.timeout ≤ timeout)
    × IsTraced traceparent hs request.headers

abbrev Planned : ℕ → Option Text → Asked → Result Reply Request → Type 0
Planned left traceparent asked (err r) = IsRefusal r
Planned left traceparent asked (ok request) = IsProper left traceparent asked request

module _ {F T : Type 0} (lua : Lua F T) where
  -- The arguments behind the method and the url.
  abbrev pub asked_of : List (Value F T) → Asked
  asked_of args = http_arguments lua (drop 2 args) [] http_default_timeout

  module _ {W : Type 0} (client : Result Text (Request → W → Result Text Response × W))
      (w : W) where
    -- Nothing was sent and nothing fetched, or one proper request was sent, and what was fetched is small.
    abbrev pub Bounded : ℕ → Option Text → Asked → Reply × W → Type 0
    Bounded left traceparent asked result =
        (IsRefusal result.0 × (result.1 ≡ w))
        ⊎ ((send : (Request → W → Result Text Response × W)) × (request : Request) × (client
              ≡ ok send)
            × IsProper left traceparent asked request
            × (result.1 ≡ (send request w).1)
            × Small result.0)
