-- ===== src/Sink.antt =====
-- The response sink: server-rs/src/sink.rs. The engine is a program that calls the callbacks: what a
-- callback answers decides how it goes on. The client leaves after any number of observations of the
-- body channel, and a read of a file answers what the list of rounds says, then fails.
pub mod Region
pub mod Headers
pub mod Single
mod Tests
use sipi.Common.{
  ℕ, zero, suc, ◌-◌, ◌+◌, ◌*◌, ◌%◌, ◌^◌, List, [], ◌∷◌, ◌++◌, map, Bool, true, false, Option, none,
  some, Text, length, take, drop, is_empty, min, ltb, unwrap_or, if◌then◌else◌, ℤ, pos, negsuc,
  zero,
}
use sipi.Http.{Http, Response, Body, no_body, whole, stream}

pub data BodyItem : Type 0 where
  chunk : Text → BodyItem
  body_abort : BodyItem

abbrev pub file_chunk : ℕ
file_chunk = 64 * 1024

pub data Outcome (M : Type 0) : Type 0 where
  complete : Response M → Outcome M
  stream_head : ℕ → List (Text × Text) → Outcome M

module _ {M : Type 0} (http : Http M) where
  unfoldable pub apply_headers : M → List (Text × Text) → M
  apply_headers m [] = m
  apply_headers m ((name, value) ∷ hs) = elim (http.from_bytes name) [
    | none ↦ apply_headers m hs
    | some n ↦ elim (http.from_str value) [
      | none ↦ apply_headers m hs
      | some v ↦ apply_headers (http.insert n v m) hs
    ]
  ]

  unfoldable pub map_status_u16 : ℕ → ℕ
  map_status_u16 status = unwrap_or (http.from_u16 status) 500

  -- `u16::try_from` fails on a negative code and on one above 65535.
  unfoldable pub map_status : ℤ → ℕ
  unfolding map_status_u16
  map_status (pos n) = map_status_u16 (if ltb n (2 ^ 16) then n else 500)
  map_status (negsuc n) = map_status_u16 500

  unfoldable pub error_response : ℕ → Response M
  error_response status = record { status = status; headers = http.empty; body = no_body }

  -- A builder with a valid status does not fail.
  unfoldable pub with_body : ℕ → List (Text × Text) → Body → Response M
  unfolding apply_headers map_status_u16
  with_body status headers body = record {
    status = map_status_u16 status;
    headers = apply_headers http.empty headers;
    body = body;
  }

  unfoldable pub head_response : ℕ → List (Text × Text) → Response M
  unfolding with_body
  head_response status headers = with_body status headers no_body

  unfoldable pub direct_response : ℕ → List (Text × Text) → Text → Response M
  unfolding with_body
  direct_response status headers body = with_body status headers (whole body)

  unfoldable pub stream_response : ℕ → List (Text × Text) → Response M
  unfolding with_body
  stream_response status headers = with_body status headers stream

-- A read into the buffer: at most that many bytes, one at least; `Interrupted`; another error.
pub data Round : Type 0 where
  got : ℕ → Round
  interrupted failed : Round

-- What a callback finds of the world: the answers of the reads to come, and how often the client is
-- still there.
pub record World : Type 0 where
  pub rounds : List Round
  pub patience : ℕ

pub record Sent : Type 0 where
  pub code : ℕ
  pub chunks : List Text
  pub world : World

abbrev pub stop : ℕ → List Round → ℕ → Sent
stop code rounds patience = record {
  code = code;
  chunks = [];
  world = record { rounds = rounds; patience = patience };
}

abbrev pub then_send : Text → Sent → Sent
then_send bytes sent = record sent { chunks = bytes ∷ sent.chunks }

-- The loop of `stream_file_region`: the bytes from the cursor on, and what remains to be sent.
unfoldable pub region_loop : List Round → ℕ → Text → ℕ → Sent
region_loop rounds patience rest zero = stop 0 rounds patience
region_loop [] patience rest (suc r) = stop 1 [] patience
region_loop (failed ∷ rounds) patience rest (suc r) = stop 1 rounds patience
region_loop (interrupted ∷ rounds) patience rest (suc r) = region_loop rounds patience rest (suc r)
region_loop (got k ∷ rounds) patience rest (suc r) =
    let n = min (min (suc k) (min (suc r) file_chunk)) (length rest) in
    elim n [
      | zero ↦ stop 1 rounds patience
      | suc n' ↦ elim patience [
        | zero ↦ stop 1 rounds zero
        | suc p ↦
            then_send (take (suc n') rest)
              (region_loop rounds p (drop (suc n') rest) (suc r - suc n'))
      ]
    ]

-- The files of the operating system: the bytes of a file that opens, and whether a seek works.
pub record Files : Type 0 where
  pub opened : Text → Option Text
  pub seek : Text → ℕ → Bool

unfoldable pub stream_file_region : Files → World → Text → ℕ → ℕ → Sent
unfolding region_loop
stream_file_region files world path offset len = elim (files.opened path) [
  | none ↦ stop 1 world.rounds world.patience
  | some bytes ↦
      if ltb 0 offset
      then if files.seek path offset
        then region_loop world.rounds world.patience (drop offset bytes) len
        else stop 1 world.rounds world.patience
      else region_loop world.rounds world.patience bytes len
]

-- The sink of a call, with what went over its two channels, and what is left of the world.
pub record StreamSink (M : Type 0) : Type 0 where
  pub status : ℕ
  pub headers : List (Text × Text)
  pub outcome_tx : Bool
  pub head_sent : Bool
  pub outcomes : List (Outcome M)
  pub items : List BodyItem
  pub world : World

-- `status as u16`.
abbrev pub as_u16 : ℤ → ℕ
as_u16 (pos n) = n % 2 ^ 16
as_u16 (negsuc n) = 2 ^ 16 - suc (n % 2 ^ 16)

abbrev pub is_zero : ℤ → Bool
is_zero (pos zero) = true
is_zero (pos (suc n)) = false
is_zero (negsuc n) = false

-- The engine, by the callbacks it calls; `returns` is its result.
pub data Engine : Type 0 where
  returns : ℤ → Engine
  set_status : ℤ → Engine → Engine
  add_header : Text → Text → Engine → Engine
  write : Option Text → (ℕ → Engine) → Engine
  send_file : Text → ℕ → ℕ → (ℕ → Engine) → Engine
  cancelled : (Bool → Engine) → Engine

module _ {M : Type 0} where
  -- `outcome_tx.take()`, and a send of the outcome.
  unfoldable pub deliver : Outcome M → StreamSink M → StreamSink M
  deliver outcome s =
      if s.outcome_tx
      then record s { outcome_tx = false; outcomes = s.outcomes ++ outcome ∷ [] }
      else s

  unfoldable pub send_head : StreamSink M → StreamSink M
  unfolding deliver
  send_head s =
      if s.head_sent
      then s
      else let s = record s { head_sent = true } in
        if s.outcome_tx
        then record (deliver (stream_head s.status s.headers) s) { headers = [] }
        else s

  unfoldable pub cb_set_status : ℤ → StreamSink M → StreamSink M
  cb_set_status status s = record s { status = as_u16 status }

  unfoldable pub cb_add_header : Text → Text → StreamSink M → StreamSink M
  cb_add_header name value s = record s { headers = s.headers ++ (name, value) ∷ [] }

  -- `blocking_send`: it fails when the client has left.
  unfoldable pub send_chunk : Text → StreamSink M → ℕ × StreamSink M
  send_chunk bytes s = elim s.world.patience [
    | zero ↦ (1, s)
    | suc p ↦ (
      0,
      record s {
        items = s.items ++ chunk bytes ∷ [];
        world = record { rounds = s.world.rounds; patience = p };
      },
    )
  ]

  -- `none` is a null pointer.
  unfoldable pub cb_write : Option Text → StreamSink M → ℕ × StreamSink M
  unfolding send_head send_chunk
  cb_write none s = (0, send_head s)
  cb_write (some bytes) s =
      if is_empty bytes then (0, send_head s) else send_chunk bytes (send_head s)

  unfoldable pub cb_send_file : Files → Text → ℕ → ℕ → StreamSink M → ℕ × StreamSink M
  unfolding send_head stream_file_region
  cb_send_file files path offset len s =
      let sent = stream_file_region files s.world path offset len in
      let s = send_head s in
      (sent.code, record s { items = s.items ++ map chunk sent.chunks; world = sent.world })

  unfoldable pub cb_cancelled : StreamSink M → Bool × StreamSink M
  cb_cancelled s = elim s.world.patience [
    | zero ↦ (true, s)
    | suc p ↦ (false, record s { world = record { rounds = s.world.rounds; patience = p } })
  ]

  unfoldable pub run : Files → Engine → StreamSink M → ℤ × StreamSink M
  unfolding cb_set_status cb_add_header cb_write cb_send_file cb_cancelled
  run files (returns code) s = (code, s)
  run files (set_status status k) s = run files k (cb_set_status status s)
  run files (add_header name value k) s = run files k (cb_add_header name value s)
  run files (write data_ k) s = let (r, s) = cb_write data_ s in run files (k r) s
  run files (send_file path offset len k) s =
      let (r, s) = cb_send_file files path offset len s in run files (k r) s
  run files (cancelled k) s = let (gone, s) = cb_cancelled s in run files (k gone) s

  abbrev pub fresh : World → StreamSink M
  fresh world = record {
    status = 0;
    headers = [];
    outcome_tx = true;
    head_sent = false;
    outcomes = [];
    items = [];
    world = world;
  }

module _ {M : Type 0} (http : Http M) where
  -- What `serve_streaming` does after the call.
  unfoldable pub tail : ℤ → StreamSink M → StreamSink M
  unfolding deliver head_response error_response map_status
  tail code s =
      if s.head_sent
      then s
      else deliver
          (complete (
            if is_zero code
            then head_response http s.status s.headers
            else error_response http (map_status http code)))
          s

  unfoldable pub serve_streaming : Files → World → Engine → StreamSink M
  unfolding run tail
  serve_streaming files world call = let (code, s) = run files call (fresh world) in tail code s
