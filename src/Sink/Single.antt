-- ===== src/Sink/Single.antt =====
-- One response for each call of the engine.
use sipi.Common.{
  ℕ, zero, suc, map, List, [], ◌∷◌, ◌++◌, true, false, none, some, Text, ◌≡◌, refl, if◌then◌else◌,
  ℤ,
}
use sipi.Http.{Http}
use sipi.Sink.{
  Files, World, BodyItem, chunk, stream_file_region, Round, Outcome, complete, stream_head,
  StreamSink, Engine, returns, set_status, add_header, write, send_file, cancelled, as_u16, is_zero,
  map_status, error_response, head_response, deliver, send_head, send_chunk, cb_set_status,
  cb_add_header, cb_write, cb_send_file, cb_cancelled, run, tail, serve_streaming,
}

-- Once its head is sent, a sink sends no other.
module _ {M : Type 0} (files : Files) (o : Outcome M) where
  abbrev closed : ℕ → List (Text × Text) → List BodyItem → List Round → ℕ → StreamSink M
  closed status headers items rounds patience = record {
    status = status;
    headers = headers;
    outcome_tx = false;
    head_sent = true;
    outcomes = o ∷ [];
    items = items;
    world = record { rounds = rounds; patience = patience };
  }

  abbrev Shut : StreamSink M → Type 0
  Shut s = (s.head_sent ≡ true) × (s.outcomes ≡ o ∷ [])

  run-Shut :
      (call : Engine) (status : ℕ) (headers : List (Text × Text)) (items : List BodyItem)
      (rounds : List Round) (patience : ℕ)
      → Shut ((run files call (closed status headers items rounds patience)).1)
  unfolding run cb_set_status cb_add_header cb_write cb_send_file cb_cancelled send_head send_chunk
  run-Shut (returns code) status headers items rounds p = (refl, refl)
  run-Shut (set_status n k) status headers items rounds p =
      run-Shut k (as_u16 n) headers items rounds p
  run-Shut (add_header name value k) status headers items rounds p =
      run-Shut k status (headers ++ (name, value) ∷ []) items rounds p
  run-Shut (write none k) status headers items rounds p =
      run-Shut (k 0) status headers items rounds p
  run-Shut (write (some []) k) status headers items rounds p =
      run-Shut (k 0) status headers items rounds p
  run-Shut (write (some (b ∷ bs)) k) status headers items rounds zero =
      run-Shut (k 1) status headers items rounds zero
  run-Shut (write (some (b ∷ bs)) k) status headers items rounds (suc p) =
      run-Shut (k 0) status headers (items ++ chunk (b ∷ bs) ∷ []) rounds p
  run-Shut (send_file path offset len k) status headers items rounds p =
      let sent =
        stream_file_region files (record { rounds = rounds; patience = p }) path offset len in
      run-Shut (k sent.code) status headers (items ++ map chunk sent.chunks) sent.world.rounds
        sent.world.patience
  run-Shut (cancelled k) status headers items rounds zero =
      run-Shut (k true) status headers items rounds zero
  run-Shut (cancelled k) status headers items rounds (suc p) =
      run-Shut (k false) status headers items rounds p

module _ {M : Type 0} (http : Http M) where
  -- The response that the engine commits to, read off its calls up to the first with a body: the
  -- status and the headers set before that call, or, if it returns without one, the whole response.
  abbrev pub commitment : Engine → ℕ → ℕ → List (Text × Text) → Outcome M
  commitment (returns code) patience status headers = complete (
      if is_zero code
      then head_response http status headers
      else error_response http (map_status http code))
  commitment (set_status n k) patience status headers = commitment k patience (as_u16 n) headers
  commitment (add_header name value k) patience status headers =
      commitment k patience status (headers ++ (name, value) ∷ [])
  commitment (write bytes k) patience status headers = stream_head status headers
  commitment (send_file path offset len k) patience status headers = stream_head status headers
  commitment (cancelled k) zero status headers = commitment (k true) zero status headers
  commitment (cancelled k) (suc p) status headers = commitment (k false) p status headers

  -- A sink whose head is not sent.
  abbrev waiting : ℕ → List (Text × Text) → List Round → ℕ → StreamSink M
  waiting status headers rounds patience = record {
    status = status;
    headers = headers;
    outcome_tx = true;
    head_sent = false;
    outcomes = [];
    items = [];
    world = record { rounds = rounds; patience = patience };
  }

  module _ (files : Files) where
    abbrev outcomes_of : ℤ × StreamSink M → List (Outcome M)
    unfolding tail
    outcomes_of (code, s) = (tail http code s).outcomes

    tail-Shut : (o : Outcome M) (r : ℤ × StreamSink M) → Shut files o r.1 → outcomes_of r ≡ o ∷ []
    unfolding tail
    tail-Shut o (code, s) h = rw (tail, h.0) h.1

    run-commitment :
        (call : Engine) (status : ℕ) (headers : List (Text × Text)) (rounds : List Round) (p : ℕ)
        → outcomes_of (run files call (waiting status headers rounds p))
          ≡ commitment call p status headers ∷ []
    unfolding run cb_set_status cb_add_header cb_write cb_send_file cb_cancelled send_head
        send_chunk deliver tail
    run-commitment (returns code) status headers rounds p = refl
    run-commitment (set_status n k) status headers rounds p =
        run-commitment k (as_u16 n) headers rounds p
    run-commitment (add_header name value k) status headers rounds p =
        run-commitment k status (headers ++ (name, value) ∷ []) rounds p
    run-commitment (write none k) status headers rounds p =
        let o = stream_head status headers in
        tail-Shut o (run files (k 0) (closed files o status [] [] rounds p))
          (run-Shut files o (k 0) status [] [] rounds p)
    run-commitment (write (some []) k) status headers rounds p =
        let o = stream_head status headers in
        tail-Shut o (run files (k 0) (closed files o status [] [] rounds p))
          (run-Shut files o (k 0) status [] [] rounds p)
    run-commitment (write (some (b ∷ bs)) k) status headers rounds zero =
        let o = stream_head status headers in
        tail-Shut o (run files (k 1) (closed files o status [] [] rounds zero))
          (run-Shut files o (k 1) status [] [] rounds zero)
    run-commitment (write (some (b ∷ bs)) k) status headers rounds (suc p) =
        let o = stream_head status headers in
        let items = chunk (b ∷ bs) ∷ [] in
        tail-Shut o (run files (k 0) (closed files o status [] items rounds p))
          (run-Shut files o (k 0) status [] items rounds p)
    run-commitment (send_file path offset len k) status headers rounds p =
        let o = stream_head status headers in
        let sent =
          stream_file_region files (record { rounds = rounds; patience = p }) path offset len in
        let items = map chunk sent.chunks in
        let s = closed files o status [] items sent.world.rounds sent.world.patience in
        tail-Shut o (run files (k sent.code) s)
          (run-Shut files o (k sent.code) status [] items sent.world.rounds sent.world.patience)
    run-commitment (cancelled k) status headers rounds zero =
        run-commitment (k true) status headers rounds zero
    run-commitment (cancelled k) status headers rounds (suc p) =
        run-commitment (k false) status headers rounds p

  -- Whatever the engine calls, and whenever the client leaves, one outcome is sent, and it is what the
  -- engine commits to: the status and the headers set before its first call with a body, which later ones
  -- do not change; or, without such a call, the whole response, an error where the engine reports one.
  pub serve_streaming-commitment :
      (files : Files) (world : World) (call : Engine)
      → (serve_streaming http files world call).outcomes ≡ commitment call world.patience 0 [] ∷ []
  unfolding serve_streaming
  serve_streaming-commitment files world call =
      run-commitment files call 0 [] world.rounds world.patience
