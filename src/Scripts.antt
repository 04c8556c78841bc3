-- ===== src/Scripts.antt =====
-- The responses that Lua scripts write: src/scripting/rust/bindings/mod.rs and entry.rs, and the end of a
-- Lua route in server-rs/src/routes.rs. A script is a program of calls of the writer, of any shape, and
-- ends with values, a kill or an error. The messages of errors are only logged, and not kept.
pub mod Hook
pub mod Route
pub mod Permissions
pub mod Phases
pub mod Endings
mod Tests
use sipi.Common.{
  ℕ, List, [], ◌∷◌, ◌++◌, map, Bool, true, false, Option, none, some, Text, codes, is_empty,
  if◌then◌else◌, Result, ok, err, ℤ,
}

pub record ResponseCookie : Type 0 where
  pub name : Text
  pub value : Text
  pub path : Text
  pub domain : Text
  pub expires_seconds : Option ℤ
  pub secure : Bool
  pub http_only : Bool

abbrev push_part : Bool → Text → Text → Text
push_part skip s part = if skip then s else s ++ part

-- The time so many seconds from now, as an HTTP date, is a parameter. It stands for the times that a
-- `SystemTime` holds: for seconds beyond them the source panics, which is not modelled.
unfoldable pub render : (ℤ → Text) → ResponseCookie → Text
render date c =
    let s = c.name ++ (codes "=" ++ c.value) in
    let s = if is_empty c.path then s else s ++ (codes "; Path=" ++ c.path) in
    let s = if is_empty c.domain then s else s ++ (codes "; Domain=" ++ c.domain) in
    let s = s ++ (elim c.expires_seconds [
      | none ↦ []
      | some seconds ↦ codes "; Expires=" ++ date seconds
    ]) in
    let s = if c.secure then s ++ codes "; Secure" else s in
    if c.http_only then s ++ codes "; HttpOnly" else s

abbrev pub Head : Type 0
Head = ℕ × List (Text × Text)

-- The two closures, on what they capture: the commit of a head, and a write, which fails when the client
-- is gone.
pub record Closures (S : Type 0) : Type 0 where
  pub commit : Head → S → S
  pub write : Text → S → Bool × S

-- `commit` is there until it is called.
pub record ResponseWriter (S : Type 0) : Type 0 where
  pub status : ℕ
  pub status_set : Bool
  pub headers : List (Text × Text)
  pub cookies : List ResponseCookie
  pub committed : Bool
  pub commit_left : Bool
  pub captured : S

-- Why a run failed.
pub data RuntimeError : Type 0 where
  killed other : RuntimeError

-- A script; a write tells it whether it worked.
pub data Script (A : Type 0) : Type 0 where
  returns : A → Script A
  fails : RuntimeError → Script A
  send_status : ℕ → Script A → Script A
  send_header : Text → Text → Script A → Script A
  send_cookie : ResponseCookie → Script A → Script A
  print : Text → (Bool → Script A) → Script A

module _ {S : Type 0} where
  unfoldable pub new_writer : S → ResponseWriter S
  new_writer captured = record {
    status = 200;
    status_set = false;
    headers = [];
    cookies = [];
    committed = false;
    commit_left = true;
    captured = captured;
  }

  unfoldable pub set_status : ℕ → ResponseWriter S → ResponseWriter S
  set_status status w = record w { status = status; status_set = true }

  unfoldable pub add_header : Text → Text → ResponseWriter S → ResponseWriter S
  add_header name value w = record w { headers = w.headers ++ (name, value) ∷ [] }

  unfoldable pub add_cookie : ResponseCookie → ResponseWriter S → ResponseWriter S
  add_cookie cookie w = record w { cookies = w.cookies ++ cookie ∷ [] }

  module _ (date : ℤ → Text) where
    unfoldable pub head_snapshot : ResponseWriter S → Head
    unfolding render
    head_snapshot w =
        (w.status, w.headers ++ map (λ c. (codes "Set-Cookie", render date c)) w.cookies)

    module _ (closures : Closures S) where
      -- The head goes out before the first byte of a body.
      unfoldable pub commit_head : ResponseWriter S → ResponseWriter S
      unfolding head_snapshot
      commit_head w =
          if w.committed
          then w
          else let head = head_snapshot w in
            let w' = record w { committed = true; headers = []; cookies = [] } in
            if w.commit_left
            then record w' { commit_left = false; captured = closures.commit head w.captured }
            else w'

      unfoldable pub write : Text → ResponseWriter S → Bool × ResponseWriter S
      unfolding commit_head
      write bytes w =
          let w = commit_head w in
          let (done, captured) = closures.write bytes w.captured in
          (done, record w { captured = captured })

      unfoldable pub run :
          {A : Type 0} → Script A → ResponseWriter S → Result RuntimeError A × ResponseWriter S
      unfolding write set_status add_header add_cookie
      run (returns a) w = (ok a, w)
      run (fails e) w = (err e, w)
      run (send_status n k) w = run k (set_status n w)
      run (send_header name value k) w = run k (add_header name value w)
      run (send_cookie c k) w = run k (add_cookie c w)
      run (print bytes k) w = let (done, w) = write bytes w in run (k done) w
