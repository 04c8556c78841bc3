-- ===== src/Sink/Headers.antt =====
-- Headers are kept last write wins.
use sipi.Common.{
  inl, inr, List, [], ◌∷◌, Bool, true, false, Option, none, some, Text, ◌=t=◌, ◌≡◌, refl,
  if◌then◌else◌, Option-cases, ◌∙◌,
}
use sipi.Http.{Http}
use sipi.Sink.{apply_headers}

abbrev pub or_else : Option Text → Option Text → Option Text
or_else none b = b
or_else (some v) b = some v

module _ {M : Type 0} (http : Http M) where
  -- The value that a header's name and text stand for, if both are valid and the name is `k`.
  unfoldable pub value_for : Text → Text → Text → Option Text
  value_for k name value = elim (http.from_bytes name) [
    | none ↦ none
    | some n ↦ elim (http.from_str value) [
      | none ↦ none
      | some v ↦ if n =t= k then some v else none
    ]
  ]

  abbrev pub last_value : Text → List (Text × Text) → Option Text
  unfolding value_for
  last_value k [] = none
  last_value k ((name, value) ∷ hs) = or_else (last_value k hs) (value_for k name value)

  or_else-if :
      (o d : Option Text) (b : Bool) (v : Text)
      → or_else o (if b then some v else d) ≡ or_else (or_else o (if b then some v else none)) d
  or_else-if none d true v = refl
  or_else-if none d false v = refl
  or_else-if (some w) d b v = refl

  or_else-none : (o d : Option Text) → or_else o d ≡ or_else (or_else o none) d
  or_else-none none d = refl
  or_else-none (some w) d = refl

  -- The headers of a response have under each name the last valid value that was set for it, and what the
  -- map had before if there is none.
  pub get-apply_headers :
      (k : Text) (m : M) (hs : List (Text × Text))
      → http.get (apply_headers http m hs) k ≡ or_else (last_value k hs) (http.get m k)
  unfolding apply_headers value_for
  get-apply_headers k m [] = refl
  get-apply_headers k m ((name, value) ∷ hs) = elim (Option-cases (http.from_bytes name)) [
    | inl e ↦
        rw (value_for, apply_headers, e)
          (get-apply_headers k m hs ∙ or_else-none (last_value k hs) (http.get m k))
    | inr (n, e) ↦ elim (Option-cases (http.from_str value)) [
      | inl f ↦
          rw (value_for, apply_headers, e, f)
            (get-apply_headers k m hs ∙ or_else-none (last_value k hs) (http.get m k))
      | inr (v, f) ↦
          rw (value_for, apply_headers, e, f)
            (get-apply_headers k (http.insert n v m) hs
              ∙ rw (http.get-insert n v m k)
                  (or_else-if (last_value k hs) (http.get m k) (n =t= k) v))
    ]
  ]
