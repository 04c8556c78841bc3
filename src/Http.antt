-- ===== src/Http.antt =====
-- HTTP responses. The header map, and the validity of a status, of a header's name and of its value,
-- are those of the crate `http`, behind the interface `Http`. A header's name is its canonical text.
pub mod Sample
use sipi.Common.{
  ℕ, List, [], ◌∷◌, Bool, true, false, Option, none, some, Text, ◌=t=◌, ◌≡◌, if◌then◌else◌,
}

-- What the shell relies on: an insert replaces what the map has under that name, and nothing else.
pub record Http (M : Type 0) : Type 0 where
  pub from_u16 : ℕ → Option ℕ
  pub from_bytes : Text → Option Text
  pub from_str : Text → Option Text
  pub empty : M
  pub insert : Text → Text → M → M
  pub get : M → Text → Option Text
  pub get-empty : (k : Text) → get empty k ≡ none
  pub get-insert :
      (n v : Text) (m : M) (k : Text) → get (insert n v m) k ≡ (if n =t= k then some v else get m k)

-- An empty body, one that is held whole, or one that streams from the body channel.
pub data Body : Type 0 where
  no_body : Body
  whole : Text → Body
  stream : Body

pub record Response (M : Type 0) : Type 0 where
  pub status : ℕ
  pub headers : M
  pub body : Body
