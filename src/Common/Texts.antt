-- ===== src/Common/Texts.antt =====
-- A Rust `&str` as the list of its UTF-8 bytes, and the methods of `str` that the program calls.
-- Every pattern searched for is ASCII, so byte and character positions of a match agree.
use Prim.Native.Char.{code}
use Prim.Native.Nat.{ℕ, ◌+◌, ◌-◌}
use Prim.Native.String.{String}
use mathlib.Core.Path.{◌≡◌, refl, ap, ◌∙◌}
use mathlib.Core.Logic.{◌≢◌, ◌↔◌, inl, inr}
use mathlib.Core.List.{List, [], ◌∷◌, ◌++◌, map}
use mathlib.Core.Option.{Option, none, some}
use mathlib.Core.Bool.{Bool, true, false, ◌&&◌, ◌||◌}
use native.Mathlib.Omega.{arith}
use sipi.Common.Tests.{leb, ◌==◌, if◌then◌else◌, Bool-cases, is_some, ==_iff}
use sipi.Common.Lists.{All}

abbrev pub Text : Type 0
Text = List ℕ

-- The bytes of a literal. `String` has its own `[]` and `∷`.
abbrev pub codes : String → Text
codes String.[] = []
codes (String.◌∷◌ c s) = code c ∷ codes s

abbrev pub is_empty : Text → Bool
is_empty [] = true
is_empty (c ∷ s) = false

infix 50 ◌=t=◌
abbrev pub ◌=t=◌ : Text → Text → Bool
[] =t= [] = true
[] =t= (d ∷ t) = false
(c ∷ s) =t= [] = false
(c ∷ s) =t= (d ∷ t) = (c == d) && (s =t= t)

pub eq_iff : (s t : Text) → ((s =t= t) ≡ true) ↔ (s ≡ t)
eq_iff [] [] = (λ _. refl, λ _. refl)
eq_iff [] (d ∷ t) = (λ e. cc, λ e. cc)
eq_iff (c ∷ s) [] = (λ e. cc, λ e. cc)
eq_iff (c ∷ s) (d ∷ t) = ground (arith, eq_iff s t)

-- `s.strip_prefix(p)`.
abbrev pub strip_prefix : Text → Text → Option Text
strip_prefix [] s = some s
strip_prefix (p ∷ ps) [] = none
strip_prefix (p ∷ ps) (c ∷ s) = if c == p then strip_prefix ps s else none

abbrev pub starts_with : Text → Text → Bool
starts_with p s = is_some (strip_prefix p s)

-- `s.split_once(c)` for one byte: the text before its first place, and the text behind it. It also
-- stands for `find(c)` with the two slices at the index found.
abbrev pub split_once : ℕ → Text → Option (Text × Text)
split_once c [] = none
split_once c (d ∷ s) =
    if d == c
    then some ([], s)
    else elim (split_once c s) [ none ↦ none | some (l, r) ↦ some (d ∷ l, r) ]

abbrev pub push_front : ℕ → List Text → List Text
push_front c [] = (c ∷ []) ∷ []
push_front c (t ∷ ts) = (c ∷ t) ∷ ts

-- `s.split(c).collect()`: never empty.
abbrev pub split : ℕ → Text → List Text
split c [] = [] ∷ []
split c (d ∷ s) = if d == c then [] ∷ split c s else push_front d (split c s)

-- `parts.join(c)` for one byte.
abbrev pub join : ℕ → List Text → Text
join c [] = []
join c (t ∷ []) = t
join c (t ∷ u ∷ us) = t ++ c ∷ join c (u ∷ us)

abbrev pub is_ascii_digit : ℕ → Bool
is_ascii_digit c = leb b'0' c && leb c b'9'

-- `to_ascii_lowercase` of a byte and of a text.
abbrev pub lower_byte : ℕ → ℕ
lower_byte c = if leb b'A' c && leb c b'Z' then c + 32 else c

abbrev pub to_ascii_lowercase : Text → Text
to_ascii_lowercase = map lower_byte

-- `to_ascii_uppercase` of a byte and of a text.
abbrev pub upper_byte : ℕ → ℕ
upper_byte c = if leb b'a' c && leb c b'z' then c - 32 else c

abbrev pub to_ascii_uppercase : Text → Text
to_ascii_uppercase = map upper_byte

-- `s.contains(p)`.
abbrev pub contains : Text → Text → Bool
contains p [] = is_empty p
contains p (c ∷ s) = starts_with p (c ∷ s) || contains p s

abbrev pub ends_with : Text → Text → Bool
ends_with p [] = is_empty p
ends_with p (c ∷ s) = (c ∷ s) =t= p || ends_with p s

-- The byte does not occur.
abbrev pub Lacks : ℕ → Text → Type 0
Lacks c = All (λ d. d ≢ c)

pub strip_prefix_sound : (p s r : Text) → strip_prefix p s ≡ some r → s ≡ p ++ r
strip_prefix_sound [] s r h = ground arith
strip_prefix_sound (p ∷ ps) [] r h = cc
strip_prefix_sound (p ∷ ps) (c ∷ s) r h = ground (arith, strip_prefix_sound ps s r)

pub strip_prefix-append : (p r : Text) → strip_prefix p (p ++ r) ≡ some r
strip_prefix-append [] r = refl
strip_prefix-append (p ∷ ps) r = ground (arith, strip_prefix-append ps r)

pub split_once_sound :
    (c : ℕ) (s l r : Text) → split_once c s ≡ some (l, r) → (s ≡ l ++ c ∷ r) × Lacks c l
split_once_sound c [] l r h = absurd (cc)
split_once_sound c (d ∷ s) [] r h = ground (arith, split_once_sound c s)
split_once_sound c (d ∷ s) (e ∷ l) r h = ground (arith, split_once_sound c s l r)

pub split_once-append : (c : ℕ) (l r : Text) → Lacks c l → split_once c (l ++ c ∷ r) ≡ some (l, r)
split_once-append c [] r h = ground arith
split_once-append c (d ∷ l) r h = ground (arith, split_once-append c l r h.1)

pub split_once-Lacks : (c : ℕ) (s : Text) → Lacks c s → split_once c s ≡ none
split_once-Lacks c [] h = refl
split_once-Lacks c (d ∷ s) h = ground (arith, split_once-Lacks c s h.1)

pub split-Lacks : (c : ℕ) (s : Text) → Lacks c s → split c s ≡ s ∷ []
split-Lacks c [] h = refl
split-Lacks c (d ∷ s) h = ground (arith, split-Lacks c s h.1)

pub split-append : (c : ℕ) (s t : Text) → Lacks c s → split c (s ++ c ∷ t) ≡ s ∷ split c t
split-append c [] t h = ground arith
split-append c (d ∷ s) t h = ground (arith, split-append c s t h.1)

-- A join of parts without the separator splits into the same parts.
pub split-join :
    (c : ℕ) (t : Text) (ts : List Text)
    → All (Lacks c) (t ∷ ts)
    → split c (join c (t ∷ ts)) ≡ t ∷ ts
split-join c t [] h = split-Lacks c t h.0
split-join c t (u ∷ us) h =
    split-append c t (join c (u ∷ us)) h.0 ∙ ap (◌∷◌ t) (split-join c u us h.1)

push_front-join : (c d : ℕ) (ts : List Text) → ts ≢ [] → join c (push_front d ts) ≡ d ∷ join c ts
push_front-join c d [] h = absurd (h refl)
push_front-join c d (t ∷ []) h = refl
push_front-join c d (t ∷ u ∷ us) h = refl

pub split-ne-nil : (c : ℕ) (s : Text) → split c s ≢ []
split-ne-nil c [] = λ e. cc
split-ne-nil c (d ∷ s) = elim (Bool-cases (d == c)) [
  | inl e ↦ rw e (λ q. cc)
  | inr e ↦ rw e (push_front-ne-nil d (split c s))
]
  where
    push_front-ne-nil : (d : ℕ) (ts : List Text) → push_front d ts ≢ []
    push_front-ne-nil d [] = λ e. cc
    push_front-ne-nil d (t ∷ ts) = λ e. cc

nil-join : (c : ℕ) (ts : List Text) → ts ≢ [] → join c ([] ∷ ts) ≡ c ∷ join c ts
nil-join c [] h = absurd (h refl)
nil-join c (t ∷ ts) h = refl

-- Joining the split of a text gives the text back.
pub join-split : (c : ℕ) (s : Text) → join c (split c s) ≡ s
join-split c [] = refl
join-split c (d ∷ s) = elim (Bool-cases (d == c)) [
  | inl e ↦ rw e (nil-join c (split c s) (split-ne-nil c s) ∙ cc (join-split c s, (==_iff d c).0 e))
  | inr e ↦ rw e (push_front-join c d (split c s) (split-ne-nil c s) ∙ ap (◌∷◌ d) (join-split c s))
]
