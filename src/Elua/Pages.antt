-- ===== src/Elua/Pages.antt =====
-- A file as a page of texts and chunks, and what it does.
use sipi.Common.{
  ℕ, zero, suc, ◌+◌, ◌<◌, [], ◌++◌, Option, none, some, Text, length, drop, ◌≡◌, inl, inr, refl, ap,
  ap₂, sym, ◌∙◌, arith, Option-cases, length-append, drop-length_append, append_assoc,
}
use mathlib.Core.Path.{fun_ext}
use sipi.Scripts.{Script, RuntimeError, returns, fails}
use sipi.Elua.{
  and_run, moved, position, find, slice, open_tag, close_tag, write_html, elua_loop, run_elua,
}
use sipi.Elua.Find.{EndsFirst, position-Split, find-append, slice-append}

-- Each chunk stands behind a text; the last one may have no end.
pub data Page : Type 0 where
  tail : Text → Page
  unterminated : Text → Text → Page
  piece : Text → Text → Page → Page

abbrev pub page_text : Page → Text
page_text (tail html) = html
page_text (unterminated html chunk) = html ++ (open_tag ++ chunk)
page_text (piece html chunk p) = html ++ (open_tag ++ (chunk ++ (close_tag ++ page_text p)))

-- A tag ends a text, and an end tag a chunk, where it is first found.
abbrev pub IsPage : Page → Type 0
IsPage (tail html) = position open_tag html ≡ none
IsPage (unterminated html chunk) = EndsFirst open_tag html × (position close_tag chunk ≡ none)
IsPage (piece html chunk p) = EndsFirst open_tag html × EndsFirst close_tag chunk × IsPage p

module _ {V : Type 0} (exec : V → Text → Script V) where
  -- The texts are written and the chunks run in their order, on one state, up to the first failure.
  abbrev pub page_script : Page → V → Script (Unit {0})
  page_script (tail html) v = write_html html (returns tt)
  page_script (unterminated html chunk) v =
      write_html html (and_run (exec v chunk) (λ u. fails RuntimeError.other))
  page_script (piece html chunk p) v =
      write_html html (and_run (exec v chunk) (λ u. page_script p u))

  module _ (fuel : ℕ) (code : Text) where
    abbrev after_close : ℕ → V → Option ℕ → Script (Unit {0})
    after_close start v none = and_run (exec v (drop start code)) (λ u. fails RuntimeError.other)
    after_close start v (some close) =
        and_run (exec v (slice code start close)) (λ u. elua_loop exec fuel code (close + 6) u)

    abbrev after_open : ℕ → V → Option ℕ → Script (Unit {0})
    after_open cursor v none = write_html (drop cursor code) (returns tt)
    after_open cursor v (some open_at) =
        write_html (slice code cursor open_at)
          (after_close (open_at + 5) v (find code close_tag (open_at + 5)))

    loop_round :
        (cursor : ℕ) (v : V)
        → elua_loop exec (suc fuel) code cursor v ≡ after_open cursor v (find code open_tag cursor)
    unfolding elua_loop
    loop_round cursor v = refl

  -- What the rest of the code is, behind `pre`.
  Paged : ℕ → Text → Text → Type 0
  Paged fuel pre s =
      (p : Page) × IsPage p
      × (page_text p ≡ s)
      × ((v : V) → elua_loop exec fuel (pre ++ s) (length pre) v ≡ page_script p v)

  Paged-tail : (fuel : ℕ) (pre s : Text) → position open_tag s ≡ none → Paged (suc fuel) pre s
  unfolding Paged
  Paged-tail fuel pre s h = (
    tail s,
    h,
    refl,
    λ v.
        loop_round fuel (pre ++ s) (length pre) v
        ∙ ap (after_open fuel (pre ++ s) (length pre) v)
            (find-append pre s open_tag ∙ ap (moved (length pre)) h)
        ∙ ap (λ t. write_html t (returns tt)) (drop-length_append pre s),
  )

  -- What stands behind a tag is the rest of the code, behind a longer text.
  regroup :
      (pre front tag rest s : Text)
      → s ≡ front ++ (tag ++ rest)
      → pre ++ s ≡ (pre ++ (front ++ tag)) ++ rest
  regroup pre front tag rest s e =
      ap (λ t. pre ++ t) (e ∙ sym (append_assoc front tag rest))
      ∙ sym (append_assoc pre (front ++ tag) rest)

  module _ (fuel : ℕ) (pre s : Text) (front rest : Text) (e : s ≡ front ++ (open_tag ++ rest)) where
    -- The place behind the tag.
    length-behind : length (pre ++ (front ++ open_tag)) ≡ length pre + length front + 5
    length-behind =
        omega (arith, length-append pre (front ++ open_tag), length-append front open_tag)

    abbrev behind : Text
    behind = pre ++ (front ++ open_tag)

    found_open :
        position open_tag s ≡ some (length front)
        → (v : V)
        → elua_loop exec (suc fuel) (pre ++ s) (length pre) v
          ≡ write_html front (
              after_close fuel
                (behind ++ rest)
                (length behind)
                v
                (moved (length behind) (position close_tag rest)))
    found_open h v =
        loop_round fuel (pre ++ s) (length pre) v
        ∙ ap (after_open fuel (pre ++ s) (length pre) v)
            (find-append pre s open_tag ∙ ap (moved (length pre)) h)
        ∙ ap₂ write_html
            (ap (λ t. slice (pre ++ t) (length pre) (length pre + length front)) e
              ∙ slice-append pre front (open_tag ++ rest) (length pre + length front) refl)
            (ap (λ k. after_close fuel (pre ++ s) k v (find (pre ++ s) close_tag k))
                (sym length-behind)
              ∙ ap (λ t. after_close fuel t (length behind) v (find t close_tag (length behind)))
                  (regroup pre front open_tag rest s e)
              ∙ ap (after_close fuel (behind ++ rest) (length behind) v)
                  (find-append behind rest close_tag))

    Paged-unterminated :
        position open_tag s ≡ some (length front)
        → EndsFirst open_tag front
        → position close_tag rest ≡ none
        → Paged (suc fuel) pre s
    unfolding Paged
    Paged-unterminated h f c = (
      unterminated front rest,
      (f, c),
      sym e,
      λ v.
          found_open h v
          ∙ ap (λ o. write_html front (after_close fuel (behind ++ rest) (length behind) v o))
              (ap (moved (length behind)) c)
          ∙ ap (λ t. write_html front (and_run (exec v t) (λ u. fails RuntimeError.other)))
              (drop-length_append behind rest),
    )

    module _ (chunk more : Text) (d : rest ≡ chunk ++ (close_tag ++ more)) where
      abbrev beyond : Text
      beyond = behind ++ (chunk ++ close_tag)

      length-beyond : length beyond ≡ length behind + length chunk + 6
      length-beyond =
          omega (arith, length-append behind (chunk ++ close_tag), length-append chunk close_tag)

      Paged-piece :
          position open_tag s ≡ some (length front)
          → EndsFirst open_tag front
          → position close_tag rest ≡ some (length chunk)
          → EndsFirst close_tag chunk
          → Paged fuel beyond more
          → Paged (suc fuel) pre s
      unfolding Paged
      Paged-piece h f c g (p, k, t, run) = (
        piece front chunk p,
        (f, g, k),
        ap (λ x. front ++ (open_tag ++ (chunk ++ (close_tag ++ x)))) t
            ∙ ap (λ x. front ++ (open_tag ++ x)) (sym d)
            ∙ sym e,
        λ v.
            found_open h v
            ∙ ap (λ o. write_html front (after_close fuel (behind ++ rest) (length behind) v o))
                (ap (moved (length behind)) c)
            ∙ ap (write_html front) (
                ap₂ and_run
                  (ap (exec v) (
                    ap (λ x. slice (behind ++ x) (length behind) (length behind + length chunk)) d
                    ∙ slice-append behind chunk (close_tag ++ more) (length behind + length chunk)
                        refl))
                  (fun_ext (λ u.
                    ap (λ k. elua_loop exec fuel (behind ++ rest) k u) (sym length-beyond)
                    ∙ ap (λ x. elua_loop exec fuel x (length beyond) u)
                        (regroup behind chunk close_tag more rest d)
                    ∙ run u))),
      )

  -- The rest of the code gets shorter with each round.
  shorter :
      (front chunk rest more s : Text)
      → s ≡ front ++ (open_tag ++ rest)
      → rest ≡ chunk ++ (close_tag ++ more)
      → length more < length s
  shorter front chunk rest more s e d = omega (
    arith,
    ap length e,
    ap length d,
    length-append front (open_tag ++ rest),
    length-append open_tag rest,
    length-append chunk (close_tag ++ more),
    length-append close_tag more,
  )

  paged : (fuel : ℕ) (pre s : Text) → length s < fuel → Paged fuel pre s
  paged zero pre s l = absurd (omega arith)
  paged (suc fuel) pre s l = elim (Option-cases (position open_tag s)) [
    | inl none_open ↦ Paged-tail fuel pre s none_open
    | inr (i, open_at) ↦
        let (front, rest, e, at_front, f) = position-Split b'<' _ s i open_at in
        let h : position open_tag s ≡ some (length front) = open_at ∙ ap some (sym at_front) in
        elim (Option-cases (position close_tag rest)) [
          | inl none_close ↦ Paged-unterminated fuel pre s front rest e h f none_close
          | inr (j, close_at) ↦
              let (chunk, more, d, at_chunk, g) = position-Split b'<' _ rest j close_at in
              Paged-piece fuel pre s front rest e chunk more d h f
                (close_at ∙ ap some (sym at_chunk)) g
                (paged fuel (beyond fuel pre s front rest e chunk more d) more
                  (omega (arith, shorter front chunk rest more s e d)))
        ]
  ]

  -- Every code is the text of a page, and runs as that page: the fuel of the loop is enough.
  pub run_elua-page_script :
      (code : Text)
      → (p : Page) × IsPage p
        × (page_text p ≡ code)
        × ((v : V) → run_elua exec code v ≡ page_script p v)
  unfolding run_elua Paged
  run_elua-page_script code = paged (suc (length code)) [] code (omega arith)
