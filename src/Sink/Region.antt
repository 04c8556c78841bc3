-- ===== src/Sink/Region.antt =====
-- The region of a file that is streamed.
use sipi.Common.{
  take-length_append, true, ℕ, zero, suc, ◌+◌, ◌-◌, ◌≤◌, ◌<◌, List, [], ◌∷◌, ◌++◌, some, Text, ◌≡◌,
  ◌≢◌, ◌⊎◌, refl, ap, ◌∙◌, sym, arith, length, take, drop, All, min, inl, inr, Bool-cases, ltb,
  append_assoc, length-append,
}
use sipi.Sink.{
  Files, World, Round, got, interrupted, failed, Sent, stop, then_send, file_chunk, region_loop,
  stream_file_region,
}

abbrev pub concat : List Text → Text
concat [] = []
concat (t ∷ ts) = t ++ concat ts

length-take : (n : ℕ) (xs : Text) → n ≤ length xs → length (take n xs) ≡ n
length-take zero xs h = refl
length-take (suc n) [] h = elim h [ ]
length-take (suc n) (x ∷ xs) h = ap suc (length-take n xs (omega arith))

take-drop : (n : ℕ) (xs : Text) → xs ≡ take n xs ++ drop n xs
take-drop zero xs = refl
take-drop (suc n) [] = refl
take-drop (suc n) (x ∷ xs) = ap (◌∷◌ x) (take-drop n xs)

pub ℕ-cases : (n : ℕ) → (n ≡ 0) ⊎ ((m : ℕ) × (n ≡ suc m))
ℕ-cases zero = inl refl
ℕ-cases (suc m) = inr (m, refl)

-- What a run of the loop on the bytes from the cursor on has sent: a prefix of them, no longer than
-- what was asked for, in chunks that are not empty and not above 64 KiB; all that was asked for where
-- the code is 0.
pub record Streams (rest : Text) (r : ℕ) (out : Sent) : Type 0 where
  pub left : Text
  pub prefix : rest ≡ concat out.chunks ++ left
  pub bounded : length (concat out.chunks) ≤ r
  pub pieces : All (λ c. (0 < length c) × (length c ≤ file_chunk)) out.chunks
  pub full : out.code ≡ 0 → length (concat out.chunks) ≡ r

cut : (rest : Text) (r : ℕ) (rounds : List Round) (p : ℕ) → Streams rest r (stop 1 rounds p)
cut rest r rounds p = record {
  left = rest;
  prefix = refl;
  bounded = omega arith;
  pieces = tt;
  full = λ e. absurd (cc);
}

-- A chunk, and the rest of the run.
more :
    (n r : ℕ) (rest : Text) (out : Sent)
    → 0 < n
    → n ≤ file_chunk
    → n ≤ r
    → n ≤ length rest
    → Streams (drop n rest) (r - n) out
    → Streams rest r (then_send (take n rest) out)
more n r rest out h₀ h₁ h₂ h₃ s =
    let e = length-take n rest h₃ in
    let f = length-append (take n rest) (concat out.chunks) in
    record {
      left = s.left;
      prefix =
          take-drop n rest
          ∙ ap (λ (t : Text). take n rest ++ t) s.prefix
          ∙ sym (append_assoc (take n rest) (concat out.chunks) s.left);
      bounded = let b = s.bounded in omega arith;
      pieces = ((omega arith, omega arith), s.pieces);
      full = λ c. let g = s.full c in omega arith;
    }

region_loop-Streams :
    (rounds : List Round) (p : ℕ) (rest : Text) (r : ℕ)
    → Streams rest r (region_loop rounds p rest r)
unfolding region_loop
region_loop-Streams rounds p rest zero = record {
  left = rest;
  prefix = refl;
  bounded = omega arith;
  pieces = tt;
  full = λ e. refl;
}
region_loop-Streams [] p rest (suc r) = cut rest (suc r) [] p
region_loop-Streams (failed ∷ rounds) p rest (suc r) = cut rest (suc r) rounds p
region_loop-Streams (interrupted ∷ rounds) p rest (suc r) =
    region_loop-Streams rounds p rest (suc r)
region_loop-Streams (got k ∷ rounds) p rest (suc r) =
    elim (ℕ-cases (min (min (suc k) (min (suc r) file_chunk)) (length rest))) [
      | inl e ↦ rw (region_loop, e) (cut rest (suc r) rounds p)
      | inr (n, e) ↦ elim (ℕ-cases p) [
        | inl f ↦ rw (region_loop, e, f) (cut rest (suc r) rounds zero)
        | inr (q, f) ↦
            rw (region_loop, e, f)
              (more (suc n) (suc r) rest (region_loop rounds q (drop (suc n) rest) (suc r - suc n))
                (omega arith) (omega arith) (omega arith) (omega arith)
                (region_loop-Streams rounds q (drop (suc n) rest) (suc r - suc n)))
      ]
    ]

length-drop : (n : ℕ) (xs : Text) → n ≤ length xs → length (drop n xs) + n ≡ length xs
length-drop zero xs h = omega arith
length-drop (suc n) [] h = elim h [ ]
length-drop (suc n) (x ∷ xs) h = let e = length-drop n xs (omega arith) in omega arith

-- How many of the reads get something, where none fails.
abbrev pub reads : List Round → ℕ
reads [] = 0
reads (got k ∷ rounds) = suc (reads rounds)
reads (interrupted ∷ rounds) = reads rounds
reads (failed ∷ rounds) = reads rounds

region_loop-done :
    (rounds : List Round) (p : ℕ) (rest : Text) (r : ℕ)
    → All (λ x. x ≢ failed) rounds
    → r ≤ length rest
    → r ≤ reads rounds
    → r ≤ p
    → (region_loop rounds p rest r).code ≡ 0
unfolding region_loop
region_loop-done rounds p rest zero ok h₀ h₁ h₂ = refl
region_loop-done [] p rest (suc r) ok h₀ h₁ h₂ = absurd (omega arith)
region_loop-done (failed ∷ rounds) p rest (suc r) ok h₀ h₁ h₂ = absurd (ok.0 refl)
region_loop-done (interrupted ∷ rounds) p rest (suc r) ok h₀ h₁ h₂ =
    region_loop-done rounds p rest (suc r) ok.1 h₀ h₁ h₂
region_loop-done (got k ∷ rounds) p rest (suc r) ok h₀ h₁ h₂ =
    elim (ℕ-cases (min (min (suc k) (min (suc r) file_chunk)) (length rest))) [
      | inl e ↦ absurd (omega arith)
      | inr (n, e) ↦ elim (ℕ-cases p) [
        | inl f ↦ absurd (omega arith)
        | inr (q, f) ↦
            let d = length-drop (suc n) rest (omega arith) in
            rw (region_loop, e, f)
              (region_loop-done rounds q (drop (suc n) rest) (suc r - suc n) ok.1 (omega arith)
                (omega arith) (omega arith))
      ]
    ]

-- What is sent of a file that opens: the bytes from the offset on up to what was asked for, or a prefix
-- of them, in chunks that are not empty and not above 64 KiB; and where the code is 0, all of them.
pub stream_file_region-Streams :
    (files : Files) (world : World) (path : Text) (offset len : ℕ) (bytes : Text)
    → files.opened path ≡ some bytes
    → Streams (drop offset bytes) len (stream_file_region files world path offset len)
unfolding stream_file_region
stream_file_region-Streams files world path offset len bytes h = elim (Bool-cases (ltb 0 offset)) [
  | inl e ↦ elim (Bool-cases (files.seek path offset)) [
    | inl f ↦
        rw (stream_file_region, h, e, f)
          (region_loop-Streams world.rounds world.patience (drop offset bytes) len)
    | inr f ↦
        rw (stream_file_region, h, e, f) (cut (drop offset bytes) len world.rounds world.patience)
  ]
  | inr e ↦
      let z : offset ≡ 0 = ground arith in
      rw (stream_file_region, h, e, z) (region_loop-Streams world.rounds world.patience bytes len)
]

Streams-take :
    (rest : Text) (r : ℕ) (out : Sent)
    → Streams rest r out
    → out.code ≡ 0
    → concat out.chunks ≡ take r rest
Streams-take rest r out s c =
    sym (take-length_append (concat out.chunks) s.left)
    ∙ ap (take (length (concat out.chunks))) (sym s.prefix)
    ∙ ap (λ n. take n rest) (s.full c)

region-done :
    (files : Files) (world : World) (path : Text) (offset len : ℕ) (bytes : Text)
    → files.opened path ≡ some bytes
    → files.seek path offset ≡ true
    → offset + len ≤ length bytes
    → All (λ x. x ≢ failed) world.rounds
    → len ≤ reads world.rounds
    → len ≤ world.patience
    → (stream_file_region files world path offset len).code ≡ 0
unfolding stream_file_region
region-done files world path offset len bytes h s b ok r p =
    let d = length-drop offset bytes (omega arith) in
    let done =
      region_loop-done world.rounds world.patience (drop offset bytes) len ok (omega arith) r p in
    elim (Bool-cases (ltb 0 offset)) [
      | inl e ↦ rw (stream_file_region, h, e, s) done
      | inr e ↦ let z : offset ≡ 0 = ground arith in rw (stream_file_region, h, e) (rw z at done)
    ]

-- A region within a file that opens and seeks is sent to its last byte, with the code 0, if the client
-- stays and no read fails, however often the reads are interrupted and however little each of them gets.
pub stream_file_region-done :
    (files : Files) (world : World) (path : Text) (offset len : ℕ) (bytes : Text)
    → files.opened path ≡ some bytes
    → files.seek path offset ≡ true
    → offset + len ≤ length bytes
    → All (λ x. x ≢ failed) world.rounds
    → len ≤ reads world.rounds
    → len ≤ world.patience
    → ((stream_file_region files world path offset len).code ≡ 0)
      × (concat (stream_file_region files world path offset len).chunks
          ≡ take len (drop offset bytes))
stream_file_region-done files world path offset len bytes h s b ok r p =
    let done = region-done files world path offset len bytes h s b ok r p in
    (
      done,
      Streams-take (drop offset bytes) len (stream_file_region files world path offset len)
          (stream_file_region-Streams files world path offset len bytes h) done,
    )
