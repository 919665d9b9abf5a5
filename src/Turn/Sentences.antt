-- ===== src/Turn/Sentences.antt =====
-- The speech observer loses no byte of the reply, and keeps back only what is no whole sentence.
use mathlib.Core.List.{append_assoc, append-nil}
use sabermatic_dev.Prelude.{
  ℕ, zero, suc, ◌+◌, ◌≤◌, ◌<◌, ◌≡◌, refl, ap, ◌∙◌, ◌⊎◌, inl, inr, ◌&&◌, ◌==◌, ltb, arith, List, [],
  ◌∷◌, ◌++◌, Option, some, none, length, drop, Bool-cases, Option-cases,
}
use sabermatic_dev.Turn.Speech.{
  take, sentence_boundaries, next_place, index, earlier, first_index, Offered, sent, context_done,
  dropped, Cut, with_sentence, after_offer, cut, on_token_text,
}

take-drop : (n : ℕ) (s : List ℕ) → take n s ++ drop n s ≡ s
unfolding take
take-drop zero s = refl
take-drop (suc n) [] = refl
take-drop (suc n) (c ∷ s) = ap (λ r. c ∷ r) (take-drop n s)

length-drop-lt : (n : ℕ) (s : List ℕ) → 0 < n → n ≤ length s → length (drop n s) < length s
length-drop-lt zero s p h = absurd (omega arith)
length-drop-lt (suc n) [] p h = absurd (omega arith)
length-drop-lt (suc zero) (c ∷ s) p h = omega arith
length-drop-lt (suc (suc n)) (c ∷ s) p h =
    omega (arith, length-drop-lt (suc n) s (omega arith) (omega arith))

-- A place that is found has both bytes of the boundary behind it.
abbrev Fits : List ℕ → Option ℕ → Type 0
Fits s none = Unit {0}
Fits s (some i) = i + 2 ≤ length s

index-Fits : (s : List ℕ) (b : ℕ × ℕ) → Fits s (index s b)
unfolding index
index-Fits [] b = tt
index-Fits (c ∷ []) b = tt
index-Fits (c ∷ d ∷ s) b = elim (Bool-cases (c == b.0 && d == b.1)) [
  | inl here ↦ rw here (omega arith)
  | inr there ↦ rw there (next (index (d ∷ s) b) (index-Fits (d ∷ s) b))
]
  where
    next : (o : Option ℕ) → Fits (d ∷ s) o → Fits (c ∷ d ∷ s) (next_place o)
    next none f = tt
    next (some i) f = omega arith

earlier-Fits : (s : List ℕ) (a b : Option ℕ) → Fits s a → Fits s b → Fits s (earlier a b)
earlier-Fits s none b f g = g
earlier-Fits s (some i) none f g = f
earlier-Fits s (some i) (some j) f g = elim (Bool-cases (ltb j i)) [
  | inl before ↦ rw before g
  | inr behind ↦ rw behind f
]

first_index-Fits :
    (s : List ℕ) (bs : List (ℕ × ℕ)) (idx : Option ℕ) → Fits s idx → Fits s (first_index s bs idx)
unfolding first_index
first_index-Fits s [] idx f = f
first_index-Fits s (b ∷ bs) idx f =
    first_index-Fits s bs (earlier idx (index s b))
      (earlier-Fits s idx (index s b) f (index-Fits s b))

abbrev pub sentences_of : List (List ℕ × Offered) → List ℕ
sentences_of [] = []
sentences_of ((sentence, o) ∷ rest) = sentence ++ sentences_of rest

abbrev pub IsCancelled : List (List ℕ × Offered) → Type 0
IsCancelled [] = ⊥
IsCancelled ((sentence, context_done) ∷ rest) = Unit {0}
IsCancelled ((sentence, sent) ∷ rest) = IsCancelled rest
IsCancelled ((sentence, dropped) ∷ rest) = IsCancelled rest

-- The sentences and the buffer are the text; a boundary is left in the buffer only after the
-- context was done.
abbrev pub IsCut : List ℕ → Option Cut → Type 0
IsCut s none = ⊥
IsCut s (some (done, rest)) =
    (sentences_of done ++ rest ≡ s)
    × (IsCancelled done ⊎ (first_index rest sentence_boundaries none ≡ none))

with_sentence-IsCut :
    (n : ℕ) (s : List ℕ) (later : Option Cut)
    → IsCut (drop n s) later
    → IsCut s (with_sentence (take n s) sent later)
      × IsCut s (with_sentence (take n s) dropped later)
with_sentence-IsCut n s none c = elim c [ ]
with_sentence-IsCut n s (some (done, rest)) c =
    let whole =
      append_assoc (take n s) (sentences_of done) rest
      ∙ ap (λ r. take n s ++ r) c.0
      ∙ take-drop n s in
    ((whole, c.1), (whole, c.1))

module _ (offers : ℕ → Offered) where
  after_offer-IsCut :
      (n : ℕ) (s : List ℕ) (o : Offered) (later : Option Cut)
      → IsCut (drop n s) later
      → IsCut s (after_offer offers (take n s) (drop n s) o later)
  unfolding after_offer
  after_offer-IsCut n s context_done later c =
      (ap (λ r. r ++ drop n s) (append-nil (take n s)) ∙ take-drop n s, inl tt)
  after_offer-IsCut n s sent later c = (with_sentence-IsCut n s later c).0
  after_offer-IsCut n s dropped later c = (with_sentence-IsCut n s later c).1

  first_index-fits :
      (s : List ℕ) (idx : ℕ)
      → first_index s sentence_boundaries none ≡ some idx
      → idx + 2 ≤ length s
  first_index-fits s idx found = rw found at (first_index-Fits s sentence_boundaries none tt)

  cut-IsCut : (fuel n : ℕ) (s : List ℕ) → length s < fuel → IsCut s (cut offers fuel n s)
  unfolding cut
  cut-IsCut zero n s h = absurd (omega arith)
  cut-IsCut (suc fuel) n s h = elim (Option-cases (first_index s sentence_boundaries none)) [
    | inl no_boundary ↦ rw (cut, no_boundary) (refl, inr no_boundary)
    | inr (idx, found) ↦
        let fits = first_index-fits s idx found in
        let shorter = length-drop-lt (idx + 2) s (omega arith) fits in
        rw (cut, found)
          (after_offer-IsCut (idx + 2) s (offers n) (cut offers fuel (suc n) (drop (idx + 2) s))
            (cut-IsCut fuel (suc n) (drop (idx + 2) s) (omega arith)))
  ]

  -- For every token the loop ends; the sentences that it has cut and the new buffer, put together,
  -- are the old buffer and the token; and the new buffer has no sentence boundary, unless the
  -- context was done.
  pub on_token_text-IsCut :
      (buf token : List ℕ) → IsCut (buf ++ token) (on_token_text offers buf token)
  unfolding on_token_text
  on_token_text-IsCut buf token =
      cut-IsCut (suc (length (buf ++ token))) 0 (buf ++ token) (omega arith)
