-- ===== src/Turn/Speech.antt =====
-- internal/interview/observer/tts_accumulator.go: OnToken, which cuts the reply into sentences for
-- the speech synthesiser. A text is the list of its bytes; whether the channel takes a sentence is
-- up to the goroutine that reads it, so the answers of the `select` are a parameter.
use sabermatic_dev.Prelude.{
  ℕ, zero, suc, ◌+◌, ◌&&◌, ◌==◌, ltb, if◌then◌else◌, List, [], ◌∷◌, ◌++◌, Option, some, none,
  length, drop,
}

unfoldable pub take : ℕ → List ℕ → List ℕ
take zero s = []
take (suc n) [] = []
take (suc n) (c ∷ s) = c ∷ take n s

-- ". ", "? ", "! ", ".\n", "?\n", "!\n"
abbrev pub sentence_boundaries : List (ℕ × ℕ)
sentence_boundaries = (46, 32) ∷ (63, 32) ∷ (33, 32) ∷ (46, 10) ∷ (63, 10) ∷ (33, 10) ∷ []

abbrev pub next_place : Option ℕ → Option ℕ
next_place none = none
next_place (some i) = some (suc i)

-- strings.Index for a boundary of two bytes.
unfoldable pub index : List ℕ → ℕ × ℕ → Option ℕ
index [] b = none
index (c ∷ []) b = none
index (c ∷ d ∷ s) b =
    let rest = index (d ∷ s) b in if c == b.0 && d == b.1 then some 0 else next_place rest

-- `idx == -1 || i < idx`
abbrev pub earlier : Option ℕ → Option ℕ → Option ℕ
earlier none found = found
earlier (some i) none = some i
earlier (some i) (some j) = if ltb j i then some j else some i

unfoldable pub first_index : List ℕ → List (ℕ × ℕ) → Option ℕ → Option ℕ
unfolding index
first_index s [] idx = idx
first_index s (b ∷ bs) idx = first_index s bs (earlier idx (index s b))

-- What the `select` does with a sentence: the channel takes it, the context is done, or the
-- sentence is dropped and the sink is told.
pub data Offered : Type 0 where
  sent context_done dropped : Offered

abbrev pub Cut : Type 0
Cut = List (List ℕ × Offered) × List ℕ

abbrev pub with_sentence : List ℕ → Offered → Option Cut → Option Cut
with_sentence sentence o none = none
with_sentence sentence o (some (done, rest)) = some ((sentence, o) ∷ done, rest)

module _ (offers : ℕ → Offered) where
  -- After the `select`: the loop ends if the context is done.
  unfoldable pub after_offer : List ℕ → List ℕ → Offered → Option Cut → Option Cut
  after_offer sentence rest context_done later = some ((sentence, context_done) ∷ [], rest)
  after_offer sentence rest sent later = with_sentence sentence sent later
  after_offer sentence rest dropped later = with_sentence sentence dropped later

  -- The loop, on fuel: the sentences in order, with what became of each, and the new buffer.
  unfoldable pub cut : ℕ → ℕ → List ℕ → Option Cut
  unfolding take first_index after_offer
  cut zero n s = none
  cut (suc fuel) n s = elim (first_index s sentence_boundaries none) [
    | none ↦ some ([], s)
    | some idx ↦
        after_offer (take (idx + 2) s) (drop (idx + 2) s) (offers n)
          (cut fuel (suc n) (drop (idx + 2) s))
  ]

  -- Each sentence takes a byte at least, so a turn of the loop for each byte is enough.
  unfoldable pub on_token_text : List ℕ → List ℕ → Option Cut
  unfolding cut
  on_token_text buf token = cut (suc (length (buf ++ token))) 0 (buf ++ token)
