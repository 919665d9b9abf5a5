-- ===== src/Coach/Stored.antt =====
-- What a job of the coach that succeeds has stored, and which analysis is then the latest.
use sabermatic_dev.Prelude.{
  ℕ, ◌<◌, ◌≡◌, refl, sym, ap, ◌∙◌, inl, inr, Bool, true, ◌&&◌, ◌||◌, List, [], ◌∷◌, ◌++◌, Option,
  none, some, String, str_eq, ◌==◌, arith, All, Bool-cases, Option-cases, some_inj, eq_iff,
}
use sabermatic_dev.Store.Rows.{Db, CoachAnalysis}
use sabermatic_dev.Store.Coaches.{insert_coach_analysis, insert_question, latest_of, later_analysis}
use sabermatic_dev.Store.Grants.Create.{has_user}
use sabermatic_dev.Session.Errors.{ok, ok_inj, Result-cases}
use sabermatic_dev.Evaluation.Coach.{GeneratedQuestion, CoachResult, parse_analysis}
use sabermatic_dev.Coach.{
  CoachEnv, text_or_empty, null_if_empty, uuid_slices_equal, of_analysis, suggest, rationale,
  coach_row, analyse,
}

pub uuid_slices_equal_refl : (ids : List ℕ) → uuid_slices_equal ids ids ≡ true
unfolding uuid_slices_equal
uuid_slices_equal_refl [] = refl
uuid_slices_equal_refl (a ∷ rest) = ground (arith, uuid_slices_equal_refl rest)

pub uuid_slices_equal-same : (xs ys : List ℕ) → uuid_slices_equal xs ys ≡ true → xs ≡ ys
unfolding uuid_slices_equal
uuid_slices_equal-same [] [] h = refl
uuid_slices_equal-same [] (y ∷ ys) h = absurd (ground arith)
uuid_slices_equal-same (x ∷ xs) [] h = absurd (ground arith)
uuid_slices_equal-same (x ∷ xs) (y ∷ ys) h =
    let same : x ≡ y = ground (arith, h) in
    let rest : uuid_slices_equal xs ys ≡ true = ground (arith, h) in
    rw (same, uuid_slices_equal-same xs ys rest) refl

-- A row that is newer than all others is the latest.
pub latest_of-newest :
    (user : ℕ) (row : CoachAnalysis) (rows : List CoachAnalysis)
    → row.user ≡ user
    → All (λ (a : CoachAnalysis). a.created_at < row.created_at) rows
    → latest_of user (rows ++ row ∷ []) ≡ some row
unfolding latest_of later_analysis
latest_of-newest user row [] own older = ground (arith, own)
latest_of-newest user row (a ∷ rest) own (older, all_older) =
    rw (latest_of-newest user row rest own all_older, latest_of)
      (elim (Bool-cases (a.user == user)) [
        | inl his ↦ rw (his, later_analysis) (ground (arith, older))
        | inr other ↦ rw (other, later_analysis) refl
      ])

pub text_of_nullable : (s : String) → text_or_empty (null_if_empty s) ≡ s
unfolding text_or_empty null_if_empty
text_of_nullable s = elim (Bool-cases (str_eq s "")) [
  | inl empty ↦ rw (empty, null_if_empty) (ground (arith, eq_iff s ""))
  | inr full ↦ rw (full, null_if_empty) refl
]

insert_question-keeps :
    (user : ℕ) (difficulty : String) (is_text : Bool) (db : Db) (v : Db × ℕ)
    → insert_question user difficulty is_text db ≡ some v
    → (v.0.coach_analyses ≡ db.coach_analyses) × (v.0.now ≡ db.now)
unfolding insert_question
insert_question-keeps user difficulty is_text db v =
    elim (Bool-cases (
      has_user user db.users
      && ((str_eq difficulty "medium" || str_eq difficulty "hard") && is_text))) [
        | inr denied ↦ rw (denied, insert_question) (λ h. absurd (ground arith))
        | inl fine ↦
            rw (fine, insert_question)
              (λ h.
                let e = sym (some_inj h) in
                (ap (λ (w : Db × ℕ). w.0.coach_analyses) e, ap (λ (w : Db × ℕ). w.0.now) e))
      ]

-- The suggested question leaves the analyses and the clock.
suggest-keeps :
    (env : CoachEnv) (user : ℕ) (result : CoachResult) (q : Option GeneratedQuestion) (db : Db)
    (asked : Db × Option ℕ)
    → suggest env user result q db ≡ ok asked
    → (asked.0.coach_analyses ≡ db.coach_analyses) × (asked.0.now ≡ db.now)
unfolding suggest
suggest-keeps env user result none db asked = λ h.
    let e = sym (ok_inj h) in
    (ap (λ (v : Db × Option ℕ). v.0.coach_analyses) e, ap (λ (v : Db × Option ℕ). v.0.now) e)
suggest-keeps env user result (some gq) db asked =
    elim (Option-cases (
      insert_question user gq.difficulty (env.is_utf8 (rationale (env.bytes result.narrative)))
        db)) [
          | inl denied ↦ rw (denied, suggest) (λ h. absurd (ground arith))
          | inr (v, made) ↦
              rw (made, suggest)
                (λ h.
                  let e = sym (ok_inj h) in
                  let kept = insert_question-keeps user gq.difficulty _ db v made in
                  (
                    ap (λ (w : Db × Option ℕ). w.0.coach_analyses) e ∙ kept.0,
                    ap (λ (w : Db × Option ℕ). w.0.now) e ∙ kept.1,
                  ))
        ]

-- What the transaction of a job that succeeds has stored.
pub record IsStored (env : CoachEnv) (user : ℕ) (ids : List ℕ) (reply : Option String) (db db' : Db)
    : Type 0 where
  pub raw : String
  pub result : CoachResult
  pub question : Option ℕ
  pub asked : Db
  pub replied : reply ≡ some raw
  pub accepted : of_analysis (parse_analysis env.unmarshal raw) ≡ ok result
  pub same_rows : asked.coach_analyses ≡ db.coach_analyses
  pub same_now : asked.now ≡ db.now
  pub stored :
      db'.coach_analyses ≡ asked.coach_analyses ++ coach_row env user result question ids asked ∷ []

insert_coach_analysis-stored :
    (env : CoachEnv) (user : ℕ) (result : CoachResult) (question : Option ℕ) (ids : List ℕ) (d : Db)
    (v : Db × ℕ)
    → insert_coach_analysis (coach_row env user result question ids d) d ≡ some v
    → v.0.coach_analyses ≡ d.coach_analyses ++ coach_row env user result question ids d ∷ []
unfolding insert_coach_analysis coach_row
insert_coach_analysis-stored env user result question ids d v =
    elim (Bool-cases (has_user user d.users)) [
      | inr nobody ↦ rw (nobody, insert_coach_analysis) (λ h. absurd (ground arith))
      | inl there ↦
          rw (there, insert_coach_analysis)
            (λ h. ap (λ (w : Db × ℕ). w.0.coach_analyses) (sym (some_inj h)))
    ]

pub analyse-IsStored :
    (env : CoachEnv) (user : ℕ) (ids : List ℕ) (reply : Option String) (db : Db) (v : Unit {0} × Db)
    → analyse env user ids reply db ≡ ok v
    → IsStored env user ids reply db v.1
unfolding analyse
analyse-IsStored env user ids none db v = λ h. absurd (ground arith)
analyse-IsStored env user ids (some raw) db v =
    elim (Result-cases (of_analysis (parse_analysis env.unmarshal raw))) [
      | inl (e, denied) ↦ rw (denied, analyse) (λ h. absurd (ground arith))
      | inr (result, accepted) ↦
          elim (Result-cases (suggest env user result result.generated_question db)) [
            | inl (e, failed) ↦ rw (accepted, failed, analyse) (λ h. absurd (ground arith))
            | inr (asked, suggested) ↦
                elim (Option-cases
                  (insert_coach_analysis (coach_row env user result asked.1 ids asked.0) asked.0)) [
                    | inl denied ↦
                        rw (accepted, suggested, denied, analyse) (λ h. absurd (ground arith))
                    | inr (stored, made) ↦
                        rw (accepted, suggested, made, analyse)
                          (λ h.
                            let kept =
                              suggest-keeps env user result result.generated_question db asked
                                suggested in
                            record {
                              raw = raw;
                              result = result;
                              question = asked.1;
                              asked = asked.0;
                              replied = refl;
                              accepted = accepted;
                              same_rows = kept.0;
                              same_now = kept.1;
                              stored =
                                  ap (λ (w : Unit {0} × Db). w.1.coach_analyses) (sym (ok_inj h))
                                  ∙ insert_coach_analysis-stored env user result asked.1 ids asked.0
                                      stored made;
                            })
                  ]
          ]
    ]
