-- ===== src/Store/Educators.antt =====
-- internal/db/educator_analyses.sql.go, and IncrementFreeEducatorUsed of users.sql.go.
use sabermatic_dev.Prelude.{
  ℕ, suc, ◌+◌, Bool, ◌&&◌, List, [], ◌∷◌, ◌++◌, map, Option, none, some, String, ltb, ◌==◌,
  if◌then◌else◌, select,
}
use sabermatic_dev.Store.Rows.{
  Db, User, EducatorAnalysis, AnalysisStatus, analysis_generating, analysis_completed,
}

unfoldable pub find_educator : ℕ → List EducatorAnalysis → Option EducatorAnalysis
find_educator session [] = none
find_educator session (a ∷ rest) =
    if a.session == session then some a else find_educator session rest

unfoldable pub get_educator_analysis_by_session : ℕ → Db → Option EducatorAnalysis
unfolding find_educator
get_educator_analysis_by_session session db = find_educator session db.educator_analyses

-- session_id is UNIQUE: `none` if the session has a row.
unfoldable pub insert_educator_analysis : ℕ → Db → Option (Db × ℕ)
unfolding get_educator_analysis_by_session
insert_educator_analysis session db = elim (get_educator_analysis_by_session session db) [
  | some a ↦ none
  | none ↦ some (
    record db {
      educator_analyses =
          db.educator_analyses
          ++ (record {
            id = db.next_id;
            session = session;
            status = analysis_generating;
            model_answer = none;
            gap_deep_dives = none;
            created_at = db.now;
          })
            ∷ [];
      next_id = suc db.next_id;
    },
    db.next_id,
  )
]

unfoldable pub update_educators : ℕ → (EducatorAnalysis → EducatorAnalysis) → Db → Db
update_educators id change db = record db {
  educator_analyses =
      map (λ (a : EducatorAnalysis). if a.id == id then change a else a) db.educator_analyses;
}

unfoldable pub update_educator_analysis_content : ℕ → String → String → Db → Db
unfolding update_educators
update_educator_analysis_content id answer dives db =
    update_educators id
      (λ a. record a {
        model_answer = some answer;
        gap_deep_dives = some dives;
        status = analysis_completed;
      })
      db

unfoldable pub update_educator_analysis_status : ℕ → AnalysisStatus → Db → Db
unfolding update_educators
update_educator_analysis_status id status db =
    update_educators id (λ a. record a { status = status }) db

-- `id = $1 AND free_full_educators_used < $2`
unfoldable pub has_taste_left : ℕ → ℕ → User → Bool
has_taste_left id limit u = u.id == id && ltb u.free_full_educators_used limit

unfoldable pub first_or_none : List User → Db → Option Db
first_or_none [] db = none
first_or_none (u ∷ us) db = some db

-- RETURNING: no row if none was updated.
unfoldable pub increment_free_educator_used : ℕ → ℕ → Db → Option Db
unfolding has_taste_left first_or_none
increment_free_educator_used id limit db =
    first_or_none (select (has_taste_left id limit) db.users) (record db {
      users =
          map
            (λ (u : User).
              if has_taste_left id limit u
              then record u { free_full_educators_used = u.free_full_educators_used + 1 }
              else u)
            db.users;
    })
