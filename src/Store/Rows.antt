-- ===== src/Store/Rows.antt =====
-- internal/db/models.go: the rows. A text column with a CHECK list is a data type.
use sabermatic_dev.Prelude.{ℕ, Bool, Option, List, String}
use sabermatic_dev.Prelude.Int.{ℤ}
use sabermatic_dev.Evaluation.Parse.{Scores}

pub data Source : Type 0 where
  free_grant subscription purchase admin : Source

pub record Grant : Type 0 where
  pub id : ℕ
  pub user : ℕ
  pub source : Source
  pub stripe_event : Option String
  pub initial_minutes : ℕ
  pub remaining_minutes : ℕ
  pub expires_at : Option ℕ
  pub created_at : ℕ

pub data Reason : Type 0 where
  free_trial subscription_renewal purchased admin_grant session_reserve session_refund : Reason
  error_refund : Reason

pub record LedgerEntry : Type 0 where
  pub user : ℕ
  pub grant : ℕ
  pub amount : ℤ
  pub reason : Reason
  pub session : Option ℕ
  pub created_at : ℕ

pub data Status : Type 0 where
  active generating completed evaluating reviewed evaluation_failed failed cancelled : Status

pub record InterviewSession : Type 0 where
  pub id : ℕ
  pub user : ℕ
  pub question : ℕ
  pub status : Status
  pub config_duration_minutes : ℕ
  pub config_tts_enabled : Bool
  pub started_at : ℕ
  pub ended_at : Option ℕ
  pub turn_count : ℕ
  pub reserved_minutes : Option ℕ
  pub archived_at : Option ℕ
  pub generating_since : Option ℕ
  pub created_at : ℕ

pub data Role : Type 0 where
  interviewer candidate : Role

pub record Message : Type 0 where
  pub id : ℕ
  pub session : ℕ
  pub seq : ℕ
  pub role : Role
  pub content : String
  pub input_method : Option String

pub record User : Type 0 where
  pub id : ℕ
  pub email : String
  pub email_verified : Bool
  pub password_hash : Option String
  pub display_name : String
  pub stripe_customer : Option String
  pub plan : String
  pub deleted_at : Option ℕ
  pub free_full_educators_used : ℕ

pub data AnalysisStatus : Type 0 where
  analysis_generating analysis_completed analysis_failed : AnalysisStatus

pub record EducatorAnalysis : Type 0 where
  pub id : ℕ
  pub session : ℕ
  pub status : AnalysisStatus
  pub model_answer : Option String
  pub gap_deep_dives : Option String
  pub created_at : ℕ

-- An array column is the list of its elements, `none` for NULL.
pub record CoachAnalysis : Type 0 where
  pub id : ℕ
  pub user : ℕ
  pub narrative : String
  pub weakest_dimension : Option String
  pub improving_dimensions : Option (List String)
  pub topic_gaps : Option (List String)
  pub suggested_question : Option ℕ
  pub sessions_analyzed : List ℕ
  pub created_at : ℕ
  pub summary : Option String

pub record AuthSession : Type 0 where
  pub id : ℕ
  pub user : ℕ
  pub token_hash : String
  pub expires_at : ℕ
  pub last_active : ℕ
  pub ip_address : Option String
  pub user_agent : Option String
  pub created_at : ℕ

pub record OauthAccount : Type 0 where
  pub id : ℕ
  pub user : ℕ
  pub provider : String
  pub provider_id : String

-- The lists are JSON texts in the row.
pub record EvaluationRow : Type 0 where
  pub id : ℕ
  pub session : ℕ
  pub scores : Scores ℤ
  pub strengths : String
  pub gaps : String
  pub advice : String
  pub created_at : ℕ

pub record AnnotationRow : Type 0 where
  pub id : ℕ
  pub evaluation : ℕ
  pub message : ℕ
  pub kind : String
  pub content : String

-- jobs.SendEmailArgs: the texts, which are put together, are lists of bytes.
pub record Email : Type 0 where
  pub to : String
  pub subject : String
  pub text : List ℕ
  pub html : List ℕ

-- The rows of the job table that the backend inserts, by their kinds.
pub data Job : Type 0 where
  evaluate_session : ℕ → Job
  send_email : Email → Job
  educator_analysis : ℕ → Job
  run_coach_analysis : ℕ → Job
  generate_question_image : ℕ → Job

pub record Db : Type 0 where
  pub users : List User
  pub grants : List Grant
  pub entries : List LedgerEntry
  pub sessions : List InterviewSession
  pub messages : List Message
  pub questions : List ℕ
  pub auth_sessions : List AuthSession
  pub oauth_accounts : List OauthAccount
  pub evaluations : List EvaluationRow
  pub annotations : List AnnotationRow
  pub educator_analyses : List EducatorAnalysis
  pub coach_analyses : List CoachAnalysis
  pub jobs : List Job
  pub next_id : ℕ
  pub now : ℕ
