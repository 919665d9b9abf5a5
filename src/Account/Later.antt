-- ===== src/Account/Later.antt =====
-- The methods on accounts as operations that come in any order.
use sabermatic_dev.Prelude.{ℕ, ◌+◌, List, [], ◌∷◌, Option, String}
use sabermatic_dev.Store.Rows.{Db}
use sabermatic_dev.Store.Accounts
use sabermatic_dev.Store.Accounts.{update_user_display_name}
use sabermatic_dev.Account.{
  signup, login, logout, verify_email, forgot_password, reset_password, update_display_name,
}
use sabermatic_dev.Account.Params.{Env, SignupParams, LoginParams, OauthLoginParams}
use sabermatic_dev.Account.OauthLogin.{oauth_login}
use sabermatic_dev.Account.Linked.{IsLinked}
use sabermatic_dev.Account.Kept.{KeepsFound, oauth_login-KeepsFound}
use sabermatic_dev.Account.KeptAll.{
  signup-KeepsFound, login-KeepsFound, logout-KeepsFound, verify_email-KeepsFound,
  forgot_password-KeepsFound, reset_password-KeepsFound,
}

pub data AccountOp : Type 0 where
  signs_up : SignupParams → AccountOp
  logs_in : LoginParams → Option String → AccountOp
  logs_in_by : OauthLoginParams → Option String → AccountOp
  logs_out : String → AccountOp
  verifies : List ℕ → AccountOp
  forgets : String → AccountOp
  resets : List ℕ → String → AccountOp
  renames : ℕ → String → AccountOp
  deletes : ℕ → AccountOp
  waits : ℕ → AccountOp

module _ (env : Env) where
  -- The database that a method leaves, or the passing of time.
  unfoldable pub apply : AccountOp → Db → Db
  apply (signs_up p) db = (signup env p db).1
  apply (logs_in p random) db = (login env p random db).1
  apply (logs_in_by p random) db = (oauth_login env p random db).1
  apply (logs_out token) db = logout env token db
  apply (verifies token) db = (verify_email env token db).1
  apply (forgets email) db = (forgot_password env email db).1
  apply (resets token password) db = (reset_password env token password db).1
  apply (renames user name) db = (update_display_name user name db).1
  apply (deletes user) db = Accounts.delete_account user db
  apply (waits n) db = record db { now = db.now + n }

  unfoldable pub run : List AccountOp → Db → Db
  unfolding apply
  run [] db = db
  run (op ∷ ops) db = run ops (apply op db)

  apply-KeepsFound : (op : AccountOp) (db : Db) → KeepsFound db (apply op db)
  unfolding apply update_display_name update_user_display_name Accounts.delete_account
  apply-KeepsFound (signs_up p) db = signup-KeepsFound env p db
  apply-KeepsFound (logs_in p random) db = login-KeepsFound env p random db
  apply-KeepsFound (logs_in_by p random) db = oauth_login-KeepsFound env p random db
  apply-KeepsFound (logs_out token) db = logout-KeepsFound env token db
  apply-KeepsFound (verifies token) db = verify_email-KeepsFound env token db
  apply-KeepsFound (forgets email) db = forgot_password-KeepsFound env email db
  apply-KeepsFound (resets token password) db = reset_password-KeepsFound env token password db
  apply-KeepsFound (renames user name) db = λ q i a found. found
  apply-KeepsFound (deletes user) db = λ q i a found. found
  apply-KeepsFound (waits n) db = λ q i a found. found

  pub run-IsLinked :
      (ops : List AccountOp) (provider provider_id : String) (user : ℕ) (db : Db)
      → IsLinked provider provider_id user db
      → IsLinked provider provider_id user (run ops db)
  unfolding run
  run-IsLinked [] provider provider_id user db linked = linked
  run-IsLinked (op ∷ ops) provider provider_id user db (a, has, his) =
      run-IsLinked ops provider provider_id user (apply op db)
        (a, apply-KeepsFound op db provider provider_id a has, his)
