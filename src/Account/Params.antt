-- ===== src/Account/Params.antt =====
-- What the account methods are given: their parameters, the configuration, and the functions of
-- other libraries that they call.
use sabermatic_dev.Prelude.{
  ℕ, ◌+◌, ◌||◌, Bool, List, [], ◌∷◌, Option, none, some, String, str_eq, ltb, if◌then◌else◌,
}
use sabermatic_dev.Store.Rows.{Job}
use sabermatic_dev.Webhook.Atoi.{codes}
use sabermatic_dev.Account.Token.{Coding}
use sabermatic_dev.Session.Errors.{Result, ok, err, password_length}

pub record SignupParams : Type 0 where
  pub email : String
  pub password : String
  pub display_name : String

pub record LoginParams : Type 0 where
  pub email : String
  pub password : String
  pub ip : String
  pub user_agent : String

pub record OauthLoginParams : Type 0 where
  pub provider : String
  pub provider_id : String
  pub email : String
  pub display_name : String
  pub ip : String
  pub user_agent : String

pub record LoginResult : Type 0 where
  pub user : ℕ
  pub email : String
  pub token : String

-- Configuration, and functions that are not the repository's: strings.ToLower and TrimSpace,
-- bcrypt, SHA-256, net.SplitHostPort and netip.ParseAddr, AddDate(10, 0, 0), River's insert, and
-- the rendering of a mail's HTML from its link.
pub record Env : Type 0 where
  pub coding : Coding
  pub to_lower : String → String
  pub trim_space : String → String
  pub hash_password : String → Option String
  pub check_password : String → String → Bool
  pub hash_token : String → String
  pub split_host_port : String → Option String
  pub parse_addr : String → Option String
  pub ten_years_after : ℕ → ℕ
  pub insert_job : Job → List Job → List Job
  pub render : List ℕ → List ℕ
  pub base_url : List ℕ
  pub session_ttl : ℕ
  pub verify_ttl : ℕ
  pub reset_ttl : ℕ

-- `len` of a string: the bytes of its code points in UTF-8.
unfoldable pub byte_length : List ℕ → ℕ
byte_length [] = 0
byte_length (c ∷ cs) =
    (if ltb c 128 then 1 else if ltb c 2048 then 2 else if ltb c 65536 then 3 else 4)
    + byte_length cs

abbrev pub min_password_len : ℕ
min_password_len = 8

abbrev pub max_password_len : ℕ
max_password_len = 72

unfoldable pub validate_password_length : String → Result (Unit {0})
unfolding byte_length codes
validate_password_length password =
    let n = byte_length (codes password) in
    if ltb n min_password_len || ltb max_password_len n then err password_length else ok tt

module _ (env : Env) where
  unfoldable pub normalize_email : String → String
  normalize_email email = env.to_lower (env.trim_space email)

  unfoldable pub host_or : String → Option String → String
  host_or remote_addr none = remote_addr
  host_or remote_addr (some host) = host

  unfoldable pub parse_client_ip : String → Option String
  unfolding host_or
  parse_client_ip remote_addr =
      env.parse_addr (host_or remote_addr (env.split_host_port remote_addr))

-- pgtype.Text{String: s, Valid: s != ""}
unfoldable pub text_or_null : String → Option String
text_or_null s = if str_eq s "" then none else some s
