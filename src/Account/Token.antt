-- ===== src/Account/Token.antt =====
-- internal/auth/tokens.go: the signed tokens of the mails. A Go string is the list of its bytes.
-- Parameters: the base64 coding, the hex HMAC-SHA256 with the signer's key, and how a UUID and an
-- integer are printed and read (uuid.Parse, `%d`).
use sabermatic_dev.Prelude.{
  ℕ, ◌+◌, ◌/◌, Bool, true, false, not, ◌&&◌, List, [], ◌∷◌, ◌++◌, Option, none, some, ◌==◌,
  if◌then◌else◌,
}
use sabermatic_dev.Prelude.Int.{ℤ, pos, ltb_ℤ}

unfoldable pub bytes_eq : List ℕ → List ℕ → Bool
bytes_eq [] [] = true
bytes_eq [] (d ∷ ds) = false
bytes_eq (c ∷ cs) [] = false
bytes_eq (c ∷ cs) (d ∷ ds) = c == d && bytes_eq cs ds

unfoldable pub put_before : ℕ → Option (List ℕ × List ℕ) → Option (List ℕ × List ℕ)
put_before c none = none
put_before c (some (before, behind)) = some (c ∷ before, behind)

-- strings.SplitN(s, sep, 2): the two parts round the first separator.
unfoldable pub split : ℕ → List ℕ → Option (List ℕ × List ℕ)
unfolding put_before
split sep [] = none
split sep (c ∷ s) = let rest = put_before c (split sep s) in if c == sep then some ([], s) else rest

unfoldable pub split_behind : ℕ → Option (List ℕ × List ℕ) → Option (List ℕ × List ℕ × List ℕ)
split_behind sep none = none
split_behind sep (some (first, behind)) = elim (split sep behind) [
  | none ↦ none
  | some (second, third) ↦ some (first, second, third)
]

-- strings.SplitN(s, sep, 3), if it gives three parts.
unfoldable pub split3 : ℕ → List ℕ → Option (List ℕ × List ℕ × List ℕ)
unfolding split_behind split
split3 sep s = split_behind sep (split sep s)

pub data TokenError : Type 0 where
  invalid_format invalid_signature invalid_encoding invalid_payload : TokenError
  invalid_user_id purpose_mismatch invalid_expiry expired : TokenError

pub data Verified : Type 0 where
  verified : ℕ → Verified
  rejected : TokenError → Verified

-- Time.Unix of a time in microseconds.
abbrev pub unix : ℕ → ℕ
unix t = t / 1000000

pub record Coding : Type 0 where
  pub encode : List ℕ → List ℕ
  pub decode : List ℕ → Option (List ℕ)
  pub mac : List ℕ → List ℕ
  pub print_id : ℕ → List ℕ
  pub parse_id : List ℕ → Option ℕ
  pub print_int : ℕ → List ℕ
  pub scan_int : List ℕ → Option ℤ

module _ (coding : Coding) where
  unfoldable pub payload : ℕ → List ℕ → ℕ → List ℕ
  payload user purpose expiry =
      coding.print_id user ++ b'|' ∷ (purpose ++ b'|' ∷ coding.print_int expiry)

  unfoldable pub signed : List ℕ → List ℕ
  signed encoded = encoded ++ b'.' ∷ coding.mac encoded

  -- TokenSigner.Sign
  unfoldable pub sign : ℕ → List ℕ → ℕ → ℕ → List ℕ
  unfolding payload signed
  sign user purpose ttl now = signed (coding.encode (payload user purpose (unix (now + ttl))))

  unfoldable pub check_expiry : ℕ → ℕ → Option ℤ → Verified
  check_expiry now user none = rejected invalid_expiry
  check_expiry now user (some expiry) =
      if ltb_ℤ expiry (pos (unix now)) then rejected expired else verified user

  unfoldable pub check_user : List ℕ → ℕ → List ℕ → List ℕ → Option ℕ → Verified
  unfolding check_expiry bytes_eq
  check_user expected now purpose expiry none = rejected invalid_user_id
  check_user expected now purpose expiry (some user) =
      if not (bytes_eq purpose expected)
      then rejected purpose_mismatch
      else check_expiry now user (coding.scan_int expiry)

  unfoldable pub check_parts : List ℕ → ℕ → Option (List ℕ × List ℕ × List ℕ) → Verified
  unfolding check_user
  check_parts expected now none = rejected invalid_payload
  check_parts expected now (some (user, purpose, expiry)) =
      check_user expected now purpose expiry (coding.parse_id user)

  unfoldable pub check_payload : List ℕ → ℕ → Option (List ℕ) → Verified
  unfolding check_parts split3
  check_payload expected now none = rejected invalid_encoding
  check_payload expected now (some bytes) = check_parts expected now (split3 b'|' bytes)

  unfoldable pub check_signature : List ℕ → ℕ → Option (List ℕ × List ℕ) → Verified
  unfolding check_payload bytes_eq
  check_signature expected now none = rejected invalid_format
  check_signature expected now (some (encoded, sig)) =
      if not (bytes_eq sig (coding.mac encoded))
      then rejected invalid_signature
      else check_payload expected now (coding.decode encoded)

  -- TokenSigner.Verify
  unfoldable pub verify : List ℕ → List ℕ → ℕ → Verified
  unfolding check_signature split
  verify token expected now = check_signature expected now (split b'.' token)
