-- ===== src/Account/RoundTrip.antt =====
-- internal/auth/tokens.go: what Verify accepts.
use mathlib.Core.Path.{subst}
use sabermatic_dev.Prelude.{
  ℕ, ◌+◌, ◌≡◌, refl, sym, ap, ◌∙◌, inl, inr, Bool, true, false, not, List, [], ◌∷◌, ◌++◌, Option,
  none, some, ◌==◌, ltb, if◌then◌else◌, arith, All, Bool-cases,
}
use sabermatic_dev.Prelude.Int.{ℤ, pos, ltb_ℤ}
use sabermatic_dev.Account.Token.{
  bytes_eq, put_before, split, split_behind, split3, purpose_mismatch, expired, Verified, verified,
  rejected, unix, Coding, payload, signed, sign, verify, check_signature, check_payload,
  check_parts, check_user, check_expiry,
}

pub bytes_eq_refl : (s : List ℕ) → bytes_eq s s ≡ true
unfolding bytes_eq
bytes_eq_refl [] = refl
bytes_eq_refl (c ∷ s) = ground (arith, bytes_eq_refl s)

pub bytes_eq→eq : (s t : List ℕ) → bytes_eq s t ≡ true → s ≡ t
unfolding bytes_eq
bytes_eq→eq [] [] h = refl
bytes_eq→eq [] (d ∷ t) h = absurd (ground arith)
bytes_eq→eq (c ∷ s) [] h = absurd (ground arith)
bytes_eq→eq (c ∷ s) (d ∷ t) h =
    let head : c ≡ d = ground (arith, h) in
    let tail : s ≡ t = bytes_eq→eq s t (ground (arith, h)) in
    ap (λ x. x ∷ s) head ∙ ap (λ r. d ∷ r) tail

abbrev pub Lacks : ℕ → List ℕ → Type 0
Lacks sep s = All (λ (c : ℕ). (c == sep) ≡ false) s

-- The first separator is where a part without one ends.
pub split-join : (sep : ℕ) (s t : List ℕ) → Lacks sep s → split sep (s ++ sep ∷ t) ≡ some (s, t)
unfolding split
split-join sep [] t h = ground arith
split-join sep (c ∷ s) t h = rw (h.0, split-join sep s t h.1, put_before) refl

-- What a split gives, joined again, is the text.
abbrev pub IsSplit : ℕ → List ℕ → Option (List ℕ × List ℕ) → Type 0
IsSplit sep s none = Unit {0}
IsSplit sep s (some (a, b)) = s ≡ a ++ sep ∷ b

pub split-IsSplit : (sep : ℕ) (s : List ℕ) → IsSplit sep s (split sep s)
unfolding split
split-IsSplit sep [] = tt
split-IsSplit sep (c ∷ s) = elim (Bool-cases (c == sep)) [
  | inl here ↦ rw here (ap (λ x. x ∷ s) (ground (arith, here)))
  | inr there ↦ rw there (longer (split sep s) (split-IsSplit sep s))
]
  where
    longer : (o : Option (List ℕ × List ℕ)) → IsSplit sep s o → IsSplit sep (c ∷ s) (put_before c o)
    longer none h = tt
    longer (some (a, b)) h = ap (λ r. c ∷ r) h

-- The same for three parts.
abbrev pub IsSplit3 : ℕ → List ℕ → Option (List ℕ × List ℕ × List ℕ) → Type 0
IsSplit3 sep s none = Unit {0}
IsSplit3 sep s (some (a, b, c)) = s ≡ a ++ sep ∷ (b ++ sep ∷ c)

pub split3-IsSplit3 : (sep : ℕ) (s : List ℕ) → IsSplit3 sep s (split3 sep s)
unfolding split3
split3-IsSplit3 sep s = go (split sep s) (split-IsSplit sep s)
  where
    deeper :
        (a b : List ℕ) (o : Option (List ℕ × List ℕ))
        → s ≡ a ++ sep ∷ b
        → IsSplit sep b o
        → IsSplit3 sep s (elim o [ none ↦ none | some (x, y) ↦ some (a, x, y) ])
    deeper a b none e h = tt
    deeper a b (some (x, y)) e h = e ∙ ap (λ r. a ++ sep ∷ r) h

    go : (o : Option (List ℕ × List ℕ)) → IsSplit sep s o → IsSplit3 sep s (split_behind sep o)
    go none h = tt
    go (some (a, b)) h = unfold split_behind in deeper a b (split sep b) h (split-IsSplit sep b)

-- What the coding must be for tokens to work: what is printed is read back, and the separators of
-- the token do not occur in its parts.
pub record IsFaithful (coding : Coding) : Type 0 where
  pub decodes : (s : List ℕ) → coding.decode (coding.encode s) ≡ some s
  pub parses : (n : ℕ) → coding.parse_id (coding.print_id n) ≡ some n
  pub scans : (n : ℕ) → coding.scan_int (coding.print_int n) ≡ some (pos n)
  pub encode-Lacks : (s : List ℕ) → Lacks b'.' (coding.encode s)
  pub print_id-Lacks : (n : ℕ) → Lacks b'|' (coding.print_id n)

-- What Verify makes of a token that Sign made at `at`.
unfoldable pub outcome : ℕ → Bool → ℕ → ℕ → Verified
outcome user same expiry now =
    if not same
    then rejected purpose_mismatch
    else if ltb expiry now
    then rejected expired
    else verified user

module _ (coding : Coding) where
  split3-payload :
      (user : ℕ) (purpose : List ℕ) (expiry : ℕ)
      → IsFaithful coding
      → Lacks b'|' purpose
      → split3 b'|' (payload coding user purpose expiry)
        ≡ some (coding.print_id user, purpose, coding.print_int expiry)
  unfolding split3 payload
  split3-payload user purpose expiry ok plain =
      ap (split_behind b'|') (
        split-join b'|' (coding.print_id user) (purpose ++ b'|' ∷ coding.print_int expiry)
          (ok.print_id-Lacks user))
      ∙ rw (split-join b'|' purpose (coding.print_int expiry) plain, split_behind) refl

  -- A token that Sign made is accepted for the purpose it was made for, and gives back its user, up
  -- to the second in which it expires. For another purpose it is refused, and later it has expired.
  pub verify-sign :
      (user : ℕ) (purpose expected : List ℕ) (ttl at now : ℕ)
      → IsFaithful coding
      → Lacks b'|' purpose
      → verify coding (sign coding user purpose ttl at) expected now
        ≡ outcome user (bytes_eq purpose expected) (unix (at + ttl)) (unix now)
  unfolding verify sign signed check_signature check_payload split3 check_parts check_user
      check_expiry outcome
  verify-sign user purpose expected ttl at now ok plain =
      let expiry = unix (at + ttl) in
      let text = payload coding user purpose expiry in
      rw
        (
          split-join b'.' (coding.encode text) (coding.mac (coding.encode text))
              (ok.encode-Lacks text),
          bytes_eq_refl (coding.mac (coding.encode text)),
          ok.decodes text,
          split3-payload user purpose expiry ok plain,
          ok.parses user,
          ok.scans expiry,
        )
        (ground arith)

  -- What is behind an accepted token.
  pub record IsSigned (token expected : List ℕ) (now user : ℕ) : Type 0 where
    pub encoded : List ℕ
    pub text : List ℕ
    pub id : List ℕ
    pub expiry : List ℕ
    pub deadline : ℤ
    pub carries_mac : token ≡ signed coding encoded
    pub decoded : coding.decode encoded ≡ some text
    pub has_parts : text ≡ id ++ b'|' ∷ (expected ++ b'|' ∷ expiry)
    pub of_user : coding.parse_id id ≡ some user
    pub until : coding.scan_int expiry ≡ some deadline
    pub in_time : ltb_ℤ deadline (pos (unix now)) ≡ false

  -- From the check that comes last to the one that comes first.
  module _ (expected : List ℕ) (now user : ℕ) where
    expiry-IsSigned :
        (o : Option ℤ) (u : ℕ)
        → check_expiry coding now u o ≡ verified user
        → (deadline : ℤ) × (o ≡ some deadline)
          × (u ≡ user)
          × (ltb_ℤ deadline (pos (unix now)) ≡ false)
    unfolding check_expiry
    expiry-IsSigned none u h = absurd (ground arith)
    expiry-IsSigned (some e) u h = (e, refl, ground (arith, h), ground (arith, h))

    user-IsSigned :
        (purpose expiry : List ℕ) (o : Option ℕ)
        → check_user coding expected now purpose expiry o ≡ verified user
        → (o ≡ some user)
          × (purpose ≡ expected)
          × ((deadline : ℤ) × (coding.scan_int expiry ≡ some deadline)
              × (ltb_ℤ deadline (pos (unix now)) ≡ false))
    unfolding check_user
    user-IsSigned purpose expiry none = λ h. absurd (ground arith)
    user-IsSigned purpose expiry (some u) = elim (Bool-cases (bytes_eq purpose expected)) [
      | inr other ↦ rw other (λ h. absurd (ground arith))
      | inl same ↦ rw same (λ h.
          let last = expiry-IsSigned (coding.scan_int expiry) u h in
          (ap some last.2, bytes_eq→eq purpose expected same, (last.0, last.1, last.3)))
    ]

    parts-IsSigned :
        (encoded text : List ℕ) (o : Option (List ℕ × List ℕ × List ℕ))
        → coding.decode encoded ≡ some text
        → IsSplit3 b'|' text o
        → check_parts coding expected now o ≡ verified user
        → IsSigned (signed coding encoded) expected now user
    unfolding check_parts
    parts-IsSigned encoded text none d e h = absurd (ground arith)
    parts-IsSigned encoded text (some (id, purpose, expiry)) d e h =
        let last = user-IsSigned purpose expiry (coding.parse_id id) h in
        record {
          encoded = encoded;
          text = text;
          id = id;
          expiry = expiry;
          deadline = last.2.0;
          carries_mac = refl;
          decoded = d;
          has_parts = e ∙ ap (λ p. id ++ b'|' ∷ (p ++ b'|' ∷ expiry)) last.1;
          of_user = last.0;
          until = last.2.1;
          in_time = last.2.2;
        }

    payload-IsSigned :
        (encoded : List ℕ) (o : Option (List ℕ))
        → coding.decode encoded ≡ o
        → check_payload coding expected now o ≡ verified user
        → IsSigned (signed coding encoded) expected now user
    unfolding check_payload
    payload-IsSigned encoded none d h = absurd (ground arith)
    payload-IsSigned encoded (some text) d h =
        parts-IsSigned encoded text (split3 b'|' text) d (split3-IsSplit3 b'|' text) h

    signature-IsSigned :
        (token : List ℕ) (o : Option (List ℕ × List ℕ))
        → IsSplit b'.' token o
        → check_signature coding expected now o ≡ verified user
        → IsSigned token expected now user
    unfolding check_signature signed
    signature-IsSigned token none e = λ h. absurd (ground arith)
    signature-IsSigned token (some (encoded, sig)) e =
        elim (Bool-cases (bytes_eq sig (coding.mac encoded))) [
          | inr other ↦ rw other (λ h. absurd (ground arith))
          | inl same ↦ rw same (λ h.
              subst (λ t. IsSigned t expected now user)
                (ap (λ r. encoded ++ b'.' ∷ r) (sym (bytes_eq→eq sig (coding.mac encoded) same))
                  ∙ sym e)
                (payload-IsSigned encoded (coding.decode encoded) refl h))
        ]

  -- A token that is accepted carries the code that the key gives to its first part, and that part
  -- decodes to the user it is accepted for, the purpose and a second that has not passed.
  pub verify-IsSigned :
      (token expected : List ℕ) (now user : ℕ)
      → verify coding token expected now ≡ verified user
      → IsSigned token expected now user
  unfolding verify
  verify-IsSigned token expected now user =
      signature-IsSigned expected now user token (split b'.' token) (split-IsSplit b'.' token)
