-- ===== src/Tests/Coding.antt =====
-- Concrete functions for the parameters of the tests: numbers in unary, a code for base64 that has
-- no dot, a password that is its own hash.
use sabermatic_dev.Prelude.{
  ℕ, zero, suc, ◌+◌, ◌-◌, ◌≡◌, refl, ap, List, [], ◌∷◌, ◌++◌, length, none, some, str_eq, arith,
}
use sabermatic_dev.Prelude.Int.{pos}
use sabermatic_dev.Account.Token.{Coding}
use sabermatic_dev.Account.RoundTrip.{IsFaithful, Lacks}
use sabermatic_dev.Account.Params.{Env}

abbrev pub unary : ℕ → List ℕ
unary zero = []
unary (suc n) = b'1' ∷ unary n

abbrev pub up : List ℕ → List ℕ
up [] = []
up (c ∷ s) = (c + 47) ∷ up s

abbrev pub down : List ℕ → List ℕ
down [] = []
down (c ∷ s) = (c - 47) ∷ down s

abbrev pub coding : Coding
coding = record {
  encode = up;
  decode = λ s. some (down s);
  mac = λ s. length s ∷ [];
  print_id = unary;
  parse_id = λ s. some (length s);
  print_int = unary;
  scan_int = λ s. some (pos (length s));
}

down-up : (s : List ℕ) → down (up s) ≡ s
down-up [] = refl
down-up (c ∷ s) = ground (arith, down-up s)

up-Lacks : (s : List ℕ) → Lacks b'.' (up s)
up-Lacks [] = tt
up-Lacks (c ∷ s) = (ground arith, up-Lacks s)

unary-Lacks : (n : ℕ) → Lacks b'|' (unary n)
unary-Lacks zero = tt
unary-Lacks (suc n) = (refl, unary-Lacks n)

length-unary : (n : ℕ) → length (unary n) ≡ n
length-unary zero = refl
length-unary (suc n) = ap suc (length-unary n)

pub coding-IsFaithful : IsFaithful coding
coding-IsFaithful = record {
  decodes = λ s. ap some (down-up s);
  parses = λ n. ap some (length-unary n);
  scans = λ n. ap (λ k. some (pos k)) (length-unary n);
  encode-Lacks = up-Lacks;
  print_id-Lacks = unary-Lacks;
}

abbrev pub env : Env
env = record {
  coding = coding;
  to_lower = λ s. s;
  trim_space = λ s. s;
  hash_password = λ password. some password;
  check_password = str_eq;
  hash_token = λ token. token;
  split_host_port = λ address. none;
  parse_addr = λ address. some address;
  ten_years_after = λ t. t + 315576000000000;
  insert_job = λ job jobs. jobs ++ job ∷ [];
  render = λ url. url;
  base_url = [];
  session_ttl = 7000000;
  verify_ttl = 5000000;
  reset_ttl = 5000000;
}
