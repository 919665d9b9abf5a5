-- ===== src/Webhook/Atoi.antt =====
-- strconv.Atoi, as the webhook handler of internal/backend/billing.go calls it.
use Prim.Native.Char.{code}
use sabermatic_dev.Prelude.{
  ℕ, ◌+◌, ◌-◌, ◌*◌, ◌^◌, ◌≡◌, refl, Bool, true, false, ◌&&◌, List, [], ◌∷◌, ltb, leb, ◌==◌,
  if◌then◌else◌, Option, some, none, String,
}
use sabermatic_dev.Prelude.Int.{ℤ, pos, negsuc, neg}

unfoldable pub codes : String → List ℕ
codes String.[] = []
codes (String.◌∷◌ c s) = code c ∷ codes s

unfoldable pub digits_value : ℕ → List ℕ → Option ℕ
digits_value acc [] = some acc
digits_value acc (c ∷ cs) =
    let rest = digits_value (acc * 10 + (c - b'0')) cs in
    if leb b'0' c && leb c b'9' then rest else none

-- At least one digit.
unfoldable pub unsigned : List ℕ → Option ℕ
unfolding digits_value
unsigned [] = none
unsigned (c ∷ cs) = digits_value 0 (c ∷ cs)

-- The value must fit the 64 bits of an int.
unfoldable pub in_range : Bool → Option ℕ → Option ℤ
in_range negative none = none
in_range true (some n) = if leb n (2 ^ 63) then some (neg n) else none
in_range false (some n) = if ltb n (2 ^ 63) then some (pos n) else none

unfoldable pub signed : List ℕ → Option ℤ
unfolding in_range unsigned
signed [] = none
signed (c ∷ cs) =
    if c == b'-'
    then in_range true (unsigned cs)
    else if c == b'+'
    then in_range false (unsigned cs)
    else in_range false (unsigned (c ∷ cs))

unfoldable pub atoi : String → Option ℤ
unfolding signed codes
atoi s = signed (codes s)

atoi_examples :
    (atoi "120" ≡ some (pos 120))
    × (atoi "-7" ≡ some (negsuc 6))
    × (atoi "12x" ≡ none)
    × (atoi "+" ≡ none)
    × (atoi "9223372036854775808" ≡ none)
unfolding atoi
atoi_examples = (refl, refl, refl, refl, refl)
