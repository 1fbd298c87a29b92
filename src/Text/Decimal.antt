-- ===== src/Text/Decimal.antt =====
-- Numbers in decimal: `{}` of `format!` for unsigned integers, and `str::parse::<u16|u32|u64>`.
use ouroboros_fs.Base.{
  sym, replicate, ◌++◌, ℕ, zero, suc, ◌+◌, ◌-◌, ◌*◌, ◌/◌, ◌%◌, ◌^◌, ◌≤◌, ◌<◌, ◌≡◌, ◌≢◌, refl, ◌∙◌,
  Bool, ◌&&◌, [], ◌∷◌, Option, none, some, arith, leb, ◌==◌, if◌then◌else◌, All, Bool-cases, inl,
  inr,
}
use ouroboros_fs.Text.{Text}

abbrev pub max_u16 : ℕ
max_u16 = 2 ^ 16 - 1

abbrev pub max_u32 : ℕ
max_u32 = 2 ^ 32 - 1

abbrev pub max_u64 : ℕ
max_u64 = 2 ^ 64 - 1

abbrev pub is_digit : ℕ → Bool
is_digit c = leb b'0' c && leb c b'9'

-- The digits of `n` in front of `out`; each round divides by ten.
digits : ℕ → ℕ → Text → Text
digits zero n out = out
digits (suc f) n out =
    let rest = digits f (n / 10) ((b'0' + n % 10) ∷ out) in
    if n / 10 == 0 then (b'0' + n % 10) ∷ out else rest

-- `format!("{}", n)`. A number has at most `n + 1` digits.
unfoldable pub decimal : ℕ → Text
unfolding digits
decimal n = digits (suc n) n []

-- The digits are read with checked arithmetic against the type's largest value.
scan : ℕ → Text → ℕ → Option ℕ
scan top [] n = some n
scan top (c ∷ s) n =
    let d = c - b'0' in if is_digit c && leb (n * 10 + d) top then scan top s (n * 10 + d) else none

-- `s.parse::<uN>().ok()`: a leading `+` is taken, an empty text and a sign alone are not.
parse_digits : ℕ → Text → Option ℕ
parse_digits top [] = none
parse_digits top (c ∷ s) = scan top (c ∷ s) 0

unfoldable pub parse_uint : ℕ → Text → Option ℕ
unfolding scan parse_digits
parse_uint top [] = none
parse_uint top (c ∷ s) = if c == b'+' then parse_digits top s else parse_digits top (c ∷ s)

abbrev pub AllDigits : Text → Type 0
AllDigits = All (λ c. (b'0' ≤ c) × (c ≤ b'9'))

digits-AllDigits : (f n : ℕ) (out : Text) → AllDigits out → AllDigits (digits f n out)
unfolding digits
digits-AllDigits zero n out h = h
digits-AllDigits (suc f) n out h = elim (Bool-cases (n / 10 == 0)) [
  | inl e ↦ rw e (omega arith, h)
  | inr e ↦ rw e (digits-AllDigits f (n / 10) ((b'0' + n % 10) ∷ out) (omega arith, h))
]

pub decimal-AllDigits : (n : ℕ) → AllDigits (decimal n)
unfolding decimal
decimal-AllDigits n = digits-AllDigits (suc n) n [] tt

scan-digits :
    (top f n : ℕ) (out : Text) → n < f → n ≤ top → scan top (digits f n out) 0 ≡ scan top out n
unfolding scan digits
scan-digits top zero n out h k = absurd (omega arith)
scan-digits top (suc f) n out h k = elim (Bool-cases (n / 10 == 0)) [
  | inl e ↦ rw e (ground arith)
  | inr e ↦ rw e (
      scan-digits top f (n / 10) ((b'0' + n % 10) ∷ out) (ground arith) (omega arith)
      ∙ ground arith)
]

-- With a digit in front, the sign is not looked at.
parse_uint-scan : (top : ℕ) (s : Text) → AllDigits s → s ≢ [] → parse_uint top s ≡ scan top s 0
unfolding parse_uint
parse_uint-scan top [] h ne = absurd (ne refl)
parse_uint-scan top (c ∷ s) h ne = ground arith

digits-ne-nil : (f n : ℕ) (out : Text) → out ≢ [] → digits f n out ≢ []
unfolding digits
digits-ne-nil zero n out h = h
digits-ne-nil (suc f) n out h = ground (arith, digits-ne-nil f (n / 10) ((b'0' + n % 10) ∷ out))

pub decimal-ne-nil : (n : ℕ) → decimal n ≢ []
unfolding decimal
decimal-ne-nil n = ground (arith, digits-ne-nil n (n / 10) ((b'0' + n % 10) ∷ []))

-- A printed number that fits the type is read back.
pub parse_uint-decimal : (top n : ℕ) → n ≤ top → parse_uint top (decimal n) ≡ some n
unfolding decimal scan
parse_uint-decimal top n h =
    parse_uint-scan top (decimal n) (decimal-AllDigits n) (decimal-ne-nil n)
    ∙ scan-digits top (suc n) n [] (omega arith) h

scan-zeros : (top k : ℕ) (s : Text) → scan top (replicate k b'0' ++ s) 0 ≡ scan top s 0
unfolding scan
scan-zeros top zero s = refl
scan-zeros top (suc k) s = ground (arith, scan-zeros top k s)

pub zeros-AllDigits : (k : ℕ) (s : Text) → AllDigits s → AllDigits (replicate k b'0' ++ s)
zeros-AllDigits zero s h = h
zeros-AllDigits (suc k) s h = (omega arith, zeros-AllDigits k s h)

append-ne-nil : (a b : Text) → b ≢ [] → a ++ b ≢ []
append-ne-nil [] b h = h
append-ne-nil (c ∷ a) b h = λ e. cc e

-- Zeros in front do not change the number.
pub parse_uint-zeros :
    (top k n : ℕ) → n ≤ top → parse_uint top (replicate k b'0' ++ decimal n) ≡ some n
parse_uint-zeros top k n h =
    parse_uint-scan top _ (zeros-AllDigits k (decimal n) (decimal-AllDigits n))
      (append-ne-nil (replicate k b'0') (decimal n) (decimal-ne-nil n))
    ∙ scan-zeros top k (decimal n)
    ∙ sym (parse_uint-scan top (decimal n) (decimal-AllDigits n) (decimal-ne-nil n))
    ∙ parse_uint-decimal top n h

parse_uint_tests :
    (parse_uint max_u64 (b'+' ∷ b'7' ∷ []) ≡ some 7)
    × (parse_uint max_u16 (decimal 65536) ≡ none)
    × (parse_uint max_u16 (b'-' ∷ b'7' ∷ []) ≡ none)
    × (parse_uint max_u16 (b'+' ∷ []) ≡ none)
    × (parse_uint max_u64 (decimal max_u64) ≡ some max_u64)
unfolding parse_uint decimal
parse_uint_tests = (refl, refl, refl, refl, refl)
