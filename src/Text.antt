-- ===== src/Text.antt =====
-- Rust's `str`, as the list of its Unicode code points, with the operations of the standard
-- library that the program calls. Indices and lengths in bytes go through `as_bytes`.
pub mod Pieces
pub mod Decimal
pub mod Utf8
use Prim.Native.Char.{code}
use Prim.Native.String.{String}
use ouroboros_fs.Base.{
  ℕ, zero, suc, ◌+◌, ◌-◌, ◌*◌, ◌/◌, ◌%◌, ◌≡◌, ◌≢◌, refl, ap, ◌∙◌, ◌↔◌, Bool, true, false, ◌&&◌,
  ◌||◌, List, [], ◌∷◌, ◌++◌, append_assoc, append-nil, map, Option, none, some, arith, ltb, leb,
  ◌==◌, if◌then◌else◌, ==_refl, ==_iff, Bool-cases, inl, inr, All, all, length,
}

abbrev pub Text : Type 0
Text = List ℕ

-- The code points of a literal.
abbrev pub codes : String → Text
codes String.[] = []
codes (String.◌∷◌ c s) = code c ∷ codes s

-- `a == b` on texts.
abbrev pub eq_text : Text → Text → Bool
eq_text [] [] = true
eq_text [] (d ∷ t) = false
eq_text (c ∷ s) [] = false
eq_text (c ∷ s) (d ∷ t) = c == d && eq_text s t

pub eq_text_refl : (s : Text) → eq_text s s ≡ true
eq_text_refl [] = refl
eq_text_refl (c ∷ s) = ground (arith, ==_refl c, eq_text_refl s)

pub eq_text_sound : (s t : Text) → eq_text s t ≡ true → s ≡ t
eq_text_sound [] [] h = refl
eq_text_sound [] (d ∷ t) h = cc
eq_text_sound (c ∷ s) [] h = cc
eq_text_sound (c ∷ s) (d ∷ t) h = ground (arith, eq_text_sound s t)

pub eq_text_iff : (s t : Text) → (eq_text s t ≡ true) ↔ (s ≡ t)
eq_text_iff s t = (eq_text_sound s t, λ e. rw e (eq_text_refl t))

-- `char::is_whitespace`: the code points with the property White_Space.
abbrev pub is_whitespace : ℕ → Bool
is_whitespace c =
    leb 9 c && leb c 13
    || c == 32
    || c == 0x85
    || c == 0xa0
    || c == 0x1680
    || leb 0x2000 c && leb c 0x200a
    || c == 0x2028
    || c == 0x2029
    || c == 0x202f
    || c == 0x205f
    || c == 0x3000

-- `trim_start_matches` and `trim_end_matches` with a set of characters.
unfoldable pub trim_start_matches : (ℕ → Bool) → Text → Text
trim_start_matches p [] = []
trim_start_matches p (c ∷ s) = let rest = trim_start_matches p s in if p c then rest else c ∷ s

-- A character at the end goes when all behind it went.
abbrev keep_end : (ℕ → Bool) → ℕ → Text → Text
keep_end p c [] = if p c then [] else c ∷ []
keep_end p c (d ∷ t) = c ∷ d ∷ t

unfoldable pub trim_end_matches : (ℕ → Bool) → Text → Text
trim_end_matches p [] = []
trim_end_matches p (c ∷ s) = keep_end p c (trim_end_matches p s)

unfoldable pub trim : Text → Text
unfolding trim_start_matches trim_end_matches
trim s = trim_end_matches is_whitespace (trim_start_matches is_whitespace s)

-- The set ['\r', '\n'].
abbrev pub is_eol : ℕ → Bool
is_eol c = c == b'\r' || c == b'\n'

unfoldable pub trim_eol : Text → Text
unfolding trim_end_matches
trim_eol s = trim_end_matches is_eol s

abbrev pub is_empty : Text → Bool
is_empty [] = true
is_empty (c ∷ s) = false

abbrev pub to_ascii_uppercase : Text → Text
to_ascii_uppercase = map (λ c. if leb b'a' c && leb c b'z' then c - 32 else c)

abbrev pub ascii_lower : ℕ → ℕ
ascii_lower c = if leb b'A' c && leb c b'Z' then c + 32 else c

abbrev pub to_ascii_lowercase : Text → Text
to_ascii_lowercase = map ascii_lower

abbrev pub eq_ignore_ascii_case : Text → Text → Bool
eq_ignore_ascii_case [] [] = true
eq_ignore_ascii_case [] (d ∷ t) = false
eq_ignore_ascii_case (c ∷ s) [] = false
eq_ignore_ascii_case (c ∷ s) (d ∷ t) = ascii_lower c == ascii_lower d && eq_ignore_ascii_case s t

abbrev pub strip_prefix : Text → Text → Option Text
strip_prefix [] s = some s
strip_prefix (p ∷ ps) [] = none
strip_prefix (p ∷ ps) (c ∷ s) = if p == c then strip_prefix ps s else none

-- The UTF-8 bytes of one code point.
abbrev pub utf8 : ℕ → List ℕ
utf8 c =
    if ltb c 0x80
    then c ∷ []
    else if ltb c 0x800
    then (0xc0 + c / 64) ∷ (0x80 + c % 64) ∷ []
    else if ltb c 0x10000
    then (0xe0 + c / 4096) ∷ (0x80 + c / 64 % 64) ∷ (0x80 + c % 64) ∷ []
    else (0xf0 + c / 262144) ∷ (0x80 + c / 4096 % 64) ∷ (0x80 + c / 64 % 64) ∷ (0x80 + c % 64) ∷ []

abbrev pub as_bytes : Text → List ℕ
as_bytes [] = []
as_bytes (c ∷ s) = utf8 c ++ as_bytes s

-- `str::len`.
abbrev pub byte_len : Text → ℕ
byte_len s = length (as_bytes s)

-- No character of the text has the property.
abbrev pub Free : (ℕ → Bool) → Text → Type 0
Free p = All (λ c. p c ≡ false)

abbrev pub Lacks : ℕ → Text → Type 0
Lacks b = All (λ c. (c == b) ≡ false)

pub trim_start-Free : (p : ℕ → Bool) (s : Text) → Free p s → trim_start_matches p s ≡ s
unfolding trim_start_matches
trim_start-Free p [] h = refl
trim_start-Free p (c ∷ s) h = rw h.0

pub trim_end-Free : (p : ℕ → Bool) (s : Text) → Free p s → trim_end_matches p s ≡ s
unfolding trim_end_matches
trim_end-Free p [] h = refl
trim_end-Free p (c ∷ []) h = rw h.0
trim_end-Free p (c ∷ d ∷ s) h = rw (trim_end-Free p (d ∷ s) h.1)

pub trim-Free : (s : Text) → Free is_whitespace s → trim s ≡ s
unfolding trim
trim-Free s h =
    ap (trim_end_matches is_whitespace) (trim_start-Free is_whitespace s h)
    ∙ trim_end-Free is_whitespace s h

-- A line is read back without the line break that ends it.
pub trim_eol-line : (s : Text) → Free is_eol s → trim_eol (s ++ b'\n' ∷ []) ≡ s
unfolding trim_eol
trim_eol-line [] h = refl
trim_eol-line (c ∷ []) h = rw h.0
trim_eol-line (c ∷ d ∷ s) h = rw (trim_eol-line (d ∷ s) h.1)

-- A text stays as it is if its last part is not empty and holds nothing of the set.
pub trim_end-append :
    (p : ℕ → Bool) (a b : Text)
    → Free p b
    → is_empty b ≡ false
    → trim_end_matches p (a ++ b) ≡ a ++ b
unfolding trim_end_matches
trim_end-append p [] b h ne = trim_end-Free p b h
trim_end-append p (c ∷ []) [] h ne = cc
trim_end-append p (c ∷ []) (d ∷ b) h ne = rw (trim_end-append p [] (d ∷ b) h refl)
trim_end-append p (c ∷ x ∷ a) b h ne = rw (trim_end-append p (x ∷ a) b h ne)

pub trim-append :
    (c : ℕ) (a b : Text)
    → is_whitespace c ≡ false
    → Free is_whitespace b
    → is_empty b ≡ false
    → trim (c ∷ (a ++ b)) ≡ c ∷ (a ++ b)
unfolding trim
trim-append c a b hc h ne = rw hc (trim_end-append is_whitespace (c ∷ a) b h ne)
