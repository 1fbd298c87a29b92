-- ===== src/Text/Utf8.antt =====
-- Lines of a byte stream as `AsyncBufReadExt::read_line` reads them, and the UTF-8 text of a line.
use ouroboros_fs.Base.{
  ℕ, ◌+◌, ◌-◌, ◌*◌, ◌≤◌, ◌≡◌, ◌≢◌, refl, sym, ap, ◌∙◌, Bool, true, false, not, ◌&&◌, ◌||◌, List, [],
  ◌∷◌, ◌++◌, append_assoc, Option, none, some, arith, ltb, leb, ◌==◌, if◌then◌else◌, length, All,
}
use ouroboros_fs.Text.{Text, as_bytes, utf8}

-- The bytes up to the first line break, which is kept, and what follows it.
abbrev line_first : ℕ → List ℕ × List ℕ → List ℕ × List ℕ
line_first b (line, rest) = (b ∷ line, rest)

unfoldable pub read_until_newline : List ℕ → List ℕ × List ℕ
read_until_newline [] = ([], [])
read_until_newline (b ∷ bs) =
    let rest = read_until_newline bs in if b == b'\n' then (b ∷ [], bs) else line_first b rest

-- Between two bytes: at the start of a character, or within one that wants `need` bytes more, has
-- the value `acc` so far and must reach `low`.
pub data Scan : Type 0 where
  start broken : Scan
  within : (need acc low : ℕ) → Scan

-- A Unicode scalar value.
abbrev pub is_scalar : ℕ → Bool
is_scalar c = ltb c 0xd800 || leb 0xe000 c && leb c 0x10ffff

lead : ℕ → Option ℕ × Scan
lead b =
    if ltb b 0x80
    then (some b, start)
    else if ltb b 0xc0
    then (none, broken)
    else if ltb b 0xe0
    then (none, within 1 (b - 0xc0) 0x80)
    else if ltb b 0xf0
    then (none, within 2 (b - 0xe0) 0x800)
    else if ltb b 0xf8
    then (none, within 3 (b - 0xf0) 0x10000)
    else (none, broken)

follow : ℕ → ℕ → ℕ → ℕ → Option ℕ × Scan
follow need acc low b =
    let next = acc * 64 + (b - 0x80) in
    if not (leb 0x80 b && ltb b 0xc0)
    then (none, broken)
    else if not (need == 1)
    then (none, within (need - 1) next low)
    else if leb low next && is_scalar next
    then (some next, start)
    else (none, broken)

scan : Scan → ℕ → Option ℕ × Scan
unfolding lead follow
scan start b = lead b
scan broken b = (none, broken)
scan (within need acc low) b = follow need acc low b

at_end : Scan → Option Text
at_end start = some []
at_end broken = none
at_end (within need acc low) = none

emit : Option ℕ → Option Text → Option Text
emit none t = t
emit (some c) none = none
emit (some c) (some t) = some (c ∷ t)

scan_bytes : List ℕ → Scan → Option Text
unfolding scan at_end emit
scan_bytes [] st = at_end st
scan_bytes (b ∷ bs) st = emit (scan st b).0 (scan_bytes bs (scan st b).1)

-- `String::from_utf8`.
unfoldable pub from_utf8 : List ℕ → Option Text
unfolding scan_bytes
from_utf8 bytes = scan_bytes bytes start

scan_utf8 :
    (c : ℕ) (bs : List ℕ)
    → is_scalar c ≡ true
    → scan_bytes (utf8 c ++ bs) start ≡ emit (some c) (scan_bytes bs start)
unfolding scan_bytes lead follow scan
scan_utf8 c bs h = ground arith

-- A text of scalar values.
abbrev pub AreScalars : Text → Type 0
AreScalars = All (λ c. is_scalar c ≡ true)

emit_text : (c : ℕ) (o : Option Text) (s : Text) → o ≡ some s → emit (some c) o ≡ some (c ∷ s)
unfolding emit
emit_text c o s h = rw h

pub from_utf8-as_bytes : (s : Text) → AreScalars s → from_utf8 (as_bytes s) ≡ some s
unfolding from_utf8 scan_bytes at_end
from_utf8-as_bytes [] h = refl
from_utf8-as_bytes (c ∷ s) h =
    scan_utf8 c (as_bytes s) h.0 ∙ emit_text c _ s (from_utf8-as_bytes s h.1)

-- A text that ends with a line break has bytes.
pub bytes_end : (s : Text) → as_bytes (s ++ b'\n' ∷ []) ≢ []
bytes_end [] = λ e. cc
bytes_end (c ∷ s) = λ e. ground arith

pub as_bytes-append : (s t : Text) → as_bytes (s ++ t) ≡ as_bytes s ++ as_bytes t
as_bytes-append [] t = refl
as_bytes-append (c ∷ s) t =
    ap (λ r. utf8 c ++ r) (as_bytes-append s t)
    ∙ sym (append_assoc (utf8 c) (as_bytes s) (as_bytes t))

-- A line of a stream ends where its text does.
line_utf8 :
    (c : ℕ) (bs : List ℕ)
    → (c == b'\n') ≡ false
    → read_until_newline (utf8 c ++ bs)
      ≡ (utf8 c ++ (read_until_newline bs).0, (read_until_newline bs).1)
unfolding read_until_newline
line_utf8 c bs h = ground arith

pub read_until_newline-line :
    (s : Text) (bs : List ℕ)
    → All (λ c. (c == b'\n') ≡ false) s
    → read_until_newline (as_bytes (s ++ b'\n' ∷ []) ++ bs) ≡ (as_bytes (s ++ b'\n' ∷ []), bs)
unfolding read_until_newline
read_until_newline-line [] bs h = refl
read_until_newline-line (c ∷ s) bs h =
    ap read_until_newline (append_assoc (utf8 c) (as_bytes (s ++ b'\n' ∷ [])) bs)
    ∙ line_utf8 c _ h.0
    ∙ ap (λ r. (utf8 c ++ r.0, r.1)) (read_until_newline-line s bs h.1)

-- A line is not empty, and what follows it is shorter than the stream.
pub read_until_newline_shrinks :
    (b : ℕ) (bs : List ℕ) → length (read_until_newline (b ∷ bs)).1 ≤ length bs
unfolding read_until_newline
read_until_newline_shrinks b [] = ground arith
read_until_newline_shrinks b (d ∷ bs) = ground (arith, read_until_newline_shrinks d bs)

utf8_tests :
    (from_utf8 (0x4f ∷ 0xc3 ∷ 0xa9 ∷ 0xe2 ∷ 0x82 ∷ 0xac ∷ []) ≡ some (0x4f ∷ 0xe9 ∷ 0x20ac ∷ []))
    × (from_utf8 (0xed ∷ 0xa0 ∷ 0x80 ∷ []) ≡ none)
    × (from_utf8 (0xc0 ∷ 0x80 ∷ []) ≡ none)
    × (from_utf8 (0xe2 ∷ 0x82 ∷ []) ≡ none)
unfolding from_utf8 scan_bytes scan lead follow at_end emit
utf8_tests = (refl, refl, refl, refl)
