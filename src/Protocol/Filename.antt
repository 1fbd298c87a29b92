-- ===== src/Protocol/Filename.antt =====
-- `validate_filename` of src/protocol.rs.
use ouroboros_fs.Base.{
  ℕ, ◌≤◌, ◌≡◌, refl, sym, ap, ◌∙◌, Bool, true, false, ◌||◌, ◌&&◌, List, [], ◌∷◌, ◌++◌, arith, ltb,
  leb, ◌==◌, if◌then◌else◌, All, all, Result, ok, err, length, not, ◌↔◌,
}
use ouroboros_fs.Text.{Text, codes, is_empty, as_bytes, byte_len, utf8}

abbrev pub is_ascii_alphanumeric : ℕ → Bool
is_ascii_alphanumeric b =
    leb b'0' b && leb b b'9' || leb b'a' b && leb b b'z' || leb b'A' b && leb b b'Z'

-- The test `ok` of the loop.
unfoldable pub is_name_byte : ℕ → Bool
is_name_byte b = is_ascii_alphanumeric b || b == b'.' || b == b'-' || b == b'_'

-- The loop over the bytes; the result is `all_dots` at its end.
unfoldable pub check_bytes : List ℕ → Bool → Result Bool Text
check_bytes [] all_dots = ok all_dots
check_bytes (b ∷ bs) all_dots =
    if not (is_name_byte b)
    then err (codes "filename contains disallowed character")
    else check_bytes bs (if b == b'.' then all_dots else false)

check_dots : Text → Result Bool Text → Result Text Text
check_dots name (err e) = err e
check_dots name (ok true) = err (codes "filename consists only of dots")
check_dots name (ok false) = ok name

unfoldable pub validate_filename : Text → Result Text Text
unfolding check_bytes check_dots
validate_filename name =
    if is_empty name
    then err (codes "filename is empty")
    else if ltb 255 (byte_len name)
    then err (codes "filename too long")
    else check_dots name (check_bytes (as_bytes name) true)

-- What the validator promises, said without its loop.
pub record IsFilename (name : Text) : Type 0 where
  pub name_chars : All (λ c. is_name_byte c ≡ true) name
  pub not_dots : all (λ c. c == b'.') name ≡ false
  pub fits : length name ≤ 255

abbrev pub NameChars : List ℕ → Type 0
NameChars = All (λ c. is_name_byte c ≡ true)

abbrev all_dotted : List ℕ → Bool
all_dotted = all (λ c. c == b'.')

check_bytes-ok :
    (bs : List ℕ) (d : Bool) → NameChars bs → check_bytes bs d ≡ ok (d && all_dotted bs)
unfolding check_bytes
check_bytes-ok [] d h = ground arith
check_bytes-ok (b ∷ bs) d h =
    rw h.0 (ground (arith, check_bytes-ok bs (if b == b'.' then d else false) h.1))

check_bytes_sound :
    (bs : List ℕ) (d r : Bool) → check_bytes bs d ≡ ok r → NameChars bs × (r ≡ (d && all_dotted bs))
unfolding check_bytes
check_bytes_sound [] d r h = ground arith
check_bytes_sound (b ∷ bs) d r h =
    ground (arith, check_bytes_sound bs (if b == b'.' then d else false) r)

-- A name of name bytes is ASCII, so its bytes are its characters.
pub as_bytes-name : (s : Text) → NameChars s → as_bytes s ≡ s
unfolding is_name_byte
as_bytes-name [] h = refl
as_bytes-name (c ∷ s) h = ground (arith, as_bytes-name s h.1)

name_utf8 :
    (c : ℕ) (rest : List ℕ) → NameChars (utf8 c ++ rest) → (is_name_byte c ≡ true) × NameChars rest
unfolding is_name_byte
name_utf8 c rest h = ground arith

name-as_bytes : (s : Text) → NameChars (as_bytes s) → NameChars s
name-as_bytes [] h = tt
name-as_bytes (c ∷ s) h =
    let (here, rest) = name_utf8 c (as_bytes s) h in (here, name-as_bytes s rest)

pub validate_filename_complete : (name : Text) → IsFilename name → validate_filename name ≡ ok name
unfolding validate_filename
validate_filename_complete [] h = cc h.not_dots
validate_filename_complete (c ∷ s) h =
    rw (as_bytes-name (c ∷ s) h.name_chars, check_bytes-ok (c ∷ s) true h.name_chars, h.not_dots)
      (ground (arith, h.fits))

check_dots-ok :
    (name n : Text) (r : Result Bool Text) → check_dots name r ≡ ok n → (r ≡ ok false) × (n ≡ name)
unfolding check_dots
check_dots-ok name n (ok true) h = cc
check_dots-ok name n (ok false) h = ground arith
check_dots-ok name n (err e) h = cc

validated :
    (name n : Text)
    → validate_filename name ≡ ok n
    → (check_dots name (check_bytes (as_bytes name) true) ≡ ok n) × (length (as_bytes name) ≤ 255)
unfolding validate_filename
validated name n h = ground arith

pub validate_filename_sound :
    (name n : Text) → validate_filename name ≡ ok n → (n ≡ name) × IsFilename name
validate_filename_sound name n h =
    let (dots, fits) = validated name n h in
    let (passed, same) = check_dots-ok name n _ dots in
    let (chars, flag) = check_bytes_sound (as_bytes name) true false passed in
    let ascii = name-as_bytes name chars in
    (
      same,
      record {
        name_chars = ascii;
        not_dots = ap all_dotted (sym (as_bytes-name name ascii)) ∙ sym flag;
        fits = rw (as_bytes-name name ascii) at fits;
      },
    )

-- The validator returns a name exactly if it has 1 to 255 characters, each a letter, a digit, a
-- dot, a dash or an underscore, and is not dots alone.
pub validate_filename_iff : (name : Text) → (validate_filename name ≡ ok name) ↔ IsFilename name
validate_filename_iff name =
    (λ h. (validate_filename_sound name name h).1, validate_filename_complete name)
