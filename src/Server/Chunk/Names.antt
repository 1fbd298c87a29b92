-- ===== src/Server/Chunk/Names.antt =====
-- `chunk_file_name` of src/server.rs against the parent name of its receiver and against
-- `validate_filename` of src/protocol.rs.
use mathlib.Core.Option.{some-injective}
use ouroboros_fs.Base.{
  ℕ, ◌+◌, ◌-◌, ◌<◌, ◌≤◌, ◌≡◌, refl, sym, ap, ◌∙◌, ◌↔◌, true, false, [], ◌∷◌, ◌++◌, some, length,
  length-append, replicate, length-replicate, All-append, All-mono, all, arith, ◌==◌, ok, err,
}
use ouroboros_fs.Text.{Text, codes, Lacks, is_empty, byte_len}
use ouroboros_fs.Text.Pieces.{
  rsplit_once_str, rsplit_once_str-lem, rsplit_once_str-none, split_once, split_once-lem,
}
use ouroboros_fs.Text.Decimal.{
  decimal, decimal-AllDigits, AllDigits, zeros-AllDigits, parse_uint, parse_uint-zeros, max_u32,
}
use ouroboros_fs.Protocol.Filename.{
  IsFilename, is_name_byte, validate_filename, validate_filename_complete, validate_filename_sound,
  as_bytes-name, NameChars,
}
use ouroboros_fs.Server.Chunk.{chunk_file_name, three_digits, parent_name}

three_digits-AllDigits : (n : ℕ) → AllDigits (three_digits n)
unfolding three_digits
three_digits-AllDigits n =
    zeros-AllDigits (3 - length (decimal n)) (decimal n) (decimal-AllDigits n)

digits-Lacks : (c : ℕ) (s : Text) → c < b'0' → AllDigits s → Lacks c s
digits-Lacks c s h d = All-mono s (λ x e. ground arith) d

-- What stands behind `.part-`.
abbrev suffix : ℕ → ℕ → Text
suffix i p = three_digits (i + 1) ++ (codes "-of-" ++ three_digits p)

suffix-no_dot : (i p : ℕ) → Lacks b'.' (suffix i p)
suffix-no_dot i p =
    All-append (λ c. (c == b'.') ≡ false) (three_digits (i + 1)) _
      (digits-Lacks b'.' _ (omega arith) (three_digits-AllDigits (i + 1)))
      (refl, (refl, (refl, (refl, digits-Lacks b'.' _ (omega arith) (three_digits-AllDigits p)))))

chunk-cut :
    (name : Text) (i p : ℕ)
    → rsplit_once_str (codes ".part-") (chunk_file_name name i p) ≡ some (name, suffix i p)
unfolding chunk_file_name
chunk-cut name i p = rsplit_once_str-lem b'.' (codes "part-") name (suffix i p) (
    rsplit_once_str-none b'.' (codes "part-") (codes "part-" ++ suffix i p)
      (refl, (refl, (refl, (refl, (refl, suffix-no_dot i p))))))

-- The owner of a chunk recovers the file's name from the chunk's, whatever dots and parts that
-- name holds.
pub parent_name-chunk_file_name :
    (name : Text) (i p : ℕ) → parent_name (chunk_file_name name i p) ≡ name
unfolding parent_name
parent_name-chunk_file_name name i p = rw (chunk-cut name i p)

suffix-cut :
    (i p : ℕ)
    → split_once b'-' (suffix i p) ≡ some (three_digits (i + 1), codes "of-" ++ three_digits p)
suffix-cut i p =
    split_once-lem b'-' (three_digits (i + 1)) (codes "of-" ++ three_digits p)
      (digits-Lacks b'-' _ (omega arith) (three_digits-AllDigits (i + 1)))

three_digits-injective :
    (n m : ℕ) → n ≤ max_u32 → m ≤ max_u32 → three_digits n ≡ three_digits m → n ≡ m
unfolding three_digits
three_digits-injective n m hn hm e = some-injective _ _ (
    sym (parse_uint-zeros max_u32 (3 - length (decimal n)) n hn)
    ∙ ap (parse_uint max_u32) e
    ∙ parse_uint-zeros max_u32 (3 - length (decimal m)) m hm)

of-injective : (a b : Text) → codes "of-" ++ a ≡ codes "of-" ++ b → a ≡ b
of-injective a b e = cc

-- Chunks of different files, indices or counts have different names, for indices below and counts
-- up to 2^32 - 1.
pub chunk_file_name-injective :
    (a b : Text) (i j p q : ℕ)
    → i < max_u32
    → j < max_u32
    → p ≤ max_u32
    → q ≤ max_u32
    → chunk_file_name a i p ≡ chunk_file_name b j q
    → (a ≡ b) × (i ≡ j) × (p ≡ q)
chunk_file_name-injective a b i j p q hi hj hp hq e =
    let cut =
      some-injective _ _
        (sym (chunk-cut a i p) ∙ ap (rsplit_once_str (codes ".part-")) e ∙ chunk-cut b j q) in
    let inner =
      some-injective _ _
        (sym (suffix-cut i p) ∙ ap (λ x. split_once b'-' x.1) cut ∙ suffix-cut j q) in
    let index =
      three_digits-injective (i + 1) (j + 1) (omega arith) (omega arith) (ap (λ x. x.0) inner) in
    (
      ap (λ x. x.0) cut,
      omega arith,
      three_digits-injective p q hp hq (of-injective _ _ (ap (λ x. x.1) inner)),
    )

digits-NameChars : (s : Text) → AllDigits s → NameChars s
unfolding is_name_byte
digits-NameChars s h = All-mono s (λ c e. ground arith) h

chunk-NameChars : (name : Text) (i p : ℕ) → NameChars name → NameChars (chunk_file_name name i p)
unfolding chunk_file_name is_name_byte
chunk-NameChars name i p h =
    All-append (λ c. is_name_byte c ≡ true) name _ h
      (
        refl,
        (
          refl,
          (
            refl,
            (
              refl,
              (
                refl,
                (
                  refl,
                  All-append (λ c. is_name_byte c ≡ true) (three_digits (i + 1)) _
                      (digits-NameChars _ (three_digits-AllDigits (i + 1)))
                      (refl, (refl, (refl, (refl, digits-NameChars _ (three_digits-AllDigits p))))),
                ),
              ),
            ),
          ),
        ),
      )

chunk-not_dots : (name : Text) (i p : ℕ) → all (λ c. c == b'.') (chunk_file_name name i p) ≡ false
unfolding chunk_file_name
chunk-not_dots name i p = dots name (suffix i p)
  where
    dots : (a r : Text) → all (λ c. c == b'.') (a ++ (codes ".part-" ++ r)) ≡ false
    dots [] r = refl
    dots (c ∷ a) r = ground (arith, dots a r)

-- The name of a chunk of a valid file passes the validator exactly if it has at most 255
-- characters.
pub validate-chunk_file_name :
    (name : Text) (i p : ℕ)
    → IsFilename name
    → (validate_filename (chunk_file_name name i p) ≡ ok (chunk_file_name name i p))
      ↔ (length (chunk_file_name name i p) ≤ 255)
validate-chunk_file_name name i p h = (
  λ e. (validate_filename_sound _ _ e).1.fits,
  λ l. validate_filename_complete _ (record {
    name_chars = chunk-NameChars name i p h.name_chars;
    not_dots = chunk-not_dots name i p;
    fits = l;
  }),
)

three_digits-ge : (n : ℕ) → 3 ≤ length (three_digits n)
unfolding three_digits
three_digits-ge n = omega (
  arith,
  length-append (replicate (3 - length (decimal n)) b'0') (decimal n),
  length-replicate {A = ℕ} (3 - length (decimal n)) b'0',
)

chunk-ge : (name : Text) (i p : ℕ) → length name + 16 ≤ length (chunk_file_name name i p)
unfolding chunk_file_name
chunk-ge name i p = omega (
  arith,
  length-append name (codes ".part-" ++ suffix i p),
  length-append (three_digits (i + 1)) (codes "-of-" ++ three_digits p),
  three_digits-ge (i + 1),
  three_digits-ge p,
)

too_long :
    (s : Text)
    → is_empty s ≡ false
    → 255 < byte_len s
    → validate_filename s ≡ err (codes "filename too long")
unfolding validate_filename
too_long s e h = ground arith

-- A valid file name of 240 characters or more has chunk names that the validator refuses as too
-- long.
pub chunk_file_name_too_long :
    (name : Text) (i p : ℕ)
    → IsFilename name
    → 240 ≤ length name
    → validate_filename (chunk_file_name name i p) ≡ err (codes "filename too long")
chunk_file_name_too_long name i p h l =
    let s = chunk_file_name name i p in
    let ge = chunk-ge name i p in
    let same : byte_len s ≡ length s =
      ap length (as_bytes-name s (chunk-NameChars name i p h.name_chars)) in
    too_long s (nonempty s (omega arith)) (omega arith)
  where
    nonempty : (s : Text) → 0 < length s → is_empty s ≡ false
    nonempty [] h = absurd (omega arith)
    nonempty (c ∷ s) h = refl
