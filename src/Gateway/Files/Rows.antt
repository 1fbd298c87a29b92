-- ===== src/Gateway/Files/Rows.antt =====
-- The rows that a node writes for FILE LIST (src/server.rs), as `fetch_file_list` of src/gateway.rs reads
-- them.
use ouroboros_fs.Base.{
  ℕ, zero, suc, ◌+◌, ◌≤◌, ◌<◌, ◌≡◌, ◌≢◌, refl, ap, ◌∙◌, Bool, true, false, ◌&&◌, List, [], ◌∷◌,
  ◌++◌, map, append_assoc, some, ◌==◌, ltb, length, length-append, positive_length, All, All-mono,
  All-append, arith, Result, ok,
}
use ouroboros_fs.Text.{
  Text, codes, trim, is_empty, trim_start_matches, trim_end_matches, trim_start-Free, trim_end-Free,
  is_whitespace, Free, Lacks, as_bytes,
}
use ouroboros_fs.Text.Pieces.{splitn, splitn-more}
use ouroboros_fs.Text.Decimal.{decimal, decimal-AllDigits, parse_uint-decimal, max_u16, max_u64}
use ouroboros_fs.Text.Utf8.{
  read_until_newline, read_until_newline-line, from_utf8, from_utf8-as_bytes, AreScalars, is_scalar,
  bytes_end, as_bytes-append,
}
use ouroboros_fs.Map.{Map, keys}
use ouroboros_fs.Map.Sort.{sort_keys, All-sort_keys}
use ouroboros_fs.Map.Codec.{at}
use ouroboros_fs.Node.{Node, FileTag}
use ouroboros_fs.Node.Tags.{no_tag}
use ouroboros_fs.Protocol.Lines.{no_break}
use ouroboros_fs.Protocol.Filename.{IsFilename, is_name_byte}
use ouroboros_fs.Server.Control.{needs_quotes, csv_escape, csv_row, csv_rows, handle_file_list_csv}
use ouroboros_fs.Gateway.Files.{
  FileInfo, unquoted, read_row, rows_before, row_text, row_line, read_rows, behind_names,
  read_file_list,
}

-- A visible ASCII character other than a comma and a quote.
plain : ℕ → Bool
plain c = ltb 0x20 c && ltb c 0x7f

Plain : Text → Type 0
Plain = All (λ c. plain c ≡ true)

trim_end-line :
    (p : ℕ → Bool) (d : ℕ) (s : Text) → p d ≡ true → Free p s → trim_end_matches p (s ++ d ∷ []) ≡ s
unfolding trim_end_matches
trim_end-line p d [] hd h = rw hd
trim_end-line p d (c ∷ []) hd h = rw (hd, h.0)
trim_end-line p d (c ∷ e ∷ s) hd h = rw (trim_end-line p d (e ∷ s) hd h.1)

trim-line : (s : Text) → Free is_whitespace s → is_empty s ≡ false → trim (s ++ b'\n' ∷ []) ≡ s
unfolding trim trim_start_matches
trim-line [] h ne = cc
trim-line (c ∷ s) h ne = rw h.0 (trim_end-line is_whitespace b'\n' (c ∷ s) refl h)

name-Plain : (s : Text) → All (λ c. is_name_byte c ≡ true) s → Plain s
unfolding plain is_name_byte Plain
name-Plain s h = All-mono s (λ c e. ground arith) h

decimal-Plain : (n : ℕ) → Plain (decimal n)
unfolding plain Plain
decimal-Plain n = All-mono (decimal n) (λ c e. ground arith) (decimal-AllDigits n)

no_quotes : (s : Text) → All (λ c. is_name_byte c ≡ true) s → needs_quotes s ≡ false
unfolding needs_quotes is_name_byte
no_quotes [] h = refl
no_quotes (c ∷ s) h = ground (arith, no_quotes s h.1)

name_escaped : (s : Text) → All (λ c. is_name_byte c ≡ true) s → csv_escape s ≡ s
unfolding csv_escape
name_escaped s h = rw (no_quotes s h)

name_unquoted : (s : Text) → All (λ c. is_name_byte c ≡ true) s → unquoted s ≡ s
unfolding unquoted is_name_byte
name_unquoted s h =
    let f : Free (λ c. c == b'"') s = All-mono s (λ c e. ground arith) h in
    ap (trim_end_matches (λ c. c == b'"')) (trim_start-Free (λ c. c == b'"') s f)
    ∙ trim_end-Free (λ c. c == b'"') s f

-- A tag that was set by a push.
pub record IsListed (name : Text) (t : FileTag) : Type 0 where
  pub valid : IsFilename name
  pub start_fits : t.start ≤ max_u16
  pub size_fits : t.size ≤ max_u64

abbrev pub info_of : Text → FileTag → FileInfo
info_of name t = record { name = name; start = t.start; size = t.size }

-- A row without its line break.
row : Text → FileTag → Text
row name t = name ++ b',' ∷ (decimal t.start ++ b',' ∷ decimal t.size)

row_ends : (name : Text) (t : FileTag) → IsListed name t → csv_row name t ≡ row name t ++ b'\n' ∷ []
unfolding csv_row row
row_ends name t l =
    rw (name_escaped name l.valid.name_chars, append_assoc name, append_assoc (decimal t.start))

row-Plain : (name : Text) (t : FileTag) → IsListed name t → Plain (row name t)
unfolding row Plain plain
row-Plain name t l =
    All-append (λ c. plain c ≡ true) name _ (name-Plain name l.valid.name_chars)
      (
        refl,
        All-append (λ c. plain c ≡ true) (decimal t.start) _ (decimal-Plain t.start)
            (refl, decimal-Plain t.size),
      )

name_comma : (s : Text) → All (λ c. is_name_byte c ≡ true) s → Lacks b',' s
unfolding is_name_byte
name_comma s h = All-mono s (λ c e. ground arith) h

decimal_comma : (n : ℕ) → Lacks b',' (decimal n)
decimal_comma n = All-mono (decimal n) (λ c e. ground arith) (decimal-AllDigits n)

row_cut :
    (name : Text) (t : FileTag)
    → IsListed name t
    → splitn 3 b',' (row name t) ≡ name ∷ decimal t.start ∷ decimal t.size ∷ []
unfolding row splitn
row_cut name t l =
    splitn-more 1 b',' name _ (name_comma name l.valid.name_chars)
    ∙ ap (λ r. name ∷ r)
        (splitn-more 0 b',' (decimal t.start) (decimal t.size) (decimal_comma t.start))

row_present : (name : Text) (t : FileTag) → is_empty (row name t) ≡ false
unfolding row
row_present [] t = refl
row_present (c ∷ name) t = refl

row_trimmed :
    (name : Text) (t : FileTag) → IsListed name t → trim (row name t ++ b'\n' ∷ []) ≡ row name t
unfolding plain Plain
row_trimmed name t l =
    trim-line (row name t) (All-mono (row name t) (λ c e. ground arith) (row-Plain name t l))
      (row_present name t)

-- A row is read as the tag that it was written for.
read_row-row :
    (name : Text) (t : FileTag)
    → IsListed name t
    → read_row (row name t ++ b'\n' ∷ []) ≡ info_of name t ∷ []
unfolding read_row
read_row-row name t l = rw (
  row_trimmed name t l,
  row_cut name t l,
  name_unquoted name l.valid.name_chars,
  parse_uint-decimal max_u16 t.start l.start_fits,
  parse_uint-decimal max_u64 t.size l.size_fits,
)

row-AreScalars :
    (name : Text) (t : FileTag) → IsListed name t → AreScalars (row name t ++ b'\n' ∷ [])
unfolding plain Plain
row-AreScalars name t l =
    All-append (λ c. is_scalar c ≡ true) (row name t) (b'\n' ∷ [])
      (All-mono (row name t) (λ c e. ground arith) (row-Plain name t l)) (refl, tt)

row_break : (name : Text) (t : FileTag) → IsListed name t → Lacks b'\n' (row name t)
unfolding plain Plain
row_break name t l = All-mono (row name t) (λ c e. ground arith) (row-Plain name t l)

text_row :
    (l reader : List ℕ) (next : List ℕ → Result (List FileInfo) Text)
    → l ≢ []
    → row_line next (l, reader) ≡ row_text (next reader) (from_utf8 l)
unfolding row_line
text_row [] reader next ne = absurd (ne refl)
text_row (b ∷ l) reader next ne = refl

row_text-row :
    (name : Text) (t : FileTag) (rest : Result (List FileInfo) Text)
    → IsListed name t
    → row_text rest (some (row name t ++ b'\n' ∷ [])) ≡ rows_before (info_of name t ∷ []) rest
unfolding row_text
row_text-row name t rest l = rw (row_trimmed name t l, row_present name t, read_row-row name t l)

module _ (m : Map FileTag) where
  abbrev pub listed : Text → FileInfo
  listed k = info_of k (at m no_tag k)

  rows_read :
      (fuel : ℕ) (ks : List Text)
      → All (λ k. IsListed k (at m no_tag k)) ks
      → length ks < fuel
      → read_rows fuel (as_bytes (csv_rows m ks)) ≡ ok (map listed ks)
  unfolding read_rows csv_rows row_line read_until_newline rows_before
  rows_read zero ks v h = absurd (omega arith)
  rows_read (suc fuel) [] v h = refl
  rows_read (suc fuel) (k ∷ ks) v h =
      let t = at m no_tag k in
      let line = row k t ++ b'\n' ∷ [] in
      let rest = as_bytes (csv_rows m ks) in
      let bytes : as_bytes (csv_row k t ++ csv_rows m ks) ≡ as_bytes line ++ rest =
        as_bytes-append (csv_row k t) (csv_rows m ks)
        ∙ ap (λ s. as_bytes s ++ rest) (row_ends k t v.0) in
      ap (λ b. row_line (read_rows fuel) (read_until_newline b)) bytes
      ∙ ap (row_line (read_rows fuel)) (read_until_newline-line (row k t) rest (row_break k t v.0))
      ∙ text_row (as_bytes line) rest (read_rows fuel) (bytes_end (row k t))
      ∙ ap (row_text (read_rows fuel rest)) (from_utf8-as_bytes line (row-AreScalars k t v.0))
      ∙ row_text-row k t (read_rows fuel rest) v.0
      ∙ ap (rows_before (listed k ∷ [])) (rows_read fuel ks v.1 (omega arith))

  rows_fuel :
      (ks : List Text)
      → All (λ k. IsListed k (at m no_tag k)) ks
      → length ks < length (as_bytes (csv_rows m ks)) + 1
  unfolding csv_rows
  rows_fuel [] v = omega arith
  rows_fuel (k ∷ ks) v =
      let t = at m no_tag k in
      omega (
        arith,
        rows_fuel ks v.1,
        ap length (as_bytes-append (csv_row k t) (csv_rows m ks)),
        length-append (as_bytes (csv_row k t)) (as_bytes (csv_rows m ks)),
        ap (λ s. length (as_bytes s)) (row_ends k t v.0),
        positive_length (as_bytes (row k t ++ b'\n' ∷ [])) (bytes_end (row k t)),
      )

names_line : Lacks b'\n' (codes "name,start,size")
names_line = no_break (codes "name,start,size") refl

-- The list that a node writes as CSV is read by the gateway as the tags' names, starts and sizes
-- in the order of their names, if every name is a valid file name and the numbers fit.
pub fetch_file_list-csv :
    (n : Node)
    → All (λ k. IsListed k (at n.file_tags no_tag k)) (keys n.file_tags)
    → read_file_list (as_bytes (handle_file_list_csv n).reply)
      ≡ ok (map (listed n.file_tags) (sort_keys (keys n.file_tags)))
unfolding read_file_list handle_file_list_csv behind_names read_rows from_utf8
fetch_file_list-csv n v =
    let m = n.file_tags in
    let ks = sort_keys (keys m) in
    let vs = All-sort_keys (λ k. IsListed k (at m no_tag k)) (keys m) v in
    let rest = as_bytes (csv_rows m ks) in
    ap (λ b. behind_names (read_until_newline b).1 (from_utf8 (read_until_newline b).0))
      (as_bytes-append (codes "name,start,size\n") (csv_rows m ks))
    ∙ ap (λ c. behind_names c.1 (from_utf8 c.0))
        (read_until_newline-line (codes "name,start,size") rest names_line)
    ∙ rows_read m (length rest + 1) ks vs (rows_fuel m ks vs)
