-- ===== src/Node/Tags/RoundTrip.antt =====
-- `set_file_tags_from_entries` of src/node.rs on what `get_file_tags_entries` writes.
use ouroboros_fs.Base.{
  ℕ, ◌≤◌, ◌≡◌, refl, ap, ◌∙◌, Bool, false, [], ◌∷◌, ◌++◌, All, All-append, All-mono, ◌==◌, arith,
}
use ouroboros_fs.Text.{Text, is_empty, Lacks, Free}
use ouroboros_fs.Text.Pieces.{splitn, splitn-more, splitn-last, replace}
use ouroboros_fs.Text.Decimal.{
  decimal, decimal-AllDigits, parse_uint-decimal, max_u16, max_u32, max_u64,
}
use ouroboros_fs.Map.{Map, get, insert, keys}
use ouroboros_fs.Map.Sort.{sort_keys, All-sort_keys}
use ouroboros_fs.Map.Codec.{IsEntry, at, get-table, read_pieces-join}
use ouroboros_fs.Node.{FileTag}
use ouroboros_fs.Node.Tags.{
  is_separator, no_tag, tag_text, tags_text, add_parts, read_tag, parse_tags,
}

-- A tag whose numbers fit their types, under a name without `:` and `;`.
pub record IsTag (name : Text) (t : FileTag) : Type 0 where
  pub plain : Free is_separator name
  pub start_fits : t.start ≤ max_u16
  pub size_fits : t.size ≤ max_u64
  pub parts_fit : t.parts ≤ max_u32

replace-Free : (p : ℕ → Bool) (by : ℕ) (s : Text) → Free p s → replace p by s ≡ s
replace-Free p by [] h = refl
replace-Free p by (c ∷ s) h = rw (h.0, replace-Free p by s h.1)

decimal-Free : (n : ℕ) → Free is_separator (decimal n)
decimal-Free n = All-mono (decimal n) (λ c e. ground arith) (decimal-AllDigits n)

colon : (s : Text) → Free is_separator s → Lacks b':' s
colon s h = All-mono s (λ c e. ground arith) h

semicolon : (s : Text) → Free is_separator s → Lacks b';' s
semicolon s h = All-mono s (λ c e. ground arith) h

present : (a b : Text) (c : ℕ) → is_empty (a ++ c ∷ b) ≡ false
present [] b c = refl
present (d ∷ a) b c = refl

module _ (k : Text) (t : FileTag) (h : IsTag k t) where
  pieces :
      splitn 4 b':' (tag_text k t) ≡ k ∷ decimal t.start ∷ decimal t.size ∷ decimal t.parts ∷ []
  unfolding tag_text
  pieces = rw (
    replace-Free is_separator b'_' k h.plain,
    splitn-more 2 b':' k _ (colon k h.plain),
    splitn-more 1 b':' (decimal t.start) _ (colon _ (decimal-Free t.start)),
    splitn-more 0 b':' (decimal t.size) _ (colon _ (decimal-Free t.size)),
    splitn-last 0 b':' (decimal t.parts) (colon _ (decimal-Free t.parts)),
  )

  tag_present : is_empty (tag_text k t) ≡ false
  unfolding tag_text
  tag_present = present (replace is_separator b'_' k) _ b':'

  read_tag-tag_text : (m : Map FileTag) → read_tag m (tag_text k t) ≡ insert m k t
  unfolding read_tag add_parts
  read_tag-tag_text m = rw (
    tag_present,
    pieces,
    parse_uint-decimal max_u16 t.start h.start_fits,
    parse_uint-decimal max_u64 t.size h.size_fits,
    parse_uint-decimal max_u32 t.parts h.parts_fit,
  )

  tag_text-Lacks : Lacks b';' (tag_text k t)
  unfolding tag_text
  tag_text-Lacks = rw (replace-Free is_separator b'_' k h.plain) (
      cat k _ (semicolon k h.plain) (
        cat (decimal t.start) _ (semicolon _ (decimal-Free t.start)) (
          cat (decimal t.size) _ (semicolon _ (decimal-Free t.size))
            (semicolon _ (decimal-Free t.parts)))))
    where
      cat : (a b : Text) → Lacks b';' a → Lacks b';' b → Lacks b';' (a ++ b':' ∷ b)
      cat a b ha hb = All-append (λ c. (c == b';') ≡ false) a (b':' ∷ b) ha (refl, hb)

-- The file tags come back from their text with the same tag under every name, if the names hold no
-- `:` and no `;` and the numbers fit their types.
pub parse-tags_text :
    (m : Map FileTag)
    → All (λ k. IsTag k (at m no_tag k)) (keys m)
    → (j : Text) → get (parse_tags (tags_text m)) j ≡ get m j
unfolding parse_tags tags_text
parse-tags_text m h j =
    let ks = sort_keys (keys m) in
    let entries : All (IsEntry b';' (λ k. tag_text k (at m no_tag k)) read_tag (at m no_tag)) ks =
      All-mono ks
        (λ k e. record {
          apart = tag_text-Lacks k (at m no_tag k) e;
          inserts = read_tag-tag_text k (at m no_tag k) e;
        })
        (All-sort_keys (λ k. IsTag k (at m no_tag k)) (keys m) h) in
    ap (λ n. get n j)
      (read_pieces-join b';' (λ k. tag_text k (at m no_tag k)) read_tag (at m no_tag) [] ks
        (unfold read_tag in refl) entries)
    ∙ get-table m no_tag j
