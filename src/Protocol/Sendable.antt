-- ===== src/Protocol/Sendable.antt =====
-- What a command must hold to be sent on one line, and how `parse_line` of src/protocol.rs cuts
-- such a line.
use ouroboros_fs.Base.{
  ℕ, ◌≤◌, ◌≡◌, ◌≢◌, refl, ap, ◌∙◌, Bool, true, false, [], ◌∷◌, ◌++◌, arith, All-mono, ◌==◌, all,
  not,
}
use ouroboros_fs.Text.{
  Text, trim, is_empty, to_ascii_uppercase, Free, Lacks, is_whitespace, is_eol, trim-Free,
  trim_eol-line,
}
use ouroboros_fs.Text.Pieces.{splitn, splitn-more}
use ouroboros_fs.Text.Decimal.{
  decimal, decimal-AllDigits, decimal-ne-nil, max_u16, max_u32, max_u64,
}
use ouroboros_fs.Protocol.Filename.{IsFilename, is_name_byte}
use ouroboros_fs.Protocol.Command.{
  Command, node_next, node_heal_hop, node_heal_done, ring_forward, topology_hop, topology_done,
  topology_set, netmap_hop, netmap_done, netmap_set, file_push, file_pull, file_tags_set,
  file_push_chunk, file_get_chunk, file_backup_push, file_get_backup_chunk, file_content_push,
}
use ouroboros_fs.Protocol.Parse.{parse_line, dispatch}
use ouroboros_fs.Protocol.Wire.{◌▸◌}

-- A field: not empty, and without white space.
pub record IsField (s : Text) : Type 0 where
  pub plain : Free is_whitespace s
  pub present : is_empty s ≡ false

-- No line break.
abbrev pub Clean : Text → Type 0
Clean s = all (λ c. not (is_eol c)) s ≡ true

-- What a command must hold to be written on one line.
abbrev pub IsSendable : Command → Type 0
IsSendable (node_next addr) = IsField addr
IsSendable (node_heal_hop token start) = IsField token × IsField start
IsSendable (node_heal_done token) = IsField token
IsSendable (ring_forward ttl msg) = (ttl ≤ max_u32) × Clean msg
IsSendable (topology_hop token start history) = IsField token × IsField start × Clean history
IsSendable (topology_done token history) = IsField token × Clean history
IsSendable (topology_set history) = Clean history
IsSendable (netmap_hop token start entries) = IsField token × IsField start × Clean entries
IsSendable (netmap_done token entries) = IsField token × Clean entries
IsSendable (netmap_set entries) = Free is_whitespace entries
IsSendable (file_push size name) = (size ≤ max_u64) × IsFilename name
IsSendable (file_pull name) = IsFilename name
IsSendable (file_tags_set entries) = Clean entries
IsSendable (file_push_chunk name chunk_size file_size parts index start_port) =
    IsFilename name
    × (chunk_size ≤ max_u64)
    × (file_size ≤ max_u64)
    × (parts ≤ max_u32)
    × (index ≤ max_u32)
    × (start_port ≤ max_u16)
IsSendable (file_get_chunk name) = IsFilename name
IsSendable (file_backup_push name size) = IsFilename name × (size ≤ max_u64)
IsSendable (file_get_backup_chunk name) = IsFilename name
IsSendable (file_content_push name size) = IsFilename name × (size ≤ max_u64)
IsSendable _ = Unit

pub space-Lacks : (s : Text) → Free is_whitespace s → Lacks b' ' s
space-Lacks s h = All-mono s (λ c e. ground arith) h

pub whitespace-eol : (s : Text) → Free is_whitespace s → Free is_eol s
whitespace-eol s h = All-mono s (λ c e. ground arith) h

pub is_empty-false : (s : Text) → s ≢ [] → is_empty s ≡ false
is_empty-false [] h = absurd (h refl)
is_empty-false (c ∷ s) h = refl

pub decimal-IsField : (n : ℕ) → IsField (decimal n)
decimal-IsField n = record {
  plain = All-mono (decimal n) (λ c e. ground arith) (decimal-AllDigits n);
  present = is_empty-false (decimal n) (decimal-ne-nil n);
}

filename_present : (s : Text) → IsFilename s → is_empty s ≡ false
filename_present [] h = cc h.not_dots
filename_present (c ∷ s) h = refl

pub filename-IsField : {s : Text} → IsFilename s → IsField s
unfolding is_name_byte
filename-IsField {s} h = record {
  plain = All-mono s (λ c e. ground arith) h.name_chars;
  present = filename_present s h;
}

Free-check : (p : ℕ → Bool) (s : Text) → all (λ c. not (p c)) s ≡ true → Free p s
Free-check p [] h = tt
Free-check p (c ∷ s) h = (ground arith, Free-check p s (ground arith))

check-Free : (p : ℕ → Bool) (s : Text) → Free p s → all (λ c. not (p c)) s ≡ true
check-Free p [] h = refl
check-Free p (c ∷ s) h = ground (arith, check-Free p s h.1)

pub Clean-▸ : (a b : Text) → Clean a → Clean b → Clean (a ▸ b)
Clean-▸ [] b ha hb = hb
Clean-▸ (c ∷ a) b ha hb = ground (arith, Clean-▸ a b)

pub Clean-field : {s : Text} → IsField s → Clean s
Clean-field {s} h = check-Free is_eol s (whitespace-eol s h.plain)

pub trim-field : {s : Text} → IsField s → trim s ≡ s
trim-field {s} h = trim-Free s h.plain

pub space-field : {s : Text} → IsField s → Lacks b' ' s
space-field {s} h = space-Lacks s h.plain

-- A clean line is cut at the first space, and the namespace is looked up.
pub line-dispatch :
    (noun rest : Text)
    → all (λ c. not (c == b' ')) noun ≡ true
    → Clean (noun ▸ rest)
    → parse_line ((noun ▸ rest) ++ b'\n' ∷ []) ≡ dispatch (to_ascii_uppercase noun) rest
unfolding parse_line
line-dispatch noun rest h f =
    rw
      (
        trim_eol-line (noun ▸ rest) (Free-check is_eol (noun ▸ rest) f),
        splitn-more 0 b' ' noun rest (Free-check (λ c. c == b' ') noun h),
      )
      (unfold splitn in refl)

-- The fields of a cut.
pub two_fields : (a b : Text) → IsField a → splitn 2 b' ' (a ▸ b) ≡ a ∷ b ∷ []
unfolding splitn
two_fields a b fa = splitn-more 0 b' ' a b (space-field fa)

pub three_fields :
    (a b c : Text) → IsField a → IsField b → splitn 3 b' ' (a ▸ b ▸ c) ≡ a ∷ b ∷ c ∷ []
three_fields a b c fa fb =
    splitn-more 1 b' ' a (b ▸ c) (space-field fa) ∙ ap (λ r. a ∷ r) (two_fields b c fb)

pub Clean-white : (s : Text) → Free is_whitespace s → Clean s
Clean-white s h = check-Free is_eol s (whitespace-eol s h)
