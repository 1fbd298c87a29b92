-- ===== src/Protocol/RoundTrip/File.antt =====
-- `parse_line` of src/protocol.rs on the lines of the namespace FILE.
use ouroboros_fs.Base.{ℕ, ◌≤◌, ◌≡◌, refl, ◌∙◌, [], ◌∷◌, ok}
use ouroboros_fs.Text.{Text, Lacks, codes}
use ouroboros_fs.Text.Pieces.{splitn, splitn-more, splitn-last}
use ouroboros_fs.Text.Decimal.{decimal, parse_uint-decimal, max_u16, max_u32, max_u64}
use ouroboros_fs.Protocol.Filename.{IsFilename, validate_filename_complete}
use ouroboros_fs.Protocol.Command.{
  file_push, file_pull, file_tags_set, file_push_chunk, file_get_chunk, file_backup_push,
  file_get_backup_chunk, file_content_push,
}
use ouroboros_fs.Protocol.Parse.{parse_line, dispatch, parse_file_cmd}
use ouroboros_fs.Protocol.Wire.{wire, ◌▸◌}
use ouroboros_fs.Protocol.Sendable.{
  IsField, IsSendable, Clean, line-dispatch, two_fields, Clean-▸, Clean-field, trim-field,
  space-field, decimal-IsField, filename-IsField,
}

pub file_pull_lem : (n : Text) → IsFilename n → parse_line (wire (file_pull n)) ≡ ok (file_pull n)
unfolding wire
file_pull_lem n v =
    line-dispatch (codes "FILE") (codes "PULL" ▸ n) refl (Clean-field (filename-IsField v))
    ∙ (unfold dispatch parse_file_cmd in
        rw (
          trim-field (filename-IsField v),
          (filename-IsField v).present,
          validate_filename_complete n v,
        ))

pub file_get_chunk_lem :
    (n : Text) → IsFilename n → parse_line (wire (file_get_chunk n)) ≡ ok (file_get_chunk n)
unfolding wire
file_get_chunk_lem n v =
    line-dispatch (codes "FILE") (codes "GET-CHUNK" ▸ n) refl (Clean-field (filename-IsField v))
    ∙ (unfold dispatch parse_file_cmd in
        rw (
          trim-field (filename-IsField v),
          (filename-IsField v).present,
          validate_filename_complete n v,
        ))

pub file_get_backup_chunk_lem :
    (n : Text)
    → IsFilename n
    → parse_line (wire (file_get_backup_chunk n)) ≡ ok (file_get_backup_chunk n)
unfolding wire
file_get_backup_chunk_lem n v =
    line-dispatch (codes "FILE") (codes "GET-BACKUP-CHUNK" ▸ n) refl
      (Clean-field (filename-IsField v))
    ∙ (unfold dispatch parse_file_cmd in
        rw (
          trim-field (filename-IsField v),
          (filename-IsField v).present,
          validate_filename_complete n v,
        ))

pub file_tags_set_lem :
    (s : Text) → Clean s → parse_line (wire (file_tags_set s)) ≡ ok (file_tags_set s)
unfolding wire
file_tags_set_lem s c =
    line-dispatch (codes "FILE") (codes "TAGS-SET" ▸ s) refl (c)
    ∙ (unfold dispatch parse_file_cmd in refl)

pub file_push_lem :
    (k : ℕ) (n : Text)
    → k ≤ max_u64
    → IsFilename n
    → parse_line (wire (file_push k n)) ≡ ok (file_push k n)
unfolding wire
file_push_lem k n h v =
    line-dispatch (codes "FILE") (codes "PUSH" ▸ decimal k ▸ n) refl
      (Clean-▸ (decimal k) n (Clean-field (decimal-IsField k)) (Clean-field (filename-IsField v)))
    ∙ (unfold dispatch parse_file_cmd in
        rw (
          two_fields (decimal k) n (decimal-IsField k),
          trim-field (filename-IsField v),
          (filename-IsField v).present,
          validate_filename_complete n v,
          trim-field (decimal-IsField k),
          parse_uint-decimal max_u64 k h,
        ))

pub file_backup_push_lem :
    (n : Text) (k : ℕ)
    → IsFilename n
    → k ≤ max_u64
    → parse_line (wire (file_backup_push n k)) ≡ ok (file_backup_push n k)
unfolding wire
file_backup_push_lem n k v h =
    line-dispatch (codes "FILE") (codes "BACKUP-PUSH" ▸ n ▸ decimal k) refl
      (Clean-▸ n (decimal k) (Clean-field (filename-IsField v)) (Clean-field (decimal-IsField k)))
    ∙ (unfold dispatch parse_file_cmd in
        rw (
          two_fields n (decimal k) (filename-IsField v),
          trim-field (filename-IsField v),
          (filename-IsField v).present,
          validate_filename_complete n v,
          trim-field (decimal-IsField k),
          parse_uint-decimal max_u64 k h,
        ))

pub file_content_push_lem :
    (n : Text) (k : ℕ)
    → IsFilename n
    → k ≤ max_u64
    → parse_line (wire (file_content_push n k)) ≡ ok (file_content_push n k)
unfolding wire
file_content_push_lem n k v h =
    line-dispatch (codes "FILE") (codes "CONTENT-PUSH" ▸ n ▸ decimal k) refl
      (Clean-▸ n (decimal k) (Clean-field (filename-IsField v)) (Clean-field (decimal-IsField k)))
    ∙ (unfold dispatch parse_file_cmd in
        rw (
          two_fields n (decimal k) (filename-IsField v),
          trim-field (filename-IsField v),
          (filename-IsField v).present,
          validate_filename_complete n v,
          trim-field (decimal-IsField k),
          parse_uint-decimal max_u64 k h,
        ))

-- The six fields of a PUSH-CHUNK header.
six_fields :
    (n : Text) (a b c d e : ℕ)
    → IsField n
    → splitn 6 b' ' (n ▸ decimal a ▸ decimal b ▸ decimal c ▸ decimal d ▸ decimal e)
      ≡ n ∷ decimal a ∷ decimal b ∷ decimal c ∷ decimal d ∷ decimal e ∷ []
six_fields n a b c d e f = rw (
  splitn-more 4 b' ' n _ (space-field f),
  splitn-more 3 b' ' (decimal a) _ (space-decimal a),
  splitn-more 2 b' ' (decimal b) _ (space-decimal b),
  splitn-more 1 b' ' (decimal c) _ (space-decimal c),
  splitn-more 0 b' ' (decimal d) _ (space-decimal d),
  splitn-last 0 b' ' (decimal e) (space-decimal e),
)
  where
    space-decimal : (k : ℕ) → Lacks b' ' (decimal k)
    space-decimal k = space-field (decimal-IsField k)

number-▸ : (k : ℕ) (s : Text) → Clean s → Clean (decimal k ▸ s)
number-▸ k s c = Clean-▸ (decimal k) s (Clean-field (decimal-IsField k)) c

pub file_push_chunk_lem :
    (n : Text) (a b c d e : ℕ)
    → IsSendable (file_push_chunk n a b c d e)
    → parse_line (wire (file_push_chunk n a b c d e)) ≡ ok (file_push_chunk n a b c d e)
unfolding wire
file_push_chunk_lem n a b c d e (v, ha, hb, hc, hd, he) =
    let f = filename-IsField v in
    line-dispatch (codes "FILE")
      (codes "PUSH-CHUNK" ▸ n ▸ decimal a ▸ decimal b ▸ decimal c ▸ decimal d ▸ decimal e) refl
      (Clean-▸ n _ (Clean-field f) (
        number-▸ a _
          (number-▸ b _ (number-▸ c _ (number-▸ d _ (Clean-field (decimal-IsField e)))))))
    ∙ (unfold dispatch parse_file_cmd in
        rw (
          six_fields n a b c d e f,
          trim-field f,
          f.present,
          validate_filename_complete n v,
          trim-field (decimal-IsField a),
          parse_uint-decimal max_u64 a ha,
          trim-field (decimal-IsField b),
          parse_uint-decimal max_u64 b hb,
          trim-field (decimal-IsField c),
          parse_uint-decimal max_u32 c hc,
          trim-field (decimal-IsField d),
          parse_uint-decimal max_u32 d hd,
          trim-field (decimal-IsField e),
          parse_uint-decimal max_u16 e he,
        ))
