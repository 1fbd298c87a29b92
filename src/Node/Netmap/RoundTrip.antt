-- ===== src/Node/Netmap/RoundTrip.antt =====
-- `parse_entries` of src/node.rs on what `serialize_entries` writes.
use ouroboros_fs.Base.{
  ◌≡◌, refl, ap, ◌∙◌, false, [], ◌∷◌, ◌++◌, Option, none, some, if◌then◌else◌, All, All-append,
  All-mono, unwrap_or, ◌==◌,
}
use ouroboros_fs.Text.{Text, eq_text, trim, trim-Free, is_empty, Free, Lacks, is_whitespace}
use ouroboros_fs.Text.Pieces.{splitn, splitn-more}
use ouroboros_fs.Map.{Map, get, insert, keys, get-insert, All-keys-insert}
use ouroboros_fs.Map.Sort.{sort_keys, All-sort_keys}
use ouroboros_fs.Map.Codec.{IsEntry, at, get-table, read_pieces-join}
use ouroboros_fs.Node.{Node}
use ouroboros_fs.Node.Status.{NodeStatus, alive, dead}
use ouroboros_fs.Node.Address.{port_str}
use ouroboros_fs.Node.Netmap.{
  read_entry, read_status, parse_entries, serialize_entries, entry_text, status_text,
  entries_with_self,
}

-- A key of the netmap: a port, or anything without white space, `,` and `=`.
pub record IsPortKey (k : Text) : Type 0 where
  pub plain : Free is_whitespace k
  pub present : is_empty k ≡ false
  pub no_comma : Lacks b',' k
  pub no_equals : Lacks b'=' k

-- The words for a status are plain.
status-plain : (o : Option NodeStatus) → Free is_whitespace (status_text o)
status-plain none = (refl, (refl, (refl, (refl, (refl, tt)))))
status-plain (some alive) = (refl, (refl, (refl, (refl, (refl, tt)))))
status-plain (some dead) = (refl, (refl, (refl, (refl, tt))))

status-comma : (o : Option NodeStatus) → Lacks b',' (status_text o)
status-comma none = (refl, (refl, (refl, (refl, (refl, tt)))))
status-comma (some alive) = (refl, (refl, (refl, (refl, (refl, tt)))))
status-comma (some dead) = (refl, (refl, (refl, (refl, tt))))

read_status-text : (o : Option NodeStatus) → read_status (status_text o) ≡ unwrap_or o alive
unfolding read_status
read_status-text none = refl
read_status-text (some alive) = refl
read_status-text (some dead) = refl

present-append : (k r : Text) → is_empty k ≡ false → is_empty (k ++ r) ≡ false
present-append [] r h = cc
present-append (c ∷ k) r h = refl

read_entry-written :
    (k : Text) (o : Option NodeStatus) (m : Map NodeStatus)
    → IsPortKey k
    → read_entry m (k ++ b'=' ∷ status_text o) ≡ insert m k (unwrap_or o alive)
unfolding read_entry
read_entry-written k o m h =
    let s = status_text o in
    let plain =
      All-append (λ c. is_whitespace c ≡ false) k (b'=' ∷ s) h.plain (refl, status-plain o) in
    rw
      (
        trim-Free (k ++ b'=' ∷ s) plain,
        present-append k (b'=' ∷ s) h.present,
        splitn-more 0 b'=' k s h.no_equals,
      )
      (unfold splitn in
        rw (trim-Free k h.plain, trim-Free s (status-plain o), h.present, read_status-text o))

pub entry_text-IsEntry :
    (m : Map NodeStatus) (k : Text)
    → IsPortKey k
    → IsEntry b',' (entry_text m) read_entry (at m alive) k
unfolding entry_text
entry_text-IsEntry m k h = record {
  apart =
      All-append (λ c. (c == b',') ≡ false) k (b'=' ∷ status_text (get m k)) h.no_comma
        (refl, status-comma (get m k));
  inserts = λ n. read_entry-written k (get m k) n h;
}

-- A netmap comes back from its text with the same status at every key, if its keys are words
-- without white space, `,` and `=`.
pub parse-serialize_entries :
    (m : Map NodeStatus)
    → All IsPortKey (keys m)
    → (j : Text) → get (parse_entries (serialize_entries m)) j ≡ get m j
unfolding parse_entries serialize_entries
parse-serialize_entries m h j =
    let ks = sort_keys (keys m) in
    let entries =
      All-mono ks (λ k e. entry_text-IsEntry m k e) (All-sort_keys IsPortKey (keys m) h) in
    ap (λ n. get n j)
      (read_pieces-join b',' (entry_text m) read_entry (at m alive) [] ks
        (unfold read_entry trim in refl) entries)
    ∙ get-table m alive j

-- The entries that a hop sends on read as the node itself alive and the others as they were, if
-- every key is a word without white space, `,` and `=`.
pub parse-entries_with_self :
    (n : Node) (entries : Text)
    → IsPortKey (port_str n.port)
    → All IsPortKey (keys (parse_entries entries))
    → (j : Text)
    → get (parse_entries (entries_with_self n entries)) j
      ≡ (if eq_text (port_str n.port) j then some alive else get (parse_entries entries) j)
unfolding entries_with_self
parse-entries_with_self n entries hp h j =
    let m = parse_entries entries in
    parse-serialize_entries (insert m (port_str n.port) alive)
      (All-keys-insert IsPortKey m (port_str n.port) alive hp h) j
    ∙ get-insert m (port_str n.port) j alive
