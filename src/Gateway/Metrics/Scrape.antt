-- ===== src/Gateway/Metrics/Scrape.antt =====
-- The counters that a node writes for NODE METRICS (src/server.rs), as `scrape_node_metrics` of
-- src/gateway.rs reads them.
use ouroboros_fs.Base.{
  ℕ, zero, suc, ◌+◌, ◌≤◌, ◌<◌, ◌≡◌, ◌≢◌, refl, sym, ap, ◌∙◌, Bool, true, false, not, ◌&&◌, List, [],
  ◌∷◌, ◌++◌, append_assoc, Option, some, ◌==◌, ltb, length, length-append, positive_length, All,
  All-mono, All-append, all, arith,
}
use ouroboros_fs.Text.{Text, codes, eq_text, trim_eol-line, is_eol, Free, as_bytes}
use ouroboros_fs.Text.Pieces.{split_once, split_once-lem}
use ouroboros_fs.Text.Decimal.{decimal, decimal-AllDigits, parse_uint-decimal, max_u64}
use ouroboros_fs.Text.Utf8.{
  read_until_newline, read_until_newline-line, from_utf8, from_utf8-as_bytes, AreScalars, is_scalar,
  bytes_end, as_bytes-append,
}
use ouroboros_fs.Node.{Node}
use ouroboros_fs.Node.Address.{port_str}
use ouroboros_fs.Node.Netmap.{alive_dead_counts}
use ouroboros_fs.Server.Control.{metric, handle_node_metrics}
use ouroboros_fs.Gateway.Metrics.{
  Samples, sample, samples_before, metric_text, metric_line, read_metrics, scraped,
}

-- A character of a key or a number.
abbrev is_key_char : ℕ → Bool
is_key_char c = ltb 0x20 c && ltb c 0x7f && not (c == b'=')

-- A key that does not begin like the closing OK.
abbrev starts_apart : Text → Bool
starts_apart [] = false
starts_apart (c ∷ s) = not (c == b'O')

IsKey : Text → Type 0
IsKey k = (all is_key_char k ≡ true) × (starts_apart k ≡ true)

-- One line without its line break.
line : Text → ℕ → Text
line k v = k ++ b'=' ∷ decimal v

-- The lines of a node, with the OK behind them.
abbrev lines : Samples → Text
lines [] = codes "OK\n"
lines ((k, v) ∷ kvs) = metric k (decimal v) ++ lines kvs

line-Ends : (k : Text) (v : ℕ) → metric k (decimal v) ≡ line k v ++ b'\n' ∷ []
unfolding line
line-Ends k v = sym (append_assoc k (b'=' ∷ decimal v) (b'\n' ∷ []))

key_chars : (k : Text) → all is_key_char k ≡ true → All (λ c. is_key_char c ≡ true) k
key_chars [] h = tt
key_chars (c ∷ k) h = (ground arith, key_chars k (ground arith))

line_chars :
    (k : Text) (v : ℕ)
    → all is_key_char k ≡ true
    → All (λ c. (ltb 0x20 c && ltb c 0x7f) ≡ true) (line k v)
unfolding line
line_chars k v h =
    All-append (λ c. (ltb 0x20 c && ltb c 0x7f) ≡ true) k _
      (All-mono k (λ c e. ground arith) (key_chars k h))
      (refl, All-mono (decimal v) (λ c e. ground arith) (decimal-AllDigits v))

line_apart : (k : Text) (v : ℕ) → starts_apart k ≡ true → eq_text (line k v) (codes "OK") ≡ false
unfolding line
line_apart [] v h = cc
line_apart (c ∷ k) v h = ground arith

line_sample :
    (k : Text) (v : ℕ)
    → all is_key_char k ≡ true
    → v ≤ max_u64
    → sample (split_once b'=' (line k v)) ≡ (k, v) ∷ []
unfolding line sample
line_sample k v h f = rw (
  split_once-lem b'=' k (decimal v) (All-mono k (λ c e. ground arith) (key_chars k h)),
  parse_uint-decimal max_u64 v f,
)

line_text :
    (k : Text) (v : ℕ) (rest : Option Samples)
    → IsKey k
    → v ≤ max_u64
    → metric_text rest (some (line k v ++ b'\n' ∷ [])) ≡ samples_before ((k, v) ∷ []) rest
unfolding metric_text IsKey
line_text k v rest h f =
    let clean : Free is_eol (line k v) =
      All-mono (line k v) (λ c e. ground arith) (line_chars k v h.0) in
    rw (trim_eol-line (line k v) clean, line_apart k v h.1, line_sample k v h.0 f)

bytes_text :
    (l reader : List ℕ) (next : List ℕ → Option Samples)
    → l ≢ []
    → metric_line next (l, reader) ≡ metric_text (next reader) (from_utf8 l)
unfolding metric_line
bytes_text [] reader next ne = absurd (ne refl)
bytes_text (b ∷ l) reader next ne = refl

IsSample : Text × ℕ → Type 0
IsSample e = IsKey (e.0) × (e.1 ≤ max_u64)

lines_read :
    (fuel : ℕ) (kvs : Samples)
    → All IsSample kvs
    → length kvs < fuel
    → read_metrics fuel (as_bytes (lines kvs)) ≡ some kvs
unfolding read_metrics metric_line metric_text read_until_newline from_utf8 samples_before IsSample
    IsKey
lines_read zero kvs v h = absurd (omega arith)
lines_read (suc fuel) [] v h = rw (trim_eol-line (codes "OK") (refl, (refl, tt)))
lines_read (suc fuel) ((k, v) ∷ kvs) (hk, hs) h =
    let l = line k v ++ b'\n' ∷ [] in
    let rest = as_bytes (lines kvs) in
    let chars = line_chars k v (hk.0.0) in
    let bytes : as_bytes (metric k (decimal v) ++ lines kvs) ≡ as_bytes l ++ rest =
      as_bytes-append (metric k (decimal v)) (lines kvs)
      ∙ ap (λ s. as_bytes s ++ rest) (line-Ends k v) in
    let scalars : AreScalars l =
      All-append (λ c. is_scalar c ≡ true) (line k v) (b'\n' ∷ [])
        (All-mono (line k v) (λ c e. ground arith) chars) (refl, tt) in
    ap (λ b. metric_line (read_metrics fuel) (read_until_newline b)) bytes
    ∙ ap (metric_line (read_metrics fuel))
        (read_until_newline-line (line k v) rest (All-mono (line k v) (λ c e. ground arith) chars))
    ∙ bytes_text (as_bytes l) rest (read_metrics fuel) (bytes_end (line k v))
    ∙ ap (metric_text (read_metrics fuel rest)) (from_utf8-as_bytes l scalars)
    ∙ line_text k v (read_metrics fuel rest) hk.0 hk.1
    ∙ ap (samples_before ((k, v) ∷ [])) (lines_read fuel kvs hs (omega arith))

lines_fuel : (kvs : Samples) → length kvs < length (as_bytes (lines kvs)) + 1
lines_fuel [] = omega arith
lines_fuel ((k, v) ∷ kvs) = omega (
  arith,
  lines_fuel kvs,
  ap length (as_bytes-append (metric k (decimal v)) (lines kvs)),
  length-append (as_bytes (metric k (decimal v))) (as_bytes (lines kvs)),
  ap (λ s. length (as_bytes s)) (line-Ends k v),
  positive_length (as_bytes (line k v ++ b'\n' ∷ [])) (bytes_end (line k v)),
)

-- The counters of a node, by their names.
unfoldable pub counters : Node → ℕ → Samples
counters n port =
    (codes "port", port)
    ∷ (codes "pushes_total", n.pushes_total)
    ∷ (codes "pulls_total", n.pulls_total)
    ∷ (codes "chunk_bytes_written_total", n.chunk_bytes_written_total)
    ∷ (codes "chunk_bytes_read_total", n.chunk_bytes_read_total)
    ∷ (codes "netmap_broadcasts_total", n.netmap_broadcasts)
    ∷ (codes "alive_nodes", (alive_dead_counts n).0)
    ∷ (codes "dead_nodes", (alive_dead_counts n).1)
    ∷ []

-- The counters fit their 64 bits.
pub record FitsCounters (n : Node) : Type 0 where
  pub pushes : n.pushes_total ≤ max_u64
  pub pulls : n.pulls_total ≤ max_u64
  pub bytes_written : n.chunk_bytes_written_total ≤ max_u64
  pub bytes_read : n.chunk_bytes_read_total ≤ max_u64
  pub broadcasts : n.netmap_broadcasts ≤ max_u64
  pub alive_count : (alive_dead_counts n).0 ≤ max_u64
  pub dead_count : (alive_dead_counts n).1 ≤ max_u64

-- The counters that a node writes on NODE METRICS are the samples that the gateway reads, if the
-- node's port is written in decimal and the counters fit 64 bits.
pub scraped-metrics :
    (n : Node) (port : ℕ)
    → port_str n.port ≡ decimal port
    → port ≤ max_u64
    → FitsCounters n
    → scraped (as_bytes (handle_node_metrics n).reply) ≡ some (counters n port)
unfolding scraped handle_node_metrics counters IsSample IsKey
scraped-metrics n port e p f =
    let kvs = counters n port in
    let same : (handle_node_metrics n).reply ≡ lines kvs = rw e (simp append_assoc) in
    ap (λ s. read_metrics (length (as_bytes s) + 1) (as_bytes s)) same
    ∙ lines_read (length (as_bytes (lines kvs)) + 1) kvs
        (
          ((refl, refl), p),
          (
            ((refl, refl), f.pushes),
            (
              ((refl, refl), f.pulls),
              (
                ((refl, refl), f.bytes_written),
                (
                  ((refl, refl), f.bytes_read),
                  (
                    ((refl, refl), f.broadcasts),
                    (((refl, refl), f.alive_count), (((refl, refl), f.dead_count), tt)),
                  ),
                ),
              ),
            ),
          ),
        )
        (lines_fuel kvs)
