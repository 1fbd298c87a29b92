-- ===== src/Gateway/Stream/Windows.antt =====
-- `stream_with_truncation_detection` of src/gateway.rs as a function of all its bytes, and on the
-- trailer of `pull_file_from_ring` of src/server.rs.
use ouroboros_fs.Base.{
  ℕ, ◌+◌, ◌-◌, ◌≤◌, ◌≡◌, refl, sym, ap, ◌∙◌, Bool, true, false, List, [], ◌∷◌, ◌++◌, append_assoc,
  append-nil, none, some, ◌==◌, ==_refl, ==_iff, ltb, length, length-append, length-drop, take,
  drop, take-append-drop, take_add, drop_add, take-append_le, drop-append_le, All, All-mono,
  All-append, arith, Bool-cases, inl, inr,
}
use ouroboros_fs.Text.{Text, codes, Lacks}
use ouroboros_fs.Text.Pieces.{rsplit_once_str, rsplit_once_str-lem}
use ouroboros_fs.Text.Decimal.{decimal, decimal-AllDigits}
use ouroboros_fs.Server.Pull.{truncation_trailer}
use ouroboros_fs.Gateway.Stream.{
  Held, feed, read_blocks, inspect, stream_with_truncation_detection, max_trailer_len,
  trailer_marker,
}

abbrev pub concat : List (List ℕ) → List ℕ
concat [] = []
concat (block ∷ blocks) = block ++ concat blocks

-- The window over all the bytes so far.
abbrev pub window : List ℕ → Held
window bytes = record {
  written = take (length bytes - max_trailer_len) bytes;
  tail = drop (length bytes - max_trailer_len) bytes;
}

-- Both branches of a round flush what does not fit.
feed_lem :
    (h : Held) (block : List ℕ)
    → feed h block ≡ record {
      written = h.written ++ take (length (h.tail ++ block) - max_trailer_len) (h.tail ++ block);
      tail = drop (length (h.tail ++ block) - max_trailer_len) (h.tail ++ block);
    }
unfolding feed
feed_lem h block = elim (Bool-cases (ltb max_trailer_len (length (h.tail ++ block)))) [
  | inl e ↦ rw e
  | inr e ↦
      let z : length (h.tail ++ block) - max_trailer_len ≡ 0 = ground (arith, e) in
      rw (e, z) (λ i. record { written = sym (append-nil h.written) i; tail = h.tail ++ block })
]

feed-window : (xs block : List ℕ) → feed (window xs) block ≡ window (xs ++ block)
feed-window xs block =
    let n = length xs - max_trailer_len in
    let t = drop n xs ++ block in
    let le : n ≤ length xs = omega arith in
    let front = take-append_le n xs block le in
    let back = drop-append_le n xs block le in
    let sum : n + (length t - max_trailer_len) ≡ length (xs ++ block) - max_trailer_len =
      omega (arith, length-append xs block, length-append (drop n xs) block, length-drop n xs) in
    let w : take n xs ++ take (length t - max_trailer_len) t
        ≡ take (length (xs ++ block) - max_trailer_len) (xs ++ block) =
      (λ i. sym front i ++ take (length t - max_trailer_len) (sym back i))
      ∙ take_add n (length t - max_trailer_len) (xs ++ block)
      ∙ ap (λ m. take m (xs ++ block)) sum in
    let d : drop (length t - max_trailer_len) t
        ≡ drop (length (xs ++ block) - max_trailer_len) (xs ++ block) =
      ap (drop (length t - max_trailer_len)) (sym back)
      ∙ drop_add n (length t - max_trailer_len) (xs ++ block)
      ∙ ap (λ m. drop m (xs ++ block)) sum in
    feed_lem (window xs) block ∙ (λ i. record { written = w i; tail = d i })

-- No block is empty: an empty read is the end of the file.
abbrev pub NoneEmpty : List (List ℕ) → Type 0
NoneEmpty = All (λ block. (length block == 0) ≡ false)

read_blocks-window :
    (xs : List ℕ) (blocks : List (List ℕ))
    → NoneEmpty blocks
    → read_blocks (window xs) blocks ≡ window (xs ++ concat blocks)
unfolding read_blocks
read_blocks-window xs [] h = ap window (sym (append-nil xs))
read_blocks-window xs (block ∷ blocks) h = rw (h.0) (
    ap (λ s. read_blocks s blocks) (feed-window xs block)
    ∙ read_blocks-window (xs ++ block) blocks h.1
    ∙ ap window (append_assoc xs block (concat blocks)))

-- The stream, as a function of all its bytes.
abbrev pub inspected : List ℕ → List ℕ × Bool
inspected bytes = inspect (window bytes) (rsplit_once_str trailer_marker (window bytes).tail)

pub streams :
    (blocks : List (List ℕ))
    → NoneEmpty blocks
    → stream_with_truncation_detection blocks ≡ inspected (concat blocks)
unfolding stream_with_truncation_detection
streams blocks h =
    ap (λ s. inspect s (rsplit_once_str trailer_marker s.tail)) (read_blocks-window [] blocks h)

-- What the gateway passes on and reports depends on the bytes of a stream alone and not on the
-- blocks of the reads, if no block is empty.
pub stream_blocks_alike :
    (blocks others : List (List ℕ))
    → NoneEmpty blocks
    → NoneEmpty others
    → concat blocks ≡ concat others
    → stream_with_truncation_detection blocks ≡ stream_with_truncation_detection others
stream_blocks_alike blocks others h k e = streams blocks h ∙ ap inspected e ∙ sym (streams others k)

-- A text whose only line break is its last character holds the marker nowhere.
marker_past :
    (q p : ℕ) (pat s : Text) → Lacks q s → rsplit_once_str (q ∷ p ∷ pat) (s ++ q ∷ []) ≡ none
unfolding rsplit_once_str
marker_past q p pat [] h = rw (==_refl q)
marker_past q p pat (c ∷ s) h = ground (arith, ==_iff q c, ==_iff c q, marker_past q p pat s h.1)

-- What follows the marker in a trailer, without the line break at the end.
trailer_rest : ℕ → ℕ → Text
trailer_rest expected got =
    codes "expected=" ++ (decimal expected ++ (codes " got=" ++ decimal got))

decimal-Lacks : (n : ℕ) → Lacks b'\n' (decimal n)
decimal-Lacks n = All-mono (decimal n) (λ c e. ground arith) (decimal-AllDigits n)

lead-Lacks : Lacks b'\n' (codes "ERR truncated expected=")
lead-Lacks = (
  refl,
  (
    refl,
    (
      refl,
      (
        refl,
        (
          refl,
          (
            refl,
            (
              refl,
              (
                refl,
                (
                  refl,
                  (
                    refl,
                    (
                      refl,
                      (
                        refl,
                        (
                          refl,
                          (
                            refl,
                            (
                              refl,
                              (refl, (refl, (refl, (refl, (refl, (refl, (refl, (refl, tt)))))))),
                            ),
                          ),
                        ),
                      ),
                    ),
                  ),
                ),
              ),
            ),
          ),
        ),
      ),
    ),
  ),
)

trailer_rest-Lacks :
    (expected got : ℕ) → Lacks b'\n' (codes "ERR truncated " ++ trailer_rest expected got)
unfolding trailer_rest
trailer_rest-Lacks expected got =
    let got_part =
      All-append (λ c. (c == b'\n') ≡ false) (codes " got=") (decimal got)
        (refl, (refl, (refl, (refl, (refl, tt))))) (decimal-Lacks got) in
    let numbers =
      All-append (λ c. (c == b'\n') ≡ false) (decimal expected) _ (decimal-Lacks expected)
        got_part in
    All-append (λ c. (c == b'\n') ≡ false) (codes "ERR truncated expected=") _ lead-Lacks numbers

trailer_cut :
    (expected got : ℕ)
    → truncation_trailer expected got
      ≡ b'\n' ∷ (codes "ERR truncated " ++ (trailer_rest expected got ++ b'\n' ∷ []))
unfolding truncation_trailer trailer_rest
trailer_cut expected got = rw (append_assoc (decimal expected), append_assoc (codes " got="))

cut_at_trailer :
    (body : List ℕ) (expected got : ℕ)
    → rsplit_once_str trailer_marker (body ++ truncation_trailer expected got)
      ≡ some (body, trailer_rest expected got ++ b'\n' ∷ [])
cut_at_trailer body expected got = rw (trailer_cut expected got) (
    rsplit_once_str-lem b'\n' (codes "ERR truncated ") body
      (trailer_rest expected got ++ b'\n' ∷ [])
      (marker_past b'\n' b'E' (codes "RR truncated ")
        (codes "ERR truncated " ++ trailer_rest expected got) (trailer_rest-Lacks expected got)))

-- Whatever the blocks of the reads, none of them empty, the gateway passes on the body before a
-- truncation trailer of a node, without the trailer, and reports it, if the trailer has at most 96
-- bytes.
pub stream-truncation_trailer :
    (blocks : List (List ℕ)) (body : List ℕ) (expected got : ℕ)
    → NoneEmpty blocks
    → concat blocks ≡ body ++ truncation_trailer expected got
    → length (truncation_trailer expected got) ≤ max_trailer_len
    → stream_with_truncation_detection blocks ≡ (body, true)
unfolding inspect
stream-truncation_trailer blocks body expected got h e fits =
    let t = truncation_trailer expected got in
    let m = length (body ++ t) - max_trailer_len in
    let le : m ≤ length body = omega (arith, length-append body t) in
    let cut : rsplit_once_str trailer_marker (drop m (body ++ t))
        ≡ some (drop m body, trailer_rest expected got ++ b'\n' ∷ []) =
      ap (rsplit_once_str trailer_marker) (drop-append_le m body t le)
      ∙ cut_at_trailer (drop m body) expected got in
    streams blocks h
    ∙ ap inspected e
    ∙ ap (inspect (window (body ++ t))) cut
    ∙ (λ i. (take-append_le m body t le i ++ drop m body, true))
    ∙ (λ i. (take-append-drop m body i, true))
