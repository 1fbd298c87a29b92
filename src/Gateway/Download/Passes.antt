-- ===== src/Gateway/Download/Passes.antt =====
-- The downloads of src/gateway.rs against the pulls that a node of src/server.rs writes.
pub mod Whole
use ouroboros_fs.Base.{
  ℕ, zero, suc, ◌-◌, ◌≤◌, ◌<◌, ◌≡◌, refl, sym, ap, ◌∙◌, true, false, List, [], ◌∷◌, ◌++◌, none,
  some, ◌==◌, leb, lt→ltb, length, length-drop, take, drop, take-append_le, drop-append_le,
  take-append-drop, arith, Bool-cases, inl, inr,
}
use ouroboros_fs.Text.{Text, codes, eq_text, as_bytes, trim_eol}
use ouroboros_fs.Text.Utf8.{read_until_newline, from_utf8}
use ouroboros_fs.Map.{get}
use ouroboros_fs.Node.{Node}
use ouroboros_fs.Node.Send.{Net}
use ouroboros_fs.Server.Pull.{Fetch, handle_file_pull, with_trailer, truncation_trailer}
use ouroboros_fs.Server.Pull.Reassembly.{pull_missing}
use ouroboros_fs.Text.Pieces.{split_once_str}
use ouroboros_fs.Gateway.Ring.{joined}
use ouroboros_fs.Gateway.Http.{send_file_response_headers}
use ouroboros_fs.Gateway.Stream.{stream_with_truncation_detection, max_trailer_len}
use ouroboros_fs.Gateway.Stream.Windows.{NoneEmpty, concat, stream-truncation_trailer}
use ouroboros_fs.Gateway.Download.{
  refused, passed, read_exact_or_eof, error_text, error_line, stream_rest, sniffed,
}

-- A read of `want` bytes: the bytes, and the blocks behind them.
record Cut (want : ℕ) (bytes : List ℕ) (r : List ℕ × List (List ℕ)) : Type 0 where
  front : r.0 ≡ take want bytes
  back : concat r.1 ≡ drop want bytes
  none_empty : NoneEmpty r.1

take_past : (n : ℕ) (a b : List ℕ) → length a ≤ n → take n (a ++ b) ≡ a ++ take (n - length a) b
take_past n [] b h = let e : n - 0 ≡ n = omega arith in rw e
take_past zero (x ∷ a) b h = absurd (omega arith)
take_past (suc n) (x ∷ a) b h =
    let e : suc n - suc (length a) ≡ n - length a = omega arith in
    rw e (ap (λ r. x ∷ r) (take_past n a b (omega arith)))

drop_past : (n : ℕ) (a b : List ℕ) → length a ≤ n → drop n (a ++ b) ≡ drop (n - length a) b
drop_past n [] b h = let e : n - 0 ≡ n = omega arith in rw e
drop_past zero (x ∷ a) b h = absurd (omega arith)
drop_past (suc n) (x ∷ a) b h =
    let e : suc n - suc (length a) ≡ n - length a = omega arith in
    rw e (drop_past n a b (omega arith))

cut :
    (want : ℕ) (blocks : List (List ℕ))
    → NoneEmpty blocks
    → Cut want (concat blocks) (read_exact_or_eof want blocks)
unfolding read_exact_or_eof
cut zero [] h = record { front = refl; back = refl; none_empty = tt }
cut (suc n) [] h = record { front = refl; back = refl; none_empty = tt }
cut zero (block ∷ blocks) h = record { front = refl; back = refl; none_empty = h }
cut (suc n) (block ∷ blocks) h =
    let z : (suc n == 0) ≡ false = ground arith in
    elim (Bool-cases (leb (length block) (suc n))) [
      | inl l ↦
          let r = cut (suc n - length block) blocks h.1 in
          let le : length block ≤ suc n = ground (arith, l) in
          rw (z, h.0, l)
            (record {
              front =
                  ap (λ x. block ++ x) r.front ∙ sym (take_past (suc n) block (concat blocks) le);
              back = r.back ∙ sym (drop_past (suc n) block (concat blocks) le);
              none_empty = r.none_empty;
            })
      | inr l ↦
          let le : suc n ≤ length block = ground (arith, l) in
          rw (z, h.0, l)
            (record {
              front = sym (take-append_le (suc n) block (concat blocks) le);
              back = sym (drop-append_le (suc n) block (concat blocks) le);
              none_empty = (ground (arith, l, length-drop (suc n) block), h.1);
            })
    ]

-- Without an empty block, all bytes of an answer are read.
joined-concat : (blocks : List (List ℕ)) → NoneEmpty blocks → joined blocks ≡ concat blocks
unfolding joined
joined-concat [] h = refl
joined-concat (block ∷ blocks) h = rw h.0 (ap (λ r. block ++ r) (joined-concat blocks h.1))

-- An answer that does not begin with an error is streamed.
streamed :
    (filename : Text) (prefix : List ℕ) (blocks : List (List ℕ))
    → eq_text prefix (codes "ERR ") ≡ false
    → sniffed filename (prefix, blocks)
      ≡ stream_rest filename prefix (stream_with_truncation_detection blocks)
unfolding sniffed
streamed filename prefix blocks h = elim (Bool-cases (leb 4 (length prefix))) [
  | inl l ↦ rw (l, h)
  | inr l ↦ rw l
]

-- The error of a node, told apart by the first four bytes.
errs :
    (filename : Text) (blocks : List (List ℕ)) (rest : List ℕ) (line : Text)
    → NoneEmpty blocks
    → concat blocks ≡ codes "ERR " ++ rest
    → from_utf8 (read_until_newline rest).0 ≡ some line
    → sniffed filename (read_exact_or_eof 4 blocks) ≡ refused (error_text line)
unfolding sniffed error_line
errs filename blocks rest line h e u =
    let c = cut 4 blocks h in
    let front : (read_exact_or_eof 4 blocks).0 ≡ codes "ERR " = c.front ∙ ap (take 4) e in
    let back : joined (read_exact_or_eof 4 blocks).1 ≡ rest =
      joined-concat (read_exact_or_eof 4 blocks).1 c.none_empty ∙ c.back ∙ ap (drop 4) e in
    rw (front, back, u)

-- Whatever the blocks of the reads, none of them empty, a pull that lost its end is passed on
-- behind the headers as exactly the bytes before the trailer, and reported, if it has four bytes
-- or more, does not begin with `ERR `, and its trailer has at most 96 bytes.
pub handle_file_pull-truncated :
    (filename : Text) (blocks : List (List ℕ)) (body : List ℕ) (file_size : ℕ)
    → NoneEmpty blocks
    → concat blocks ≡ with_trailer body file_size
    → 4 ≤ length body
    → length body < file_size
    → eq_text (take 4 body) (codes "ERR ") ≡ false
    → length (truncation_trailer file_size (length body)) ≤ max_trailer_len
    → sniffed filename (read_exact_or_eof 4 blocks)
      ≡ passed (as_bytes (send_file_response_headers filename) ++ body) true
unfolding with_trailer stream_rest
handle_file_pull-truncated filename blocks body file_size h e l s ne fits =
    let t = truncation_trailer file_size (length body) in
    let c = cut 4 blocks h in
    let all_bytes : concat blocks ≡ body ++ t = e ∙ (rw (lt→ltb (length body) file_size s)) in
    let front : (read_exact_or_eof 4 blocks).0 ≡ take 4 body =
      c.front ∙ ap (take 4) all_bytes ∙ take-append_le 4 body t l in
    let back : concat (read_exact_or_eof 4 blocks).1 ≡ drop 4 body ++ t =
      c.back ∙ ap (drop 4) all_bytes ∙ drop-append_le 4 body t l in
    streamed filename (read_exact_or_eof 4 blocks).0 (read_exact_or_eof 4 blocks).1 (rw front ne)
    ∙ ap (stream_rest filename (read_exact_or_eof 4 blocks).0) (
        stream-truncation_trailer (read_exact_or_eof 4 blocks).1 (drop 4 body) file_size
          (length body) c.none_empty back fits)
    ∙ ap (λ p. passed (as_bytes (send_file_response_headers filename) ++ (p ++ drop 4 body)) true)
        front
    ∙ ap (λ b. passed (as_bytes (send_file_response_headers filename) ++ b) true)
        (take-append-drop 4 body)

-- Whatever the blocks of the reads, none of them empty, the answer of a node that has no tag of
-- the file is refused as not found, and nothing of it is passed on as content.
pub handle_file_pull-missing :
    (net : Net) (fetch : Fetch) (n : Node) (filename : Text) (blocks : List (List ℕ))
    → get n.file_tags filename ≡ none
    → NoneEmpty blocks
    → concat blocks ≡ (handle_file_pull net fetch n filename).output
    → sniffed filename (read_exact_or_eof 4 blocks)
      ≡ refused (codes "not found: ERR file not found")
unfolding error_text read_until_newline from_utf8 trim_eol split_once_str
handle_file_pull-missing net fetch n filename blocks e h b =
    errs filename blocks (codes "file not found\n") (codes "file not found\n") h
      (b ∙ ap (λ p. p.output) (pull_missing net fetch n filename e)) refl
