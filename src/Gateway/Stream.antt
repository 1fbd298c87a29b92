-- ===== src/Gateway/Stream.antt =====
-- `stream_with_truncation_detection` of src/gateway.rs. The source is the list of blocks that its
-- reads bring; an empty block, or the end of the list, is the end of the file.
pub mod Windows
use ouroboros_fs.Base.{
  ℕ, zero, suc, ◌+◌, ◌-◌, ◌≡◌, refl, Bool, true, false, List, [], ◌∷◌, ◌++◌, Option, none, some,
  ◌==◌, ltb, if◌then◌else◌, length, take, drop,
}
use ouroboros_fs.Text.{Text, codes}
use ouroboros_fs.Text.Pieces.{rsplit_once_str}

abbrev pub max_trailer_len : ℕ
max_trailer_len = 96

abbrev pub trailer_marker : Text
trailer_marker = codes "\nERR truncated "

-- What was written to the client, and the bytes held back.
pub record Held : Type 0 where
  pub written : List ℕ
  pub tail : List ℕ

-- One round of the loop: all but the last `max_trailer_len` bytes go out.
unfoldable pub feed : Held → List ℕ → Held
feed h block =
    let tail = h.tail ++ block in
    let flush_until = length tail - max_trailer_len in
    if ltb max_trailer_len (length tail)
    then record { written = h.written ++ take flush_until tail; tail = drop flush_until tail }
    else record { written = h.written; tail = tail }

unfoldable pub read_blocks : Held → List (List ℕ) → Held
read_blocks h [] = h
read_blocks h (block ∷ blocks) =
    let rest = read_blocks (feed h block) blocks in if length block == 0 then h else rest

-- `rposition` of the marker among the windows: the last one counts.
unfoldable pub inspect : Held → Option (Text × Text) → List ℕ × Bool
inspect h none = (h.written ++ h.tail, false)
inspect h (some (body, trailer)) = (h.written ++ body, true)

-- What the client gets, and whether a trailer was cut off.
unfoldable pub stream_with_truncation_detection : List (List ℕ) → List ℕ × Bool
stream_with_truncation_detection blocks =
    let h = read_blocks (record { written = []; tail = [] }) blocks in
    inspect h (rsplit_once_str trailer_marker h.tail)

stream_tests :
    (stream_with_truncation_detection
        (codes "abc" ∷ codes "\nERR trunc" ∷ codes "ated expected=5 got=3\n" ∷ [])
      ≡ (codes "abc", true))
    × (stream_with_truncation_detection (codes "abc" ∷ codes "def" ∷ []) ≡ (codes "abcdef", false))
unfolding stream_with_truncation_detection read_blocks feed inspect rsplit_once_str
stream_tests = (refl, refl)
