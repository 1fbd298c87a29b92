-- ===== src/Node/Tags.antt =====
-- The file tags, `name -> (start port, size, parts)`: `set_file_tag`, `get_file_tags_entries` and
-- `set_file_tags_from_entries` of src/node.rs.
pub mod RoundTrip
use ouroboros_fs.Base.{
  ℕ, ◌≡◌, refl, Bool, true, false, List, [], ◌∷◌, ◌++◌, map, Option, none, some, ◌==◌, ◌||◌,
  if◌then◌else◌,
}
use ouroboros_fs.Text.{Text, codes, is_empty}
use ouroboros_fs.Text.Pieces.{split, splitn, join, replace}
use ouroboros_fs.Text.Decimal.{decimal, parse_uint, max_u16, max_u32, max_u64}
use ouroboros_fs.Map.{Map, get, insert, keys}
use ouroboros_fs.Map.Sort.{sort_keys}
use ouroboros_fs.Map.Codec.{read_pieces, at}
use ouroboros_fs.Node.{Node, FileTag}

unfoldable pub set_file_tag : Node → Text → ℕ → ℕ → ℕ → Node
set_file_tag n name start_port size parts = record n {
  file_tags = insert n.file_tags name (record { start = start_port; size = size; parts = parts });
}

-- `[':', ';']`
abbrev pub is_separator : ℕ → Bool
is_separator c = c == b':' || c == b';'

-- The default of the look-up of a key that is in the map; it is not reached.
abbrev pub no_tag : FileTag
no_tag = record { start = 0; size = 0; parts = 0 }

-- `format!("{}:{}:{}:{}", safe_name, tag.start, tag.size, tag.parts)`
unfoldable pub tag_text : Text → FileTag → Text
tag_text name t =
    let safe_name = replace is_separator b'_' name in
    safe_name ++ b':' ∷ (decimal t.start ++ b':' ∷ (decimal t.size ++ b':' ∷ decimal t.parts))

unfoldable pub tags_text : Map FileTag → Text
tags_text m = join b';' (map (λ k. tag_text k (at m no_tag k)) (sort_keys (keys m)))

unfoldable pub get_file_tags_entries : Node → Text
get_file_tags_entries n = tags_text n.file_tags

-- The three numbers of an entry; one that does not parse drops the entry.
add_tag : Map FileTag → Text → Option ℕ → Option ℕ → Option ℕ → Map FileTag
add_tag m name (some start) (some size) (some parts) =
    insert m name (record { start = start; size = size; parts = parts })
add_tag m name _ _ _ = m

-- `if parts.len() == 4`
unfoldable pub add_parts : Map FileTag → List Text → Map FileTag
unfolding add_tag
add_parts m (name ∷ start ∷ size ∷ parts ∷ []) =
    add_tag m name (parse_uint max_u16 start) (parse_uint max_u64 size) (parse_uint max_u32 parts)
add_parts m _ = m

unfoldable pub read_tag : Map FileTag → Text → Map FileTag
read_tag m entry = if is_empty entry then m else add_parts m (splitn 4 b':' entry)

unfoldable pub parse_tags : Text → Map FileTag
parse_tags entries = read_pieces read_tag [] (split b';' entries)

-- The old map is cleared first.
unfoldable pub set_file_tags_from_entries : Node → Text → Node
set_file_tags_from_entries n entries = record n { file_tags = parse_tags entries }

tag_tests :
    (parse_tags (codes "a:1:2;b:7001:2048:5;c:notnum:1:1;d:65536:1:1")
      ≡ (codes "b", record { start = 7001; size = 2048; parts = 5 }) ∷ [])
    × (tags_text ((codes "a:b;c", record { start = 7000; size = 1; parts = 1 }) ∷ [])
        ≡ codes "a_b_c:7000:1:1")
unfolding parse_tags read_tag add_parts tags_text tag_text split splitn insert get join sort_keys
    parse_uint decimal
tag_tests = (refl, refl)
