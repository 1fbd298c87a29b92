-- ===== src/Map/Codec.antt =====
-- A map written as entries between separators, in the order of its keys, and read back: what the
-- netmap, the topology and the file tags share.
use ouroboros_fs.Base.{
  ℕ, ◌≡◌, refl, ap, ◌∙◌, List, [], ◌∷◌, map, Option, none, some, if◌then◌else◌, is_some, unwrap_or,
  All,
}
use ouroboros_fs.Text.{Text, Lacks}
use ouroboros_fs.Text.Pieces.{split, join, split-join}
use ouroboros_fs.Map.{Map, get, insert, keys, contains-keys, insert_all, get-insert_all}
use ouroboros_fs.Map.Sort.{sort_keys, contains-sort_keys}

module _ {ℓ} {V : Type ℓ} where
  -- The loop over the pieces of a text.
  abbrev pub read_pieces : (Map V → Text → Map V) → Map V → List Text → Map V
  read_pieces step m [] = m
  read_pieces step m (p ∷ ps) = read_pieces step (step m p) ps

  -- The value at a key that the loop took from the map itself.
  abbrev pub at : Map V → V → Text → V
  at m d k = unwrap_or (get m k) d

  -- Inserting the map's own values at its sorted keys gives the map again.
  table : (o : Option V) (d : V) → (if is_some o then some (unwrap_or o d) else none) ≡ o
  table none d = refl
  table (some v) d = refl

  pub get-table :
      (m : Map V) (d : V) (j : Text) → get (insert_all [] (sort_keys (keys m)) (at m d)) j ≡ get m j
  unfolding get
  get-table m d j = rw (get-insert_all, contains-sort_keys, contains-keys) (table (get m j) d)

  -- An entry that holds no separator and is read as the insertion of its key.
  pub record IsEntry (sep : ℕ) (print : Text → Text) (step : Map V → Text → Map V) (f : Text → V)
      (k : Text) : Type ℓ where
    pub apart : Lacks sep (print k)
    pub inserts : (m : Map V) → step m (print k) ≡ insert m k (f k)

  module _ (sep : ℕ) (print : Text → Text) (step : Map V → Text → Map V) (f : Text → V) where
    pieces-Lacks :
        (ks : List Text) → All (IsEntry sep print step f) ks → All (Lacks sep) (map print ks)
    pieces-Lacks [] h = tt
    pieces-Lacks (k ∷ ks) h = (h.0.apart, pieces-Lacks ks h.1)

    read_printed :
        (m : Map V) (ks : List Text)
        → All (IsEntry sep print step f) ks
        → read_pieces step m (map print ks) ≡ insert_all m ks f
    read_printed m [] h = refl
    read_printed m (k ∷ ks) h =
        ap (λ n. read_pieces step n (map print ks)) (h.0.inserts m)
        ∙ read_printed (insert m k (f k)) ks h.1

    -- An empty text is one empty piece, which the readers pass over.
    pub read_pieces-join :
        (m : Map V) (ks : List Text)
        → step m [] ≡ m
        → All (IsEntry sep print step f) ks
        → read_pieces step m (split sep (join sep (map print ks))) ≡ insert_all m ks f
    read_pieces-join m [] e h = unfold split join in e
    read_pieces-join m (k ∷ ks) e h =
        rw (split-join sep (print k) (map print ks) (pieces-Lacks (k ∷ ks) h))
          (read_printed m (k ∷ ks) h)
