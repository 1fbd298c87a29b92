-- ===== src/Map.antt =====
-- `HashMap<String, V>`: an association list on text keys. The order of the entries stands for the
-- order of iteration, which the standard library leaves open. `sort_keys` is `sort_unstable` on keys.
pub mod Sort
pub mod Codec
use ouroboros_fs.Base.{
  ℕ, ◌≡◌, refl, ap, ◌∙◌, Bool, true, false, ◌||◌, List, [], ◌∷◌, map, Option, none, some, arith,
  if◌then◌else◌, is_some, any, Bool-cases, inl, inr, All,
}
use ouroboros_fs.Text.{Text, eq_text, eq_text_iff, eq_text_refl}

abbrev pub Map {ℓ} : Type ℓ → Type ℓ
Map V = List (Text × V)

-- `keys.contains(k)`.
abbrev pub contains : Text → List Text → Bool
contains k = any (λ j. eq_text j k)

module _ {ℓ} {V : Type ℓ} where
  unfoldable pub get : Map V → Text → Option V
  get [] k = none
  get ((j, v) ∷ m) k = if eq_text j k then some v else get m k

  unfoldable pub insert : Map V → Text → V → Map V
  insert [] k v = (k, v) ∷ []
  insert ((j, w) ∷ m) k v = if eq_text j k then (k, v) ∷ m else (j, w) ∷ insert m k v

  unfoldable pub remove : Map V → Text → Map V
  remove [] k = []
  remove ((j, w) ∷ m) k = let rest = remove m k in if eq_text j k then rest else (j, w) ∷ rest

  abbrev pub keys : Map V → List Text
  keys [] = []
  keys ((j, v) ∷ m) = j ∷ keys m

  pub get-insert :
      (m : Map V) (k j : Text) (v : V)
      → get (insert m k v) j ≡ (if eq_text k j then some v else get m j)
  unfolding get insert
  get-insert [] k j v = refl
  get-insert ((i, w) ∷ m) k j v =
      ground (arith, eq_text_iff k j, eq_text_iff i k, eq_text_iff i j, get-insert m k j v)

  pub get-insert_self : (m : Map V) (k : Text) (v : V) → get (insert m k v) k ≡ some v
  get-insert_self m k v = rw (get-insert, eq_text_refl k)

  pub get-remove :
      (m : Map V) (k j : Text) → get (remove m k) j ≡ (if eq_text k j then none else get m j)
  unfolding get remove
  get-remove [] k j = ground arith
  get-remove ((i, w) ∷ m) k j =
      ground (arith, eq_text_iff k j, eq_text_iff i k, eq_text_iff i j, get-remove m k j)

  pub contains-keys : (m : Map V) (k : Text) → contains k (keys m) ≡ is_some (get m k)
  unfolding get
  contains-keys [] k = refl
  contains-keys ((i, w) ∷ m) k = ground (arith, contains-keys m k)

  -- A loop that inserts `f k` at every key of a list.
  abbrev pub insert_all : Map V → List Text → (Text → V) → Map V
  insert_all m [] f = m
  insert_all m (k ∷ ks) f = insert_all (insert m k (f k)) ks f

  pub get-insert_all :
      (m : Map V) (ks : List Text) (f : Text → V) (j : Text)
      → get (insert_all m ks f) j ≡ (if contains j ks then some (f j) else get m j)
  get-insert_all m [] f j = refl
  get-insert_all m (k ∷ ks) f j =
      get-insert_all (insert m k (f k)) ks f j
      ∙ ground (arith, get-insert m k j (f k), eq_text_iff k j)

module _ {ℓ κ} {V : Type ℓ} (P : Text → Type κ) where
  pub All-keys-insert :
      (m : Map V) (k : Text) (v : V) → P k → All P (keys m) → All P (keys (insert m k v))
  unfolding insert
  All-keys-insert [] k v hk h = (hk, tt)
  All-keys-insert ((j, w) ∷ m) k v hk h = elim (Bool-cases (eq_text j k)) [
    | inl e ↦ rw e (hk, h.1)
    | inr e ↦ rw e (h.0, All-keys-insert m k v hk h.1)
  ]
