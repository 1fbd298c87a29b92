-- ===== src/Map/Sort.antt =====
-- Sorting of keys in the order of Rust's `str`, which is that of the code points.
use ouroboros_fs.Base.{
  ◌≡◌, refl, ap, ◌∙◌, Bool, true, false, ◌||◌, ◌&&◌, List, [], ◌∷◌, arith, ltb, ◌==◌, if◌then◌else◌,
  Bool-cases, inl, inr, All,
}
use ouroboros_fs.Text.{Text, eq_text}
use ouroboros_fs.Map.{contains}

-- `a <= b`.
abbrev pub text_leb : Text → Text → Bool
text_leb [] t = true
text_leb (c ∷ s) [] = false
text_leb (c ∷ s) (d ∷ t) = ltb c d || c == d && text_leb s t

insert_key : Text → List Text → List Text
insert_key k [] = k ∷ []
insert_key k (j ∷ js) = let rest = insert_key k js in if text_leb k j then k ∷ j ∷ js else j ∷ rest

unfoldable pub sort_keys : List Text → List Text
unfolding insert_key
sort_keys [] = []
sort_keys (k ∷ ks) = insert_key k (sort_keys ks)

contains-insert_key :
    (j k : Text) (ks : List Text) → contains j (insert_key k ks) ≡ (eq_text k j || contains j ks)
unfolding insert_key
contains-insert_key j k [] = refl
contains-insert_key j k (i ∷ ks) = ground (arith, contains-insert_key j k ks)

pub contains-sort_keys : (j : Text) (ks : List Text) → contains j (sort_keys ks) ≡ contains j ks
unfolding sort_keys
contains-sort_keys j [] = refl
contains-sort_keys j (k ∷ ks) =
    contains-insert_key j k (sort_keys ks) ∙ ap (λ b. eq_text k j || b) (contains-sort_keys j ks)

module _ {κ} (P : Text → Type κ) where
  All-insert_key : (k : Text) (ks : List Text) → P k → All P ks → All P (insert_key k ks)
  unfolding insert_key
  All-insert_key k [] hk hs = (hk, tt)
  All-insert_key k (j ∷ ks) hk hs = elim (Bool-cases (text_leb k j)) [
    | inl e ↦ rw e (hk, hs)
    | inr e ↦ rw e (hs.0, All-insert_key k ks hk hs.1)
  ]

  pub All-sort_keys : (ks : List Text) → All P ks → All P (sort_keys ks)
  unfolding sort_keys
  All-sort_keys [] h = tt
  All-sort_keys (k ∷ ks) h = All-insert_key k (sort_keys ks) h.0 (All-sort_keys ks h.1)

-- Each key is at most the one behind it.
abbrev pub IsSorted : List Text → Type 0
IsSorted [] = Unit
IsSorted (k ∷ []) = Unit
IsSorted (k ∷ j ∷ ks) = (text_leb k j ≡ true) × IsSorted (j ∷ ks)

text_leb_total : (s t : Text) → text_leb s t ≡ false → text_leb t s ≡ true
text_leb_total [] t h = cc
text_leb_total (c ∷ s) [] h = refl
text_leb_total (c ∷ s) (d ∷ t) h = ground (arith, text_leb_total s t)

insert_key-IsSorted : (k : Text) (ks : List Text) → IsSorted ks → IsSorted (insert_key k ks)
unfolding insert_key
insert_key-IsSorted k [] h = tt
insert_key-IsSorted k (j ∷ []) h = elim (Bool-cases (text_leb k j)) [
  | inl e ↦ rw e (e, tt)
  | inr e ↦ rw e (text_leb_total k j e, tt)
]
insert_key-IsSorted k (j ∷ i ∷ ks) h = elim (Bool-cases (text_leb k j)) [
  | inl e ↦ rw e (e, h)
  | inr e ↦
      let ih = insert_key-IsSorted k (i ∷ ks) h.1 in
      elim (Bool-cases (text_leb k i)) [
        | inl e' ↦ rw (e, e') (text_leb_total k j e, (e', h.1))
        | inr e' ↦ rw (e, e') (h.0, rw e' at ih)
      ]
]

pub sort_keys-IsSorted : (ks : List Text) → IsSorted (sort_keys ks)
unfolding sort_keys
sort_keys-IsSorted [] = tt
sort_keys-IsSorted (k ∷ ks) = insert_key-IsSorted k (sort_keys ks) (sort_keys-IsSorted ks)
