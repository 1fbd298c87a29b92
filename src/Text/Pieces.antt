-- ===== src/Text/Pieces.antt =====
-- `split`, `splitn`, `split_once`, `rsplit`, `rsplit_once`, `join` and `replace`.
use ouroboros_fs.Base.{
  ℕ, zero, suc, ◌≡◌, ◌≢◌, refl, ap, ◌∙◌, Bool, List, [], ◌∷◌, ◌++◌, map, Option, none, some, arith,
  ◌==◌, if◌then◌else◌, ==_refl, ==_iff, All, get_or,
}
use ouroboros_fs.Text.{Text, Lacks, strip_prefix, is_whitespace}

-- Put a piece in front of the first half of a cut.
abbrev cut_behind : ℕ → Option (Text × Text) → Option (Text × Text)
cut_behind c none = none
cut_behind c (some (a, b)) = some (c ∷ a, b)

-- `split_once(sep)` at the first occurrence of a character.
unfoldable pub split_once : ℕ → Text → Option (Text × Text)
split_once sep [] = none
split_once sep (c ∷ s) =
    let rest = split_once sep s in if c == sep then some ([], s) else cut_behind c rest

-- `split_once(pat)` at the first occurrence of a text.
abbrev or_cut : Option Text → Option (Text × Text) → Option (Text × Text)
or_cut (some b) rest = some ([], b)
or_cut none rest = rest

unfoldable pub split_once_str : Text → Text → Option (Text × Text)
split_once_str pat [] = or_cut (strip_prefix pat []) none
split_once_str pat (c ∷ s) =
    let rest = split_once_str pat s in or_cut (strip_prefix pat (c ∷ s)) (cut_behind c rest)

-- `rsplit_once(pat)` at the last occurrence of a text.
abbrev cut_or : Option (Text × Text) → Option Text → Option (Text × Text)
cut_or (some (a, b)) here = some (a, b)
cut_or none none = none
cut_or none (some b) = some ([], b)

unfoldable pub rsplit_once_str : Text → Text → Option (Text × Text)
rsplit_once_str pat [] = cut_or none (strip_prefix pat [])
rsplit_once_str pat (c ∷ s) =
    cut_or (cut_behind c (rsplit_once_str pat s)) (strip_prefix pat (c ∷ s))

abbrev push_head : ℕ → List Text → List Text
push_head c [] = (c ∷ []) ∷ []
push_head c (p ∷ ps) = (c ∷ p) ∷ ps

-- `split(sep)`: at least one piece.
unfoldable pub split : ℕ → Text → List Text
split sep [] = [] ∷ []
split sep (c ∷ s) = let rest = split sep s in if c == sep then [] ∷ rest else push_head c rest

-- `splitn(n, sep)`: at most `n` pieces, the last with what is left.
abbrev splitn_from : Text → (Text → List Text) → Option (Text × Text) → List Text
splitn_from s more none = s ∷ []
splitn_from s more (some (a, b)) = a ∷ more b

unfoldable pub splitn : ℕ → ℕ → Text → List Text
unfolding split_once
splitn zero sep s = []
splitn (suc zero) sep s = s ∷ []
splitn (suc (suc n)) sep s = splitn_from s (splitn (suc n) sep) (split_once sep s)

-- The iterator's i-th item, `unwrap_or("")`.
abbrev pub item : List Text → ℕ → Text
item ps i = get_or ps i []

-- `rsplit(sep).next().unwrap_or(s)`: the last piece.
abbrev pub last_or : List Text → Text → Text
last_or [] d = d
last_or (p ∷ ps) d = last_or ps p

-- `join` with a separator of one character.
unfoldable pub join : ℕ → List Text → Text
join sep [] = []
join sep (p ∷ []) = p
join sep (p ∷ q ∷ ps) = p ++ sep ∷ join sep (q ∷ ps)

-- `split_whitespace`: the pieces between white space that are not empty.
abbrev word_first : Text → List Text → List Text
word_first [] ws = ws
word_first (c ∷ w) ws = (c ∷ w) ∷ ws

abbrev words_from : Text → Text × List Text → List Text
words_from s (w, ws) = word_first w ws

-- The word at the front, and the words behind it.
unfoldable pub scan_words : Text → Text × List Text
scan_words [] = ([], [])
scan_words (c ∷ s) =
    let rest = scan_words s in
    if is_whitespace c then ([], word_first rest.0 rest.1) else (c ∷ rest.0, rest.1)

unfoldable pub split_whitespace : Text → List Text
unfolding scan_words
split_whitespace s = words_from s (scan_words s)

-- `replace(chars, "_")` and the like: each character of the set by one character.
abbrev pub replace : (ℕ → Bool) → ℕ → Text → Text
replace p by = map (λ c. if p c then by else c)

pub split_once-lem :
    (sep : ℕ) (a b : Text) → Lacks sep a → split_once sep (a ++ sep ∷ b) ≡ some (a, b)
unfolding split_once
split_once-lem sep [] b h = rw (==_refl sep)
split_once-lem sep (c ∷ a) b h = rw (h.0, split_once-lem sep a b h.1)

pub split_once-none : (sep : ℕ) (a : Text) → Lacks sep a → split_once sep a ≡ none
unfolding split_once
split_once-none sep [] h = refl
split_once-none sep (c ∷ a) h = rw (h.0, split_once-none sep a h.1)

pub splitn-last : (n sep : ℕ) (s : Text) → Lacks sep s → splitn (suc n) sep s ≡ s ∷ []
unfolding splitn
splitn-last zero sep s h = refl
splitn-last (suc n) sep s h = rw (split_once-none sep s h)

pub splitn-more :
    (n sep : ℕ) (a b : Text)
    → Lacks sep a
    → splitn (suc (suc n)) sep (a ++ sep ∷ b) ≡ a ∷ splitn (suc n) sep b
unfolding splitn
splitn-more n sep a b h = rw (split_once-lem sep a b h)

pub split-Lacks : (sep : ℕ) (s : Text) → Lacks sep s → split sep s ≡ s ∷ []
unfolding split
split-Lacks sep [] h = refl
split-Lacks sep (c ∷ s) h = rw (h.0, split-Lacks sep s h.1)

pub split-append : (sep : ℕ) (a b : Text) → Lacks sep a → split sep (a ++ sep ∷ b) ≡ a ∷ split sep b
unfolding split
split-append sep [] b h = rw (==_refl sep)
split-append sep (c ∷ a) b h = rw (h.0, split-append sep a b h.1)

-- The pieces of a join, if there is a piece and none holds the separator.
pub split-join :
    (sep : ℕ) (p : Text) (ps : List Text)
    → All (Lacks sep) (p ∷ ps)
    → split sep (join sep (p ∷ ps)) ≡ p ∷ ps
unfolding join
split-join sep p [] h = split-Lacks sep p h.0
split-join sep p (q ∷ ps) h = split-append sep p _ h.0 ∙ ap (λ r. p ∷ r) (split-join sep q ps h.1)

split-ne-nil : (sep : ℕ) (s : Text) → split sep s ≢ []
unfolding split
split-ne-nil sep [] = cc
split-ne-nil sep (c ∷ s) = ground (arith, split-ne-nil sep s)

push_head-append :
    (c : ℕ) (ps qs : List Text) → ps ≢ [] → push_head c (ps ++ qs) ≡ push_head c ps ++ qs
push_head-append c [] qs h = absurd (h refl)
push_head-append c (p ∷ ps) qs h = refl

-- A separator anywhere cuts the pieces in two.
pub split-cut : (sep : ℕ) (a b : Text) → split sep (a ++ sep ∷ b) ≡ split sep a ++ split sep b
unfolding split
split-cut sep [] b = rw (==_refl sep)
split-cut sep (c ∷ a) b =
    ground
      (arith, split-cut sep a b, push_head-append c (split sep a) (split sep b), split-ne-nil sep a)

last_or-append : (ps : List Text) (p d : Text) → last_or (ps ++ p ∷ []) d ≡ p
last_or-append [] p d = refl
last_or-append (q ∷ ps) p d = last_or-append ps p q

pub last-split : (sep : ℕ) (h p d : Text) → Lacks sep p → last_or (split sep (h ++ sep ∷ p)) d ≡ p
last-split sep h p d l =
    rw (split-cut sep h p, split-Lacks sep p l) (last_or-append (split sep h) p d)

pub strip_prefix-append : (p s : Text) → strip_prefix p (p ++ s) ≡ some s
strip_prefix-append [] s = refl
strip_prefix-append (c ∷ p) s = rw (==_refl c) (strip_prefix-append p s)

pub split_once_str-lem :
    (q : ℕ) (pat a b : Text)
    → Lacks q a
    → split_once_str (q ∷ pat) (a ++ (q ∷ (pat ++ b))) ≡ some (a, b)
unfolding split_once_str
split_once_str-lem q pat [] b h = rw (==_refl q, strip_prefix-append pat b)
split_once_str-lem q pat (c ∷ a) b h =
    ground (arith, ==_iff q c, ==_iff c q, split_once_str-lem q pat a b h.1)

-- The last occurrence: nothing behind it holds the pattern's first character.
pub rsplit_once_str-none : (q : ℕ) (pat s : Text) → Lacks q s → rsplit_once_str (q ∷ pat) s ≡ none
unfolding rsplit_once_str
rsplit_once_str-none q pat [] h = refl
rsplit_once_str-none q pat (c ∷ s) h =
    ground (arith, ==_iff q c, ==_iff c q, rsplit_once_str-none q pat s h.1)

pub rsplit_once_str-lem :
    (q : ℕ) (pat a b : Text)
    → rsplit_once_str (q ∷ pat) (pat ++ b) ≡ none
    → rsplit_once_str (q ∷ pat) (a ++ (q ∷ (pat ++ b))) ≡ some (a, b)
unfolding rsplit_once_str
rsplit_once_str-lem q pat [] b h = rw (h, ==_refl q, strip_prefix-append pat b)
rsplit_once_str-lem q pat (c ∷ a) b h = rw (rsplit_once_str-lem q pat a b h)
