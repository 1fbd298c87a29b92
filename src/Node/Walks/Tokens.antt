-- ===== src/Node/Walks/Tokens.antt =====
-- The tokens of `next_token`, and `finish_walk` after `register_walk` (src/node.rs).
use mathlib.Core.Option.{some-injective}
use ouroboros_fs.Base.{ℕ, ◌≤◌, ◌≡◌, ap, sym, ◌∙◌, true, false, [], ◌∷◌, some, All-mono, arith}
use ouroboros_fs.Text.{Text, eq_text_refl}
use ouroboros_fs.Text.Pieces.{rsplit_once_str, rsplit_once_str-lem, rsplit_once_str-none}
use ouroboros_fs.Text.Decimal.{decimal, decimal-AllDigits, parse_uint, parse_uint-decimal, max_u64}
use ouroboros_fs.Map.{insert, get-remove, get-insert_self}
use ouroboros_fs.Node.{Node}
use ouroboros_fs.Node.Walks.{token, register_walk, finish_walk}

-- The token is cut again at its last `-`.
token-cut : (p : Text) (n : ℕ) → rsplit_once_str (b'-' ∷ []) (token p n) ≡ some (p, decimal n)
unfolding token
token-cut p n = rsplit_once_str-lem b'-' [] p (decimal n) (
    rsplit_once_str-none b'-' [] (decimal n)
      (All-mono (decimal n) (λ c e. ground arith) (decimal-AllDigits n)))

-- Two tokens are the same text only if the same node made them at the same count, for counts of 64
-- bits.
pub token-injective :
    (p q : Text) (n m : ℕ) → n ≤ max_u64 → m ≤ max_u64 → token p n ≡ token q m → (p ≡ q) × (n ≡ m)
token-injective p q n m hn hm e =
    let cut : some (p, decimal n) ≡ some (q, decimal m) =
      sym (token-cut p n) ∙ ap (rsplit_once_str (b'-' ∷ [])) e ∙ token-cut q m in
    let same = some-injective _ _ cut in
    (
      ap (λ x. x.0) same,
      some-injective _ _ (
          sym (parse_uint-decimal max_u64 n hn)
          ∙ ap (λ x. parse_uint max_u64 x.1) same
          ∙ parse_uint-decimal max_u64 m hm),
    )

-- A walk that was registered is finished once, and a second time finds no waiter.
pub finish_walk_once :
    (n : Node) (t : Text)
    → ((finish_walk (register_walk n t) t).1 ≡ true)
      × ((finish_walk (finish_walk (register_walk n t) t).0 t).1 ≡ false)
unfolding finish_walk register_walk
finish_walk_once n t = (
  rw (get-insert_self n.pending_walks t tt),
  rw (get-insert_self n.pending_walks t tt)
      (rw (get-remove (insert n.pending_walks t tt) t t, eq_text_refl t)),
)
