-- ===== src/Server/Push/Targets.antt =====
-- The owners that `handle_file_push` finds against the plan of `pull_file_from_ring` (src/server.rs).
use mathlib.Core.Option.{some-injective}
use ouroboros_fs.Base.{
  ℕ, zero, suc, ◌+◌, ◌≡◌, refl, sym, ap, ◌∙◌, List, [], ◌∷◌, map, Option, none, some, Option-cases,
  inl, inr, length,
}
use ouroboros_fs.Text.{Text}
use ouroboros_fs.Map.{Map, get}
use ouroboros_fs.Node.Address.{address}
use ouroboros_fs.Server.Chunk.{chunk_file_name}
use ouroboros_fs.Server.Push.{target_addrs, onwards}
use ouroboros_fs.Server.Pull.{Planned, pull_plan}

-- The owners of chunks `i`, `i + 1`, … by address.
abbrev pub owned : Text → ℕ → ℕ → List Text → List (Text × Text)
owned name parts i [] = []
owned name parts i (addr ∷ addrs) =
    (chunk_file_name name i parts, addr) ∷ owned name parts (i + 1) addrs

abbrev pub asked : Planned → Text × Text
asked p = (p.chunk, p.owner_addr)

target_missing :
    (topology : Map Text) (host current : Text) (k : ℕ)
    → get topology current ≡ none
    → target_addrs topology host current (suc k) ≡ none
unfolding target_addrs
target_missing topology host current k e = rw (target_addrs, e)

target_found :
    (topology : Map Text) (host current next : Text) (k : ℕ)
    → get topology current ≡ some next
    → target_addrs topology host current (suc k)
      ≡ onwards (address host next) (target_addrs topology host next k)
unfolding target_addrs
target_found topology host current next k e = rw (target_addrs, e)

onwards-some :
    (addr : Text) (o : Option (List Text)) (addrs : List Text)
    → onwards addr o ≡ some addrs
    → (rest : List Text) × ((o ≡ some rest) × (addrs ≡ addr ∷ rest))
unfolding onwards
onwards-some addr none addrs h = absurd (cc)
onwards-some addr (some rest) addrs h = (rest, (refl, sym (some-injective _ _ h)))

-- A step of `target_addrs` that found every owner.
record Step (topology : Map Text) (host current : Text) (k : ℕ) (addrs : List Text) : Type 0 where
  next : Text
  rest : List Text
  goes : get topology current ≡ some next
  finds : target_addrs topology host next k ≡ some rest
  first : addrs ≡ address host next ∷ rest

targets-Step :
    (topology : Map Text) (host current : Text) (k : ℕ) (addrs : List Text)
    → target_addrs topology host current (suc k) ≡ some addrs
    → Step topology host current k addrs
targets-Step topology host current k addrs h = elim (Option-cases (get topology current)) [
  | inl e ↦
      let none_found : none ≡ some addrs = sym (target_missing topology host current k e) ∙ h in cc
  | inr (next, e) ↦
      let (rest, (finds, first)) =
        onwards-some (address host next) (target_addrs topology host next k) addrs
          (sym (target_found topology host current next k e) ∙ h) in
      record { next = next; rest = rest; goes = e; finds = finds; first = first }
]

plan_found :
    (topology : Map Text) (host name addr current next : Text) (parts i k : ℕ)
    → get topology current ≡ some next
    → pull_plan topology host name parts addr current i (suc k)
      ≡ record { chunk = chunk_file_name name i parts; owner_addr = addr; owner_port = current }
        ∷ pull_plan topology host name parts (address host next) next (i + 1) k
unfolding pull_plan
plan_found topology host name addr current next parts i k e = rw (pull_plan, e)

plan_missing :
    (topology : Map Text) (host name addr current : Text) (parts i k : ℕ)
    → get topology current ≡ none
    → pull_plan topology host name parts addr current i (suc k)
      ≡ record { chunk = chunk_file_name name i parts; owner_addr = addr; owner_port = current }
        ∷ []
unfolding pull_plan
plan_missing topology host name addr current parts i k e = rw (pull_plan, e)

plan_one :
    (topology : Map Text) (host name addr current : Text) (parts i : ℕ)
    → map asked (pull_plan topology host name parts addr current i 1)
      ≡ owned name parts i (addr ∷ [])
unfolding pull_plan
plan_one topology host name addr current parts i = elim (Option-cases (get topology current)) [
  | inl e ↦ ap (map asked) (plan_missing topology host name addr current parts i 0 e)
  | inr (next, e) ↦ ap (map asked) (plan_found topology host name addr current next parts i 0 e)
]

-- Where the push finds every owner in the topology, the pull plans the same chunks at the same
-- addresses, the start's own first.
pub targets-pull_plan :
    (topology : Map Text) (host name addr current : Text) (parts i k : ℕ) (addrs : List Text)
    → target_addrs topology host current k ≡ some addrs
    → map asked (pull_plan topology host name parts addr current i (suc k))
      ≡ owned name parts i (addr ∷ addrs)
unfolding target_addrs
targets-pull_plan topology host name addr current parts i zero addrs h =
    plan_one topology host name addr current parts i
    ∙ ap (λ as'. owned name parts i (addr ∷ as')) (some-injective _ _ h)
targets-pull_plan topology host name addr current parts i (suc k) addrs h =
    let s = targets-Step topology host current k addrs h in
    ap (map asked) (plan_found topology host name addr current s.next parts i (suc k) s.goes)
    ∙ ap (λ r. (chunk_file_name name i parts, addr) ∷ r)
        (targets-pull_plan topology host name (address host s.next) s.next parts (i + 1) k s.rest
          s.finds)
    ∙ ap (λ as'. owned name parts i (addr ∷ as')) (sym s.first)

length-owned :
    (name : Text) (parts i : ℕ) (addrs : List Text)
    → length (owned name parts i addrs) ≡ length addrs
length-owned name parts i [] = refl
length-owned name parts i (addr ∷ addrs) = ap suc (length-owned name parts (i + 1) addrs)

length-map : (plan : List Planned) → length (map asked plan) ≡ length plan
length-map [] = refl
length-map (p ∷ plan) = ap suc (length-map plan)

pub length-targets :
    (topology : Map Text) (host current : Text) (k : ℕ) (addrs : List Text)
    → target_addrs topology host current k ≡ some addrs
    → length addrs ≡ k
unfolding target_addrs
length-targets topology host current zero addrs h = ap length (sym (some-injective _ _ h))
length-targets topology host current (suc k) addrs h =
    let s = targets-Step topology host current k addrs h in
    ap length s.first ∙ ap suc (length-targets topology host s.next k s.rest s.finds)

-- A topology that leads to every owner makes the plan complete.
pub pull_plan_complete :
    (topology : Map Text) (host name addr current : Text) (parts i k : ℕ) (addrs : List Text)
    → target_addrs topology host current k ≡ some addrs
    → length (pull_plan topology host name parts addr current i (suc k)) ≡ suc k
pull_plan_complete topology host name addr current parts i k addrs h =
    sym (length-map _)
    ∙ ap length (targets-pull_plan topology host name addr current parts i k addrs h)
    ∙ length-owned name parts i (addr ∷ addrs)
    ∙ ap suc (length-targets topology host current k addrs h)
