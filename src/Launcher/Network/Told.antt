-- ===== src/Launcher/Network/Told.antt =====
-- A launch of `set_network` (src/bin/main.rs) that ends without an error: every node was told its next
-- hop.
use ouroboros_fs.Base.{
  ℕ, ◌<◌, ◌≡◌, refl, sym, ap, ◌∙◌, false, List, [], ◌∷◌, Option, none, some, ◌==◌, arith, inl, inr,
  Option-cases, Result, ok, err,
}
use ouroboros_fs.Text.{Text}
use ouroboros_fs.Launcher.Network.{
  wiring, node_addrs, Machine, LaunchError, not_spawned, not_listening, send_node_next,
  first_failing, wire_after, wire_all, Launched, finish_launch, set_network,
}

module _ (m : Machine) where
  wired_on :
      (e : Text × Text) (es : List (Text × Text)) (rest : List (Text × Text) × Option LaunchError)
      (r : Result (Unit {0}) LaunchError)
      → (rest.1 ≡ none → rest.0 ≡ es)
      → (wire_after e rest r).1 ≡ none
      → (wire_after e rest r).0 ≡ e ∷ es
  unfolding wire_after
  wired_on e es rest (ok done) ih h = ap (λ l. e ∷ l) (ih h)
  wired_on e es rest (err f) ih h = cc

  -- Without an error, every node was told its next hop.
  wired_all : (es : List (Text × Text)) → (wire_all m es).1 ≡ none → (wire_all m es).0 ≡ es
  unfolding wire_all
  wired_all [] h = refl
  wired_all ((this, next) ∷ es) h =
      wired_on (this, next) es (wire_all m es) (send_node_next m this) (wired_all es) h

  wired_by : Result Launched LaunchError → List (Text × Text)
  wired_by (ok l) = l.wired
  wired_by (err e) = []

  finished :
      (host start : Text) (addrs : List Text) (commands : List (List Text)) (dns_port : Option ℕ)
      (w : List (Text × Text)) (o : Option LaunchError) (l : Launched)
      → finish_launch m host start addrs commands dns_port (w, o) ≡ ok l
      → (o ≡ none) × (l.wired ≡ w)
  unfolding finish_launch wired_by
  finished host start addrs commands dns_port w (some e) l h = cc
  finished host start addrs commands dns_port w none l h = (refl, sym (ap wired_by h))

  pub launched_wired :
      (nodes base wait_time max_file_size : ℕ) (host : Text) (dns_port : Option ℕ) (l : Launched)
      → 0 < nodes
      → set_network m nodes base host wait_time dns_port max_file_size ≡ ok l
      → l.wired ≡ wiring host base nodes 0 nodes
  unfolding set_network
  launched_wired nodes base wait_time max_file_size host dns_port l p =
      let addrs = node_addrs host base 0 nodes in
      let some_node : (nodes == 0) ≡ false = ground arith in
      let es = wiring host base nodes 0 nodes in
      elim (Option-cases (first_failing m.spawns not_spawned addrs)) [
        | inr (e, f) ↦ rw (some_node, f) (λ h. cc)
        | inl f ↦ elim (Option-cases (first_failing m.listens not_listening addrs)) [
          | inr (e, g) ↦ rw (some_node, f, g) (λ h. cc)
          | inl g ↦
              rw (some_node, f, g)
                (λ h.
                  let (all_told, same) =
                    finished host _ addrs _ dns_port (wire_all m es).0 (wire_all m es).1 l h in
                  same ∙ wired_all es all_told)
        ]
      ]
