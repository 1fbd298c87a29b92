-- ===== src/Protocol/Lines.antt =====
-- The line of a command is one line: only the line break that ends it is one.
use ouroboros_fs.Base.{ℕ, refl, [], ◌∷◌, arith}
use ouroboros_fs.Text.{Text, codes, Lacks}
use ouroboros_fs.Text.Decimal.{decimal}
use ouroboros_fs.Protocol.Command.{
  Command, node_next, node_status, node_ping, node_metrics, node_heal, node_heal_hop,
  node_heal_done, ring_forward, topology_walk, topology_hop, topology_done, topology_set,
  netmap_discover, netmap_hop, netmap_done, netmap_set, netmap_get, file_push, file_pull, file_list,
  file_tags_set, file_push_chunk, file_get_chunk, file_backup_push, file_get_backup_chunk,
  file_content_push,
}
use ouroboros_fs.Protocol.Wire.{body, ◌▸◌}
use ouroboros_fs.Protocol.Sendable.{
  IsSendable, Clean, Clean-▸, Clean-field, Clean-white, decimal-IsField, filename-IsField,
}

number-Clean : (k : ℕ) → Clean (decimal k)
number-Clean k = Clean-field (decimal-IsField k)

number-▸ : (k : ℕ) (s : Text) → Clean s → Clean (decimal k ▸ s)
number-▸ k s h = Clean-▸ (decimal k) s (number-Clean k) h

-- Two words in front of the rest.
verb-Clean :
    (noun verb rest : Text) → Clean noun → Clean verb → Clean rest → Clean (noun ▸ verb ▸ rest)
verb-Clean noun verb rest hn hv hr = Clean-▸ noun (verb ▸ rest) hn (Clean-▸ verb rest hv hr)

body-Clean : (c : Command) → IsSendable c → Clean (body c)
unfolding body
body-Clean (node_next a) f = verb-Clean (codes "NODE") (codes "NEXT") a refl refl (Clean-field f)
body-Clean node_status f = refl
body-Clean node_ping f = refl
body-Clean node_metrics f = refl
body-Clean node_heal f = refl
body-Clean (node_heal_hop t a) f =
    verb-Clean (codes "NODE") (codes "HEAL-HOP") (t ▸ a) refl refl
      (Clean-▸ t a (Clean-field f.0) (Clean-field f.1))
body-Clean (node_heal_done t) f =
    verb-Clean (codes "NODE") (codes "HEAL-DONE") t refl refl (Clean-field f)
body-Clean (ring_forward k m) f =
    verb-Clean (codes "RING") (codes "FORWARD") (decimal k ▸ m) refl refl
      (Clean-▸ (decimal k) m (number-Clean k) f.1)
body-Clean topology_walk f = refl
body-Clean (topology_hop t a h) f =
    verb-Clean (codes "TOPOLOGY") (codes "HOP") (t ▸ a ▸ h) refl refl
      (Clean-▸ t (a ▸ h) (Clean-field f.0) (Clean-▸ a h (Clean-field f.1) f.2))
body-Clean (topology_done t h) f =
    verb-Clean (codes "TOPOLOGY") (codes "DONE") (t ▸ h) refl refl
      (Clean-▸ t h (Clean-field f.0) f.1)
body-Clean (topology_set h) f = verb-Clean (codes "TOPOLOGY") (codes "SET") h refl refl f
body-Clean netmap_discover f = refl
body-Clean (netmap_hop t a e) f =
    verb-Clean (codes "NETMAP") (codes "HOP") (t ▸ a ▸ e) refl refl
      (Clean-▸ t (a ▸ e) (Clean-field f.0) (Clean-▸ a e (Clean-field f.1) f.2))
body-Clean (netmap_done t e) f =
    verb-Clean (codes "NETMAP") (codes "DONE") (t ▸ e) refl refl (Clean-▸ t e (Clean-field f.0) f.1)
body-Clean (netmap_set e) f =
    verb-Clean (codes "NETMAP") (codes "SET") e refl refl (Clean-white e f)
body-Clean netmap_get f = refl
body-Clean (file_push k n) f =
    verb-Clean (codes "FILE") (codes "PUSH") (decimal k ▸ n) refl refl
      (Clean-▸ (decimal k) n (number-Clean k) (Clean-field (filename-IsField f.1)))
body-Clean (file_pull n) f =
    verb-Clean (codes "FILE") (codes "PULL") n refl refl (Clean-field (filename-IsField f))
body-Clean file_list f = refl
body-Clean (file_tags_set e) f = verb-Clean (codes "FILE") (codes "TAGS-SET") e refl refl f
body-Clean (file_push_chunk n a b p i s) f =
    let d = decimal i ▸ decimal s in
    let r =
      number-▸ a (decimal b ▸ decimal p ▸ d)
        (number-▸ b (decimal p ▸ d) (number-▸ p d (number-▸ i (decimal s) (number-Clean s)))) in
    verb-Clean (codes "FILE") (codes "PUSH-CHUNK") (n ▸ decimal a ▸ decimal b ▸ decimal p ▸ d) refl
      refl
      (Clean-▸ n (decimal a ▸ decimal b ▸ decimal p ▸ d) (Clean-field (filename-IsField f.0)) r)
body-Clean (file_get_chunk n) f =
    verb-Clean (codes "FILE") (codes "GET-CHUNK") n refl refl (Clean-field (filename-IsField f))
body-Clean (file_backup_push n k) f =
    verb-Clean (codes "FILE") (codes "BACKUP-PUSH") (n ▸ decimal k) refl refl
      (Clean-▸ n (decimal k) (Clean-field (filename-IsField f.0)) (number-Clean k))
body-Clean (file_get_backup_chunk n) f =
    verb-Clean (codes "FILE") (codes "GET-BACKUP-CHUNK") n refl refl
      (Clean-field (filename-IsField f))
body-Clean (file_content_push n k) f =
    verb-Clean (codes "FILE") (codes "CONTENT-PUSH") (n ▸ decimal k) refl refl
      (Clean-▸ n (decimal k) (Clean-field (filename-IsField f.0)) (number-Clean k))

pub no_break : (s : Text) → Clean s → Lacks b'\n' s
no_break [] h = tt
no_break (c ∷ s) h = (ground arith, no_break s (ground arith))

pub body-Lacks : (c : Command) → IsSendable c → Lacks b'\n' (body c)
body-Lacks c f = no_break (body c) (body-Clean c f)
