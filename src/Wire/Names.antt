-- ===== src/Wire/Names.antt =====
-- What the code relies on when it forms the names of a service: hickory-proto takes the identifier
-- of the peer for one label, and the names of different ports for different names.
use swarm_discovery.Prelude.{ℕ, ◌<◌, ◌≡◌, eq, some}
use swarm_discovery.Std.Text.{Str, codes}
use swarm_discovery.Dns.{NameApi}
use swarm_discovery.Sender.Response.{target_text, service_instance}

pub record ServiceNames {Name : Type 0} (n : NameApi Name) (peer_id : Str) (service_name : Name)
    : Type 0 where
  pub local : Name
  pub own : Name
  pub target : ℕ → Name
  pub local_parsed : n.from_str (codes "local.") ≡ some local
  pub own_parsed : service_instance n peer_id service_name ≡ some own
  pub own_label : n.first_label own ≡ some peer_id
  pub own_base : n.order.cmp (n.base_name own) service_name ≡ eq
  pub target_parsed : (p : ℕ) → p < 65536 → n.from_str (target_text peer_id p) ≡ some (target p)
  pub target_base : (p : ℕ) → p < 65536 → n.order.cmp (n.base_name (target p)) local ≡ eq
  pub target_injective :
      (p q : ℕ) → p < 65536 → q < 65536 → n.order.cmp (target p) (target q) ≡ eq → p ≡ q
