-- ===== src/Std/Net.antt =====
-- `std::net`: an IPv4 address is its 32-bit number, an IPv6 address its 128-bit number. Their derived
-- order is that of the octets, and every IPv4 address stands before every IPv6 address.
use swarm_discovery.Prelude.{ℕ, compare, Ordering, lt, gt, arith, ◌+◌, ◌*◌}
use swarm_discovery.Std.Ord.{
  Ord, IsLawful, IsExact, nat_ord, pair_ord, pair_cmp-IsExact, compare-IsExact,
}

pub data IpAddr : Type 0 where
  v4 : ℕ → IpAddr
  v6 : ℕ → IpAddr

pub ip_cmp : IpAddr → IpAddr → Ordering
ip_cmp (v4 a) (v4 b) = compare a b
ip_cmp (v4 a) (v6 b) = lt
ip_cmp (v6 a) (v4 b) = gt
ip_cmp (v6 a) (v6 b) = compare a b

pub ip_cmp-IsLawful : IsLawful ip_cmp
unfolding ip_cmp
ip_cmp-IsLawful = ground arith

pub ip_cmp-IsExact : IsExact ip_cmp
unfolding ip_cmp
ip_cmp-IsExact = ground arith

instance unfoldable pub ip_ord : Ord IpAddr
unfolding ip_cmp
ip_ord = record { cmp = ip_cmp; lawful = ip_cmp-IsLawful }

-- `Ipv4Addr::new`
abbrev pub ipv4_new : ℕ → ℕ → ℕ → ℕ → ℕ
ipv4_new a b c d = ((a * 256 + b) * 256 + c) * 256 + d

-- An address and a port.
abbrev pub Endpoint : Type 0
Endpoint = IpAddr × ℕ

-- Endpoints compare by address, then by port.
abbrev pub endpoint_cmp : Endpoint → Endpoint → Ordering
endpoint_cmp = (pair_ord {A = IpAddr} {B = ℕ}).cmp

ip_ord-IsExact : IsExact ip_ord.cmp
unfolding ip_ord
ip_ord-IsExact = ip_cmp-IsExact

nat_ord-IsExact : IsExact nat_ord.cmp
unfolding nat_ord
nat_ord-IsExact = compare-IsExact

pub endpoint-IsExact : IsExact endpoint_cmp
unfolding pair_ord
endpoint-IsExact = pair_cmp-IsExact ip_ord-IsExact nat_ord-IsExact
