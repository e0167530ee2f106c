-- ===== src/Tests/Samples.antt =====
-- A sample node. The names are texts, and the parameters for other libraries are simple functions.
use swarm_discovery.Prelude.{◌*◌, ◌/◌, ◌≡◌, refl, min, true, [], ◌∷◌, none, some, arith}
use swarm_discovery.Std.BtreeMap
use swarm_discovery.Std.BtreeMap.{BtreeMap, IsOrdered}
use swarm_discovery.Std.Float.{FloatOps}
use swarm_discovery.Std.Net
use swarm_discovery.Std.Net.{IpAddr, ip_ord, endpoint_cmp, ip_cmp}
use swarm_discovery.Std.Ord.{list_ord, nat_ord, pair_ord, list_cmp}
use swarm_discovery.Std.Outcome.{ok}
use swarm_discovery.Std.Text.{Str, codes, lead, utf8_from}
use swarm_discovery.Discoverer.{Discoverer}
use swarm_discovery.Dns.{Codec, Message}
use swarm_discovery.Peer.{Peer, v4_only, udp}
use swarm_discovery.Sender.Response.{make_response}
use swarm_discovery.Wire.RoundTrip.{IsAnnounceable, announcement, make_response-announcement}
use swarm_discovery.Tests.Names.{texts, texts-ServiceNames, node_id, service}

-- Numbers for floats: whole seconds, and no fractions.
abbrev pub floats : FloatOps
floats = record {
  mul = ◌*◌;
  div = ◌/◌;
  min = min;
  ceil = λ x. x;
  from_usize = λ x. x;
  to_u32 = λ x. x;
  as_secs_f32 = λ d. d / 1_000_000_000;
  from_secs_f32 = λ x. ok (x * 1_000_000_000);
}

abbrev pub me : Peer
me = record {
  addrs = (Net.v4 1, 80) ∷ (Net.v4 1, 443) ∷ (Net.v6 1, 80) ∷ [];
  last_seen = 5;
  txt = (codes "k", some (codes "v")) ∷ (codes "m", none) ∷ [];
}

pub me-IsAnnounceable : IsAnnounceable me
unfolding pair_ord list_ord nat_ord ip_ord list_cmp utf8_from lead
me-IsAnnounceable = record {
  ascending = ground arith;
  ports = ground arith;
  plain = ground arith;
  ordered = ground arith;
}

abbrev pub node : Discoverer
node = record {
  name = codes "x";
  protocol = udp;
  peer_id = node_id;
  peers = (node_id, me) ∷ [];
  tau = 2_000_000_000;
  phi = 1;
  class = v4_only;
  multicast_interfaces = [];
}

pub node_peer : BtreeMap.get node_id node.peers ≡ some me
unfolding BtreeMap.get list_ord list_cmp nat_ord
node_peer = refl

pub node_id-IsUtf8 : utf8_from [] node_id ≡ true
unfolding utf8_from lead
node_id-IsUtf8 = refl

abbrev pub own_message : Message Str
own_message = announcement texts node_id service texts-ServiceNames me

abbrev pub codec_of : Message Str → Codec Str
codec_of msg = record { from_vec = λ bytes. some msg; to_vec = λ m. some [] }

pub made : make_response texts node service ≡ ok (some own_message)
made =
    make_response-announcement texts node_id service texts-ServiceNames node me refl node_peer
      me-IsAnnounceable.ports
