-- ===== src/Tests/System.antt =====
-- A run of a whole node, whose own packet comes back to it.
use swarm_discovery.Prelude.{ℕ, ◌≡◌, refl, List, [], ◌∷◌, Option, none, some, arith, subst, false}
use swarm_discovery.Std.BtreeMap
use swarm_discovery.Std.BtreeMap.{BtreeMap}
use swarm_discovery.Std.HashMap
use swarm_discovery.Std.Net
use swarm_discovery.Std.Net.{IpAddr, ip_ord, endpoint_cmp, ip_cmp}
use swarm_discovery.Std.Ord.{list_ord, nat_ord, pair_ord, list_cmp}
use swarm_discovery.Std.Outcome.{ok}
use swarm_discovery.Std.Sort.{sort_unstable, dedup}
use swarm_discovery.Std.Text.{Str, codes}
use swarm_discovery.Std.Time.{checked}
use swarm_discovery.Discoverer
use swarm_discovery.Discoverer.{
  Discoverer, new, with_protocol, with_cadence, with_response_rate, with_ip_class, with_addrs,
  with_txt_attributes, insert_attributes, update_me, validate_txt_attribute,
}
use swarm_discovery.Guardian
use swarm_discovery.Messages.{
  GuardianInput, size_update, gc, set_txt, update, response, timeout, peers, size_subscription,
}
use swarm_discovery.Peer.{Peer, new_peer, v4_only, udp}
use swarm_discovery.Dns.{Codec}
use swarm_discovery.Receiver.{handle_msg}
use swarm_discovery.Sender.Machine
use swarm_discovery.Sender.Machine.{
  begin_query, querying, subscribe_size, start_timer, send_peers, Environment, start, dispatch,
  while_querying, message,
}
use swarm_discovery.Sender.Delay.{query_delay, part_of}
use swarm_discovery.Sender.Sound.{
  Built, from_new, cadence_set, rate_set, class_set, addrs_added, txt_added,
}
use swarm_discovery.Updater
use swarm_discovery.Updater.{callback, send, gc_interval, insert_peers, notify}
use swarm_discovery.Wire.RoundTrip.{heard, handle_msg-make_response}
use swarm_discovery.Node.{
  Node, Reach, begin, next, call, guardian_round, receive, fire, sender_round, updater_round,
  gc_fires, started, sends,
}
use swarm_discovery.Tests.Names.{texts, texts-ServiceNames, node_id, service}
use swarm_discovery.Tests.Node.{numbers, both_v4}
use swarm_discovery.Tests.Samples.{
  floats, me, me-IsAnnounceable, node, node_peer, node_id-IsUtf8, own_message, codec_of, made,
}

abbrev pub attributes : List (Str × Option Str)
attributes = (codes "m", none) ∷ (codes "k", some (codes "v")) ∷ []

abbrev pub with_attributes : Discoverer
with_attributes = record (new (codes "x") node_id) {
  peers = (node_id, record { addrs = []; last_seen = 5; txt = me.txt }) ∷ [];
}

pub accepted :
    with_txt_attributes 5 attributes (new (codes "x") node_id) ≡ Discoverer.ok with_attributes
unfolding with_txt_attributes insert_attributes validate_txt_attribute new new_peer BtreeMap.get
    BtreeMap.insert list_ord nat_ord list_cmp
accepted = refl

abbrev built : Discoverer
built = with_ip_class v4_only (
    with_response_rate 1 (
      with_cadence 2_000_000_000 (
        with_addrs 7 443 (Net.v4 1 ∷ [])
          (with_addrs 6 80 (Net.v4 1 ∷ Net.v6 1 ∷ []) with_attributes))))

built-node : built ≡ node
unfolding with_ip_class with_response_rate with_cadence with_addrs new BtreeMap.get BtreeMap.insert
    list_ord nat_ord list_cmp sort_unstable dedup pair_ord ip_ord
built-node = refl

pub node-Built : Built node
node-Built = subst Built built-node (
    class_set v4_only (
      rate_set 1 (
        cadence_set 2_000_000_000 (
          addrs_added 7 443 (Net.v4 1 ∷ []) (omega arith) (
            addrs_added 6 80 (Net.v4 1 ∷ Net.v6 1 ∷ []) (omega arith)
              (txt_added 5 attributes accepted (from_new (codes "x") node_id)))))))

abbrev pub codec : Codec Str
codec = codec_of own_message

abbrev pub env : Environment Str
env = record { now = 8; millionth = 3; send_msg = λ msg mode. ok tt }

abbrev pub sender_state : Machine.State Str
sender_state = record {
  discoverer = node;
  response_msg = some own_message;
  timeout_count = 0;
  swarm_size = 1;
  extra_delay = 0;
  has_responded = false;
  phase = querying;
}

abbrev pub sender_effects : List (Machine.Effect Str)
sender_effects = subscribe_size ∷ start_timer (ok 2_000_000_600) 0 ∷ []

pub sender_started : start texts floats service env node ≡ ok (sender_state, sender_effects)
unfolding start begin_query query_delay part_of checked
sender_started = rw made refl

abbrev Reached : Node Str ℕ → Type 0
Reached s = Reach texts codec floats numbers service node both_v4 s

abbrev at_start : Node Str ℕ
at_start =
    started texts codec floats numbers service node (Guardian.start numbers 1 both_v4 6).0
      sender_state sender_effects

pub interval : gc_interval 2_000_000_000 ≡ ok 2_469_246_924
unfolding gc_interval checked
interval = refl

start-Reached : Reached at_start
start-Reached =
    begin 1 6 env sender_state sender_effects 2_469_246_924 (omega arith) interval sender_started

abbrev pub own_peers : BtreeMap Str Peer
own_peers = heard node_id 9 me

packet_heard : handle_msg texts codec 9 [] service (Net.v4 7) ≡ ok (some (response own_peers))
packet_heard =
    handle_msg-make_response texts node_id service texts-ServiceNames codec 9 [] (Net.v4 7) node me
      own_message node_id-IsUtf8 refl node_peer me-IsAnnounceable made refl

abbrev after_packet : Node Str ℕ
after_packet = record at_start { updates = size_subscription 0 ∷ peers own_peers ∷ [] }

packet-Reached : Reached after_packet
unfolding dispatch while_querying
packet-Reached =
    next (next start-Reached (receive 9 [] (Net.v4 7) (response own_peers) tt packet_heard)) (
      sender_round 9 3 (response own_peers) [] sender_state (send_peers own_peers ∷ [])
        (omega arith) refl relays)
  where
    relays :
        dispatch texts floats service
          (record { now = 9; millionth = 3; send_msg = sends codec both_v4 })
          querying
          (message (response own_peers))
          sender_state
        ≡ ok (sender_state, send_peers own_peers ∷ [])
    relays = refl

abbrev pub subscribed : Updater.State
subscribed = record { table = []; subscribers = (0, tt) ∷ [] }

abbrev with_peer : Updater.State
with_peer = record { table = own_peers; subscribers = (0, tt) ∷ [] }

abbrev pub after_peers : Node Str ℕ
after_peers = record at_start {
  updater = with_peer;
  mailbox = size_update 1 ∷ [];
  updates = [];
  app = own_peers;
}

pub subscribes :
    Updater.handle_input floats 2_000_000_000 1 2_469_246_924 10 Updater.initial
      (size_subscription 0)
    ≡ ok (subscribed, [])
unfolding Updater.handle_input BtreeMap.insert
subscribes = refl

learns :
    Updater.handle_input floats 2_000_000_000 1 2_469_246_924 10 subscribed (peers own_peers)
    ≡ ok (with_peer, callback node_id (record me { last_seen = 9 }) ∷ send 0 1 ∷ [])
unfolding Updater.handle_input insert_peers notify BtreeMap.get BtreeMap.insert
learns = refl

peers-Reached : Reached after_peers
unfolding Updater.Callbacks.replay BtreeMap.insert swarm_discovery.Peer.is_expiry
peers-Reached =
    next
      (next packet-Reached (
        updater_round 10 (size_subscription 0) (peers own_peers ∷ []) subscribed [] 2_469_246_924
          interval refl subscribes))
      (updater_round 10 (peers own_peers) [] with_peer _ 2_469_246_924 interval refl learns)

abbrev pub input : GuardianInput
input = set_txt (codes "z") none

abbrev pub at_last : Node Str ℕ
at_last = record after_peers {
  timers = [];
  mailbox = size_update 1 ∷ update input ∷ timeout 0 ∷ [];
  gc_timers = 0;
  updates = gc ∷ [];
}

pub last-Reached : Reached at_last
unfolding Guardian.start HashMap.get nat_ord Guardian.handle_input
last-Reached =
    next
      (next
        (next (next peers-Reached (call input (record { named = refl; short = ground arith }) tt))
          (guardian_round 2 input [] refl refl))
        (fire [] [] 2_000_000_600 0 refl))
      (gc_fires 0 refl)
