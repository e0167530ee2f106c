-- ===== src/Tests/Discovery.antt =====
-- A second node, which learns of the first.
use swarm_discovery.Prelude.{arith, ℕ, ◌≡◌, refl, false, List, [], ◌∷◌, some, none}
use swarm_discovery.Std.BtreeMap
use swarm_discovery.Std.BtreeMap.{BtreeMap}
use swarm_discovery.Std.Net
use swarm_discovery.Std.Net.{Endpoint}
use swarm_discovery.Std.Ord.{list_ord, nat_ord}
use swarm_discovery.Std.Outcome.{ok}
use swarm_discovery.Std.Text.{Str, codes}
use swarm_discovery.Std.Time.{checked, Instant}
use swarm_discovery.Discoverer.{Discoverer}
use swarm_discovery.Dns.{Codec}
use swarm_discovery.Guardian
use swarm_discovery.Messages.{size_subscription, size_update, peers, response}
use swarm_discovery.Sender.Delay.{query_delay, part_of}
use swarm_discovery.Sender.Machine.{
  State, Effect, querying, subscribe_size, start_timer, start, begin_query, dispatch,
  while_querying, send_peers,
}
use swarm_discovery.Sender.Response.{make_response}
use swarm_discovery.Updater
use swarm_discovery.Updater.Callbacks.{replay}
use swarm_discovery.Node.{Node, Reach, begin, next, updater_round, sender_round, started, Step}
use swarm_discovery.Node.Meeting.{taken_in, node-learns}
use swarm_discovery.Node.Settling.{Rounds, done, more}
use swarm_discovery.Wire.RoundTrip.{heard}
use swarm_discovery.Peer.{Peer, TxtData}
use swarm_discovery.Tests.Names.{texts, texts-ServiceNames, node_id, service}
use swarm_discovery.Tests.Node.{numbers, both_v4, only_v4}
use swarm_discovery.Tests.Samples.{
  floats, me, me-IsAnnounceable, node, node_peer, node_id-IsUtf8, own_message,
}
use swarm_discovery.Tests.System.{codec, env, interval, last-Reached, node-Built}

abbrev pub other : Discoverer
other = record node { peer_id = codes "n2"; peers = [] }

abbrev other_sender : State Str
other_sender = record {
  discoverer = other;
  response_msg = none;
  timeout_count = 0;
  swarm_size = 1;
  extra_delay = 0;
  has_responded = false;
  phase = querying;
}

abbrev other_effects : List (Effect Str)
other_effects = subscribe_size ∷ start_timer (ok 2_000_000_600) 0 ∷ []

other_started : start texts floats service env other ≡ ok (other_sender, other_effects)
unfolding start begin_query make_response query_delay part_of checked BtreeMap.get
other_started = refl

abbrev subscribed : Updater.State
subscribed = record { table = []; subscribers = (0, tt) ∷ [] }

-- The second node, when it has handled its first message, with any codec.
module _ (c : Codec Str) where
  abbrev pub quiet : Node Str ℕ
  quiet =
      record (started texts c floats numbers service other (Guardian.start numbers 1 only_v4 6).0
        other_sender other_effects) { updater = subscribed; updates = [] }

  pub quiet-Reached : Reach texts c floats numbers service other only_v4 quiet
  unfolding Updater.handle_input BtreeMap.insert Updater.Callbacks.replay
  quiet-Reached =
      next
        (begin 1 6 env other_sender other_effects 2_469_246_924 (omega arith) interval
          other_started)
        (updater_round 10 (size_subscription 0) [] subscribed [] 2_469_246_924 interval refl refl)

  module _ (id : Str) (e : Endpoint) (es : List Endpoint) (txt : TxtData) (now : Instant) where
    -- A response with one peer, which has an address.
    abbrev learnt : BtreeMap Str Peer
    learnt = (id, record { addrs = e ∷ es; last_seen = now; txt = txt }) ∷ []

    abbrev knowing : Updater.State
    knowing = record { table = learnt; subscribers = (0, tt) ∷ [] }

    abbrev told : List Updater.Effect
    told =
        Updater.callback id (record { addrs = e ∷ es; last_seen = now; txt = txt })
        ∷ Updater.send 0 1
        ∷ []

    abbrev pub met : Node Str ℕ
    met = record quiet { updater = knowing; app = replay told BtreeMap.empty }

    takes_in :
        Updater.handle_input floats 2_000_000_000 1 2_469_246_924 22 subscribed (peers learnt)
        ≡ ok (knowing, told)
    unfolding Updater.handle_input Updater.insert_peers Updater.notify BtreeMap.get BtreeMap.insert
    takes_in = refl

    pub meets : Rounds texts c floats numbers service other (taken_in learnt quiet) 3 met
    unfolding dispatch while_querying
    meets =
        more
          (more
            (more done
              (sender_round 21 0 (response learnt) [] other_sender (send_peers learnt ∷ [])
                (omega arith) refl refl)
              tt)
            (updater_round 22 (peers learnt) [] knowing told 2_469_246_924 interval refl takes_in)
            tt)
          (sender_round 23 0 (size_update 1) [] other_sender [] (omega arith) refl refl) tt

node-learns_example :
    Step texts codec floats numbers service other
      (quiet codec)
      (taken_in (heard node_id 20 me) (quiet codec))
    × (BtreeMap.get node_id
          (met codec node_id (Net.v4 1, 80) ((Net.v4 1, 443) ∷ (Net.v6 1, 80) ∷ []) me.txt 20).app
        ≡ some (record me { last_seen = 20 }))
node-learns_example =
    node-learns texts codec floats numbers service other only_v4 codec numbers node both_v4
      texts-ServiceNames me own_message 20 [] (Net.v4 7) node-Built last-Reached node_peer refl refl
      me-IsAnnounceable.plain node_id-IsUtf8 refl (quiet-Reached codec) tt
      (meets codec node_id (Net.v4 1, 80) ((Net.v4 1, 443) ∷ (Net.v6 1, 80) ∷ []) me.txt 20)
      (refl, refl, refl)
