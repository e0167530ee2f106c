-- ===== src/ChangeAddresses.antt =====
-- The test of src/lib.rs, test_change_addresses, in which a node changes its addresses while another
-- listens: what it sets up, what it does, and what it expects.
use swarm_discovery.Prelude.{
  ℕ, ◌≡◌, refl, sym, ap, subst, ◌∙◌, true, List, [], ◌∷◌, ◌++◌, some, arith,
}
use swarm_discovery.Std.BtreeMap
use swarm_discovery.Std.BtreeMap.{BtreeMap}
use swarm_discovery.Std.Float.{FloatOps, one}
use swarm_discovery.Std.Net.{IpAddr, v4, v6, Endpoint, ipv4_new, ip_ord}
use swarm_discovery.Std.Outcome.{ok}
use swarm_discovery.Std.Ord.{list_ord, nat_ord, pair_ord, list_cmp}
use swarm_discovery.Std.Sort.{sort_unstable, dedup, retain}
use swarm_discovery.Std.Text.{Str, codes, utf8_from, lead}
use swarm_discovery.Std.Time.{Instant, from_secs}
use swarm_discovery.Discoverer.{
  Discoverer, new, with_addrs, with_multicast_interfaces_v4, with_cadence, with_response_rate,
  update_me,
}
use swarm_discovery.Dns.{NameApi, Codec, Message}
use swarm_discovery.Guard.{Call, call_add, call_remove_port, make_all, of_task}
use swarm_discovery.Guard.Calls.{sent_by_all}
use swarm_discovery.Messages.{GuardianInput, MdnsMsg, add_addr, remove_port}
use swarm_discovery.Peer.{Peer, new_peer}
use swarm_discovery.Receiver.{handle_msg}
use swarm_discovery.Sender.Response.{update_peers, push_each}
use swarm_discovery.Sender.Sound.{
  Built, from_new, addrs_added, interfaces_set, cadence_set, rate_set,
}
use swarm_discovery.Socket.{SocketApi, Sockets}
use swarm_discovery.Wire.Names.{ServiceNames}
use swarm_discovery.Node.{Node, HasSocketFor, Reach}
use swarm_discovery.Node.Applying.{apply_all, inputs_of, own_all, waiting}
use swarm_discovery.Node.Calling.{with_inbox, make_all-Reached}
use swarm_discovery.Node.Changing.{calls-HasApplied}
use swarm_discovery.Node.Meeting.{with_message, packet-Learnt}
use swarm_discovery.Node.Resting.{IsAtRest}
use swarm_discovery.Node.Settling.{Rounds, Rounds-Reach}

abbrev pub peer_id1 : Str
peer_id1 = codes "test_peer1"

abbrev pub localhost : ℕ
localhost = ipv4_new 127 0 0 1

unfoldable pub discoverer1 : Instant → Discoverer
unfolding new with_addrs with_multicast_interfaces_v4 with_cadence with_response_rate
discoverer1 now = with_response_rate one (
    with_cadence (from_secs 1) (
      with_multicast_interfaces_v4 (localhost ∷ [])
        (with_addrs now 8000 (v4 localhost ∷ []) (new (codes "test_service") peer_id1))))

-- What is done with the guard.
abbrev pub changes : List Call
changes = call_add 9000 (v6 1 ∷ []) ∷ call_remove_port 8000 ∷ []

-- The addresses that are expected at first, and after the changes.
abbrev pub initial_addrs : List Endpoint
initial_addrs = (v4 localhost, 8000) ∷ []

abbrev pub updated_addrs : List Endpoint
updated_addrs = (v6 1, 9000) ∷ []

abbrev pub peer_with : List Endpoint → Instant → Peer
peer_with addrs now = record { addrs = addrs; last_seen = now; txt = [] }

discoverer1-Built : (now : Instant) → Built (discoverer1 now)
unfolding discoverer1
discoverer1-Built now = rate_set one (
    cadence_set (from_secs 1) (
      interfaces_set (localhost ∷ []) (
        addrs_added now 8000 (v4 localhost ∷ []) (omega arith)
          (from_new (codes "test_service") peer_id1))))

pub initial_peer :
    (now : Instant)
    → BtreeMap.get peer_id1 (discoverer1 now).peers ≡ some (peer_with initial_addrs now)
unfolding discoverer1 new with_addrs with_multicast_interfaces_v4 with_cadence with_response_rate
    update_me new_peer BtreeMap.get BtreeMap.insert list_ord list_cmp nat_ord sort_unstable dedup
    pair_ord ip_ord
initial_peer now = refl

-- After the two updates, at whatever times they are applied, only the new address is left.
pub updated_peer :
    (now now1 now2 : Instant)
    → let d =
        update_peers now2
          (remove_port 8000)
          (update_peers now1 (add_addr 9000 (v6 1 ∷ [])) (discoverer1 now)) in
      BtreeMap.get d.peer_id d.peers ≡ some (peer_with updated_addrs now)
unfolding discoverer1 new with_addrs with_multicast_interfaces_v4 with_cadence with_response_rate
    update_me new_peer BtreeMap.get BtreeMap.insert list_ord list_cmp nat_ord sort_unstable dedup
    pair_ord ip_ord update_peers push_each retain
updated_peer now now1 now2 = refl

after_both :
    (past : List (Instant × GuardianInput)) (now : Instant) (d : Discoverer)
    → inputs_of past ≡ add_addr 9000 (v6 1 ∷ []) ∷ remove_port 8000 ∷ []
    → d ≡ apply_all past (discoverer1 now)
    → BtreeMap.get d.peer_id d.peers ≡ some (peer_with updated_addrs now)
after_both [] now d e q = cc e
after_both (x ∷ []) now d e q = cc e
after_both ((now1, i) ∷ (now2, j) ∷ []) now d e q =
    let first : i ≡ add_addr 9000 (v6 1 ∷ []) = cc e in
    let second : j ≡ remove_port 8000 = cc e in
    let same : d
        ≡ update_peers now2 (remove_port 8000)
            (update_peers now1 (add_addr 9000 (v6 1 ∷ [])) (discoverer1 now)) =
      q
      ∙ ap (λ x. update_peers now2 j (update_peers now1 x (discoverer1 now))) first
      ∙ ap
          (λ x.
            update_peers now2 x (update_peers now1 (add_addr 9000 (v6 1 ∷ [])) (discoverer1 now)))
          second in
    subst (λ x. BtreeMap.get x.peer_id x.peers ≡ some (peer_with updated_addrs now)) (sym same)
      (updated_peer now now1 now2)
after_both (x ∷ y ∷ z ∷ past) now d e q = cc e

pub peer_id1-IsUtf8 : utf8_from [] peer_id1 ≡ true
unfolding utf8_from lead
peer_id1-IsUtf8 = refl

module _ {Name Os OsA : Type 0} (n : NameApi Name) (f : FloatOps) (service_name : Name)
    (codec : Codec Name) (api : SocketApi Os) (d : Discoverer) (sockets : Sockets)
    (codec_a : Codec Name) (api_a : SocketApi OsA) (sockets_a : Sockets)
    (names : ServiceNames n peer_id1 service_name) (begun : Instant) where
  -- What the test test_change_addresses expects: let the first node of the test be in a state that it
  -- reaches before any update, and let a packet come in at the second, any node of the same service in
  -- any state that it reaches, that parses as the response which the sender of the first keeps. When
  -- the second has come to rest with the message that its `handle_msg` makes of this packet, whatever
  -- message that is, it knows the first node with exactly its initial address. Let the guard of the
  -- first be called as in the test, and let that node come to rest. When then a packet that parses as
  -- the response which the sender of the first now keeps comes in at the second, again in any state
  -- that it reaches, and the second has come to rest with what `handle_msg` makes of it, the second
  -- knows the first node with exactly the new address: the old one is gone. Let the names of the
  -- service parse as `ServiceNames` says, and let the second node have a socket for IPv6 if a packet
  -- comes from there.
  pub change_addresses :
      {a b : Node Name OsA} {s t s' t' : Node Name Os} {i j k : ℕ} (task : ℕ) (now now' : Instant)
      (msg msg' : Message Name) (bytes bytes' : List ℕ) (from from' : IpAddr) (got got' : MdnsMsg)
      → Reach n codec_a f api_a service_name (discoverer1 begun) sockets_a a
      → a.sender.discoverer ≡ discoverer1 begun
      → waiting a ≡ []
      → a.sender.response_msg ≡ some msg
      → codec.from_vec bytes ≡ some msg
      → Reach n codec f api service_name d sockets s
      → HasSocketFor from s.guardian.sockets
      → handle_msg n codec now bytes service_name from ≡ ok (some got)
      → Rounds n codec f api service_name d (with_message got s) i t
      → IsAtRest t
      → Rounds n codec_a f api_a service_name
          (discoverer1 begun)
          (with_inbox n codec_a f api_a service_name
            (discoverer1 begun)
            sockets_a
            a
            (make_all changes (of_task task)).outbox)
          j
          b
      → IsAtRest b
      → b.sender.response_msg ≡ some msg'
      → codec.from_vec bytes' ≡ some msg'
      → Reach n codec f api service_name d sockets s'
      → HasSocketFor from' s'.guardian.sockets
      → handle_msg n codec now' bytes' service_name from' ≡ ok (some got')
      → Rounds n codec f api service_name d (with_message got' s') k t'
      → IsAtRest t'
      → (BtreeMap.get peer_id1 t.app ≡ some (peer_with initial_addrs now))
        × (BtreeMap.get peer_id1 t'.app ≡ some (peer_with updated_addrs now'))
  unfolding discoverer1
  change_addresses {a} {b} task now now' msg msg' bytes bytes' from from' got got' reached fresh
        none_waits made parsed r via handled rounds rest called rest_b made' parsed' r' via'
        handled' rounds' rest' =
      let built = discoverer1-Built begun in
      let first : BtreeMap.get a.sender.discoverer.peer_id a.sender.discoverer.peers
          ≡ some (peer_with initial_addrs begun) =
        subst (λ x. BtreeMap.get x.peer_id x.peers ≡ some (peer_with initial_addrs begun))
          (sym fresh) (initial_peer begun) in
      let (past, inputs, result, current) =
        calls-HasApplied n codec_a f api_a service_name (discoverer1 begun) sockets_a changes task
          built (omega arith, (tt, tt)) reached called rest_b in
      let second =
        after_both past begun b.sender.discoverer
          (inputs ∙ ap (λ l. l ++ own_all (sent_by_all changes)) none_waits)
          (result ∙ ap (apply_all past) fresh) in
      let reached_b =
        Rounds-Reach n codec_a f api_a service_name (discoverer1 begun)
          (make_all-Reached n codec_a f api_a service_name (discoverer1 begun) sockets_a changes
            task a (omega arith, (tt, tt)) reached)
          called in
      (
        packet-Learnt n codec f api service_name d sockets codec_a api_a (discoverer1 begun)
            sockets_a names (peer_with initial_addrs begun) msg now bytes from got built reached
            first made refl tt peer_id1-IsUtf8 parsed r via handled rounds rest,
        packet-Learnt n codec f api service_name d sockets codec_a api_a (discoverer1 begun)
            sockets_a names (peer_with updated_addrs begun) msg' now' bytes' from' got' built
            reached_b second made' refl tt peer_id1-IsUtf8 parsed' r' via' handled' rounds' rest',
      )
