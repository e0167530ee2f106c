-- ===== src/Examples/PeerSet.antt =====
-- The peer set that the examples keep is the table of the updater.
use swarm_discovery.Prelude.{
  ◌≡◌, ◌≢◌, refl, ap, ◌∙◌, List, [], ◌∷◌, arith, All, if◌then◌else◌, length, ◌==◌, if_both,
}
use swarm_discovery.Std.BtreeMap
use swarm_discovery.Std.BtreeMap.{BtreeMap, IsOrdered}
use swarm_discovery.Std.BtreeMap.Laws.{insert-IsOrdered, remove-IsOrdered}
use swarm_discovery.Std.Float.{F32, FloatOps}
use swarm_discovery.Std.HashMap
use swarm_discovery.Std.HashSet
use swarm_discovery.Std.HashSet.{HashSet, contains-insert, contains-remove}
use swarm_discovery.Std.Net.{Endpoint}
use swarm_discovery.Std.Ord.{list_cmp-IsExact, compare-IsExact, list_ord, nat_ord}
use swarm_discovery.Std.Outcome.{Outcome, ok, panic}
use swarm_discovery.Std.Text.{Str, is_empty}
use swarm_discovery.Std.Time.{Duration, Instant}
use swarm_discovery.Messages.{UpdaterInput}
use swarm_discovery.Peer.{Peer, is_expiry}
use swarm_discovery.Updater.{State, Effect, callback, send, start_gc, run, initial}
use swarm_discovery.Updater.Callbacks.{replay, FoundInput, run-Mirrors, Mirrors}
use swarm_discovery.Examples.{on_peer}

-- The calls of the callback, in their order.
abbrev pub on_peers : List Effect → HashSet Str → HashSet Str
on_peers [] peer_set = peer_set
on_peers (callback id peer ∷ effects) peer_set = on_peers effects (on_peer id peer peer_set).0
on_peers (send sub size ∷ effects) peer_set = on_peers effects peer_set
on_peers (start_gc interval ∷ effects) peer_set = on_peers effects peer_set

abbrev replayed : Str → Peer → BtreeMap Str Peer → BtreeMap Str Peer
replayed id peer m = if is_expiry peer then BtreeMap.remove id m else BtreeMap.insert id peer m

is_empty-is_expiry : (peer : Peer) → is_empty peer.addrs ≡ is_expiry peer
unfolding is_expiry
is_empty-is_expiry peer = go peer.addrs
  where
    go : (l : List Endpoint) → is_empty l ≡ (length l == 0)
    go [] = refl
    go (x ∷ l) = ground arith

-- One call keeps the set and the table the same at an identifier.
on_peer-replayed :
    (id : Str) (peer : Peer) (at : Str) (peer_set : HashSet Str) (m : BtreeMap Str Peer)
    → IsOrdered m
    → HashSet.contains at peer_set ≡ BtreeMap.contains_key at m
    → HashSet.contains at (on_peer id peer peer_set).0
      ≡ BtreeMap.contains_key at (replayed id peer m)
unfolding on_peer
on_peer-replayed id peer at peer_set m o h = ground (
  arith,
  is_empty-is_expiry peer,
  contains-insert at id peer_set,
  contains-remove at id (HashSet.insert id peer_set),
  BtreeMap.Laws.get-insert at id peer m,
  BtreeMap.Laws.get-remove at id m o,
)

on_peers-replay :
    (effects : List Effect) (at : Str) (peer_set : HashSet Str) (m : BtreeMap Str Peer)
    → IsOrdered m
    → HashSet.contains at peer_set ≡ BtreeMap.contains_key at m
    → HashSet.contains at (on_peers effects peer_set) ≡ BtreeMap.contains_key at (replay effects m)
unfolding replay
on_peers-replay [] at peer_set m o h = h
on_peers-replay (callback id peer ∷ effects) at peer_set m o h =
    on_peers-replay effects at (on_peer id peer peer_set).0 (replayed id peer m)
      (if_both IsOrdered (is_expiry peer) (remove-IsOrdered id m o) (insert-IsOrdered id peer m o))
      (on_peer-replayed id peer at peer_set m o h)
on_peers-replay (send sub size ∷ effects) at peer_set m o h =
    on_peers-replay effects at peer_set m o h
on_peers-replay (start_gc interval ∷ effects) at peer_set m o h =
    on_peers-replay effects at peer_set m o h

-- At first the set holds the identifier of the node, and the table nothing.
alone :
    (id my_peer_id : Str)
    → id ≢ my_peer_id
    → HashSet.contains id (HashSet.insert my_peer_id HashMap.empty)
      ≡ BtreeMap.contains_key {V = Peer} id []
unfolding BtreeMap.get HashMap.get HashMap.insert list_ord nat_ord
alone id my_peer_id other = ground (arith, other, list_cmp-IsExact compare-IsExact id my_peer_id)

-- The set of an example agrees with the table, but for the identifier of the node itself.
abbrev pub Agrees : Str → Outcome (State × List Effect) → Type 0
Agrees my_peer_id (ok (st, effects)) =
    (id : Str)
    → id ≢ my_peer_id
    → HashSet.contains id (on_peers effects (HashSet.insert my_peer_id HashMap.empty))
      ≡ BtreeMap.contains_key id st.table
Agrees my_peer_id panic = Unit

-- After any messages to the updater of a node that an example has set up, if those from the receivers
-- hold peers with addresses only, the peer set of the example holds an identifier other than its own
-- exactly if the table of the updater does, unless the updater has panicked.
pub run-Agrees :
    (f : FloatOps) (tau : Duration) (phi : F32) (interval : Duration)
    (inputs : List (Instant × UpdaterInput)) (my_peer_id : Str)
    → All (λ (e : Instant × UpdaterInput). FoundInput e.1) inputs
    → Agrees my_peer_id (run f tau phi interval initial inputs)
run-Agrees f tau phi interval inputs my_peer_id found =
    agreed (run f tau phi interval initial inputs) (
      run-Mirrors f tau phi interval inputs initial
        (record { table_ordered = tt; subscribers_ordered = tt }) found)
  where
    agreed : (r : Outcome (State × List Effect)) → Mirrors [] r → Agrees my_peer_id r
    agreed panic h = tt
    agreed (ok (st, effects)) h = λ id other.
        on_peers-replay effects id (HashSet.insert my_peer_id HashMap.empty) [] tt
          (alone id my_peer_id other)
        ∙ ap (BtreeMap.contains_key id) h.1
