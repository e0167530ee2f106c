-- ===== src/Tests/Composed.antt =====
-- What the sample run of a node shows, as in src/guardian.rs, src/sender.rs and src/updater.rs.
use swarm_discovery.Prelude.{◌+◌, ◌≡◌, List, [], ◌∷◌, All}
use swarm_discovery.Std.BtreeMap
use swarm_discovery.Std.Net
use swarm_discovery.Std.Outcome.{ok}
use swarm_discovery.Messages.{MdnsMsg}
use swarm_discovery.Receiver.Loop.{Received, datagram, recv_error, receiver}
use swarm_discovery.Receiver.Loop.Serving.{status_of, receiver_serves}
use swarm_discovery.Receiver.Shape.{IsHeard}
use swarm_discovery.Node.Collecting.{gc_waiting, one_collection}
use swarm_discovery.Node.Current.{Announces, node-Announces}
use swarm_discovery.Node.Telling.{Known}
use swarm_discovery.Node.Knowing.{known_size, sender_knows_size}
use swarm_discovery.Node.Mirror.{app_knows_table}
use swarm_discovery.Tests.Names.{texts, texts-ServiceNames, service}
use swarm_discovery.Tests.Node.{numbers}
use swarm_discovery.Tests.Samples.{floats, node}
use swarm_discovery.Tests.System.{codec, at_last, last-Reached, node-Built}

app_knows_table_example : at_last.app ≡ at_last.updater.table
app_knows_table_example = app_knows_table texts codec floats numbers service node last-Reached

node-Announces_example :
    Announces texts codec floats numbers service node at_last.sender.discoverer
      at_last.sender.response_msg
node-Announces_example =
    node-Announces texts codec floats numbers service node node-Built last-Reached

one_collection_example : at_last.gc_timers + gc_waiting at_last.updates ≡ 1
one_collection_example = one_collection texts codec floats numbers service node last-Reached

sender_knows_size_example :
    Known
      (known_size texts codec floats numbers service node at_last)
      (BtreeMap.len at_last.updater.table)
sender_knows_size_example = sender_knows_size texts codec floats numbers service node last-Reached

abbrev datagrams : List Received
datagrams = datagram 11 [] (Net.v4 7) ∷ recv_error ∷ datagram 12 [] (Net.v4 7) ∷ []

receiver_serves_example :
    (msgs : List MdnsMsg) × (receiver texts codec service datagrams
      ≡ ok (msgs, status_of datagrams))
    × All IsHeard msgs
receiver_serves_example =
    receiver_serves texts codec service texts-ServiceNames.local texts-ServiceNames.local_parsed
      datagrams
