-- ===== src/Tests/Packets.antt =====
-- Packets of the sample node, as in src/sender.rs and src/receiver.rs.
use swarm_discovery.Prelude.{◌≡◌, refl, eq, [], some, arith}
use swarm_discovery.Std.BtreeMap.{IsOrdered}
use swarm_discovery.Std.BtreeMap.Laws.{AllValues}
use swarm_discovery.Std.Net
use swarm_discovery.Std.Net.{IpAddr, ip_ord, endpoint_cmp, ip_cmp}
use swarm_discovery.Std.Ord.{list_ord, nat_ord, pair_ord, list_cmp}
use swarm_discovery.Std.Outcome.{ok}
use swarm_discovery.Std.Text.{Str}
use swarm_discovery.Dns
use swarm_discovery.Dns.{Codec, Message, Query, internet, ptr, new_message, add_query}
use swarm_discovery.Messages.{response}
use swarm_discovery.Receiver.{handle_msg}
use swarm_discovery.Receiver.Shape.{IsObserved, handle_msg-IsObserved}
use swarm_discovery.Sender.Response.{make_response}
use swarm_discovery.Wire.Contents.{Says, make_response-Says}
use swarm_discovery.Wire.RoundTrip.{heard, handle_msg-make_response}
use swarm_discovery.Tests.Names.{texts, texts-ServiceNames, node_id, service}
use swarm_discovery.Std.BtreeMap
use swarm_discovery.Discoverer
use swarm_discovery.Discoverer.{
  Discoverer, my_txt, update_me, with_txt_attributes, insert_attributes, validate_txt_attribute,
}
use swarm_discovery.Wire.Lengths.{Fits}
use swarm_discovery.Std.Text.{Str, codes}
use swarm_discovery.Std.Ord.{list_ord, nat_ord, list_cmp}
use swarm_discovery.Prelude.{List, [], ◌∷◌, Option, none, some, All, arith}
use swarm_discovery.Tests.Samples.{
  me, me-IsAnnounceable, node, node_peer, node_id-IsUtf8, own_message, codec_of, made,
}

make_response-Says_example :
    (msg : Message Str) × (make_response texts node service ≡ ok (some msg))
    × Says texts node_id service texts-ServiceNames me msg
make_response-Says_example =
    make_response-Says texts node_id service texts-ServiceNames node me refl node_peer
      (ground arith)

handle_msg-make_response_example :
    handle_msg texts (codec_of own_message) 9 [] service (Net.v4 7)
    ≡ ok (some (response (heard node_id 9 me)))
handle_msg-make_response_example =
    handle_msg-make_response texts node_id service texts-ServiceNames (codec_of own_message) 9 []
      (Net.v4 7) node me own_message node_id-IsUtf8 refl node_peer me-IsAnnounceable made refl

heard_again :
    handle_msg texts (codec_of own_message) 9 [] service (Net.v4 7)
    ≡ ok (some (response (heard node_id 9 me)))
heard_again =
    handle_msg-make_response texts node_id service texts-ServiceNames (codec_of own_message) 9 []
      (Net.v4 7) node me own_message node_id-IsUtf8 refl node_peer me-IsAnnounceable made refl

handle_msg-IsObserved_example :
    IsOrdered (heard node_id 9 me) × AllValues (IsObserved 9) (heard node_id 9 me)
handle_msg-IsObserved_example =
    handle_msg-IsObserved texts (codec_of own_message) 9 [] service (Net.v4 7) (heard node_id 9 me)
      heard_again

abbrev question : Query Str
question = record { query_name = service; query_type = ptr; query_class = internet }

abbrev questions : Message Str
questions = add_query question (new_message 0 Dns.query)

same_service : texts.order.cmp service service ≡ eq
unfolding list_ord list_cmp nat_ord
same_service = refl

me-Fits : All Fits (my_txt node)
unfolding BtreeMap.get list_ord list_cmp nat_ord
me-Fits = (
  record { named = refl; short = omega arith },
  (record { named = refl; short = omega arith }, tt),
)

abbrev more : List (Str × Option Str)
more = (codes "k2", some (codes "v2")) ∷ (codes "k", none) ∷ []

abbrev node_with_more : Discoverer
node_with_more =
    update_me 7
      (λ p. record p {
        txt =
            BtreeMap.insert (codes "k") none
              (BtreeMap.insert (codes "k2") (some (codes "v2")) (my_txt node));
      })
      node

accepted : with_txt_attributes 7 more node ≡ Discoverer.ok node_with_more
unfolding with_txt_attributes insert_attributes validate_txt_attribute
accepted = refl
