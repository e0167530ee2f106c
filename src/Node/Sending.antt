-- ===== src/Node/Sending.antt =====
-- What the sender of a node sends, round by round, in a whole node.
use swarm_discovery.Prelude.{◌≡◌, List, [], ◌∷◌, if◌then◌else◌, ◌==◌}
use swarm_discovery.Std.BtreeMap
use swarm_discovery.Std.Float.{FloatOps}
use swarm_discovery.Std.Ord.{nat_ord}
use swarm_discovery.Std.Outcome.{ok, panic}
use swarm_discovery.Discoverer.{Discoverer}
use swarm_discovery.Dns.{NameApi, Message}
use swarm_discovery.Messages.{MdnsMsg, timeout}
use swarm_discovery.Peer.{Mode, any}
use swarm_discovery.Sender.Machine.{
  Phase, querying, responding, stopped, State, Effect, Environment, message, dispatch,
}
use swarm_discovery.Sender.Response.{make_query, make_response}
use swarm_discovery.Sender.Traces.{Ensures, packets}
use swarm_discovery.Node.Firing.{packet_of}
use swarm_discovery.Node.{Node}

module _ {Name : Type 0} (n : NameApi Name) (service_name : Name) where
  -- The packets that are due when a message comes in: the query to all when the timer of the first
  -- phase fires, and what the node then is, in the mode of the query, when that of the second does.
  abbrev pub due_at : Phase → State Name → List (Message Name × Mode)
  due_at querying st = (make_query service_name, any) ∷ []
  due_at (responding mode heard) st = elim (make_response n st.discoverer service_name) [
    | panic ↦ []
    | ok response_msg ↦ packet_of response_msg mode
  ]
  due_at stopped st = []

  abbrev pub due : Phase → MdnsMsg → State Name → List (Message Name × Mode)
  due phase (timeout count) st = if count == st.timeout_count then due_at phase st else []
  due phase _ st = []

module _ {Name : Type 0} (n : NameApi Name) (f : FloatOps) (service_name : Name)
    (env : Environment Name) (st : State Name) where
  abbrev Sends : List (Message Name × Mode) → State Name → List (Effect Name) → Type 0
  Sends due_now st' es = packets es ≡ due_now

  abbrev Due : Phase → MdnsMsg → Type 0
  Due phase msg =
      Ensures (Sends (due n service_name phase msg st))
        (dispatch n f service_name env phase (message msg) st)
