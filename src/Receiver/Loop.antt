-- ===== src/Receiver/Loop.antt =====
-- src/receiver.rs: `receiver`, the loop of the actor on one socket. What `recv_from` gives is tokio's:
-- a sequence of datagrams, each with the time at which it is handled, or of errors.
pub mod Serving
use swarm_discovery.Prelude.{ℕ, List, [], ◌∷◌, Option, none, some}
use swarm_discovery.Std.Net.{IpAddr}
use swarm_discovery.Std.Outcome.{Outcome, ok, ◌>>=◌}
use swarm_discovery.Std.Time.{Instant}
use swarm_discovery.Dns.{NameApi, Codec}
use swarm_discovery.Messages.{MdnsMsg}
use swarm_discovery.Receiver.{handle_msg}

-- A result of `recv_from`: the first `len` bytes of the buffer with the sender's address, or an error.
pub data Received : Type 0 where
  datagram : Instant → List ℕ → IpAddr → Received
  recv_error : Received

-- Whether the actor waits for the next datagram, or has returned `Err(ReceiverError)`.
pub data Status : Type 0 where
  receiving receiver_error : Status

-- `if let Some(msg) = … { target.send(msg) }`
abbrev pub send_some : Option MdnsMsg → List MdnsMsg → List MdnsMsg
send_some none msgs = msgs
send_some (some msg) msgs = msg ∷ msgs

-- The loop: what it sends to its target, in this order.
unfoldable pub receiver :
    {Name : Type 0}
    → NameApi Name
    → Codec Name
    → Name
    → List Received
    → Outcome (List MdnsMsg × Status)
unfolding handle_msg
receiver n codec service_name [] = ok ([], receiving)
receiver n codec service_name (recv_error ∷ rest) = ok ([], receiver_error)
receiver n codec service_name (datagram now msg addr ∷ rest) = do
  handled ← handle_msg n codec now msg service_name addr
  (msgs, status) ← receiver n codec service_name rest
  ok (send_some handled msgs, status)
