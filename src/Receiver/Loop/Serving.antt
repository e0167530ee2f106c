-- ===== src/Receiver/Loop/Serving.antt =====
-- What a receiver sends, and when it stops.
use swarm_discovery.Prelude.{
  ℕ, ◌≡◌, refl, ap, List, [], ◌∷◌, ◌++◌, Option, none, some, Option-cases, All, inl, inr, if_both,
}
use swarm_discovery.Std.Net.{IpAddr}
use swarm_discovery.Std.Outcome.{Outcome, ok, panic, ◌>>=◌}
use swarm_discovery.Std.Text.{codes}
use swarm_discovery.Std.Time.{Instant}
use swarm_discovery.Dns.{NameApi, Codec}
use swarm_discovery.Messages.{MdnsMsg}
use swarm_discovery.Receiver.{handle_msg, asks_for}
use swarm_discovery.Receiver.Shape.{IsHeard, handle_msg-IsHeard}
use swarm_discovery.Receiver.Loop.{
  Received, datagram, recv_error, Status, receiving, receiver_error, send_some, receiver,
}

-- Whether there is an error among what comes in.
abbrev pub status_of : List Received → Status
status_of [] = receiving
status_of (recv_error ∷ rest) = receiver_error
status_of (datagram now msg addr ∷ rest) = status_of rest

-- A packet that does not parse.
abbrev pub IsGarbage : {Name : Type 0} → Codec Name → Received → Type 0
IsGarbage codec (datagram now msg addr) = codec.from_vec msg ≡ none
IsGarbage codec recv_error = ⊥

module _ {Name : Type 0} (n : NameApi Name) (codec : Codec Name) (service_name : Name) where
  handle_msg_returns :
      (local : Name)
      → n.from_str (codes "local.") ≡ some local
      → (now : Instant) (msg : List ℕ) (addr : IpAddr)
      → (handled : Option MdnsMsg) × (handle_msg n codec now msg service_name addr ≡ ok handled)
  unfolding handle_msg
  handle_msg_returns local e now msg addr = elim (Option-cases (codec.from_vec msg)) [
    | inl h ↦ rw (h, handle_msg) (none, refl)
    | inr (packet, h) ↦
        rw (h, e, handle_msg)
          (if_both (λ r. (handled : Option MdnsMsg) × (r ≡ ok handled))
            (asks_for n service_name packet.queries) (_, refl) (_, refl))
  ]

  send_some-IsHeard :
      (now : Instant) (msg : List ℕ) (addr : IpAddr) (handled : Option MdnsMsg)
      (msgs : List MdnsMsg)
      → handle_msg n codec now msg service_name addr ≡ ok handled
      → All IsHeard msgs
      → All IsHeard (send_some handled msgs)
  send_some-IsHeard now msg addr none msgs e h = h
  send_some-IsHeard now msg addr (some m) msgs e h =
      (handle_msg-IsHeard n codec now msg service_name addr m e, h)

  -- If `local.` parses as a name, then whatever comes in, the receiver does not panic. It waits for
  -- more as long as there was no error of the socket, and has returned its error if there was one. It
  -- sends queries and responses only.
  pub receiver_serves :
      (local : Name)
      → n.from_str (codes "local.") ≡ some local
      → (inputs : List Received)
      → (msgs : List MdnsMsg) × (receiver n codec service_name inputs ≡ ok (msgs, status_of inputs))
        × All IsHeard msgs
  unfolding receiver
  receiver_serves local e [] = ([], refl, tt)
  receiver_serves local e (recv_error ∷ rest) = ([], refl, tt)
  receiver_serves local e (datagram now msg addr ∷ rest) =
      let (handled, h) = handle_msg_returns local e now msg addr in
      let (msgs, r, heard) = receiver_serves local e rest in
      (send_some handled msgs, rw (h, r) refl, send_some-IsHeard now msg addr handled msgs h heard)

  -- Packets that do not parse change nothing: the receiver does with them what it does without.
  pub receiver_garbage :
      (before : List Received) (garbage : Received) (after : List Received)
      → IsGarbage codec garbage
      → receiver n codec service_name (before ++ garbage ∷ after)
        ≡ receiver n codec service_name (before ++ after)
  unfolding receiver handle_msg
  receiver_garbage [] recv_error after h = absurd h
  receiver_garbage [] (datagram now msg addr) after h =
      rw (h, handle_msg) (unchanged (receiver n codec service_name after))
    where
      unchanged :
          (r : Outcome (List MdnsMsg × Status)) → (r >>= λ p. ok (send_some none p.0, p.1)) ≡ r
      unchanged (ok p) = refl
      unchanged panic = refl
  receiver_garbage (recv_error ∷ before) garbage after h = refl
  receiver_garbage (datagram now msg addr ∷ before) garbage after h =
      ap
        (λ r. handle_msg n codec now msg service_name addr >>= λ handled.
          r >>= λ p. ok (send_some handled p.0, p.1))
        (receiver_garbage before garbage after h)
