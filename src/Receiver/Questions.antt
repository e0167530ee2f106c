-- ===== src/Receiver/Questions.antt =====
-- A packet that asks for the service is handled as a query, whatever else it holds.
use swarm_discovery.Prelude.{
  ℕ, ◌≡◌, refl, ap, subst, ◌∙◌, eq, true, List, [], ◌∷◌, ◌++◌, Option, none, some, arith, if_both,
  Option-cases, inl, inr,
}
use swarm_discovery.Std.Net.{IpAddr, v4, v6}
use swarm_discovery.Std.Outcome.{Outcome, ok, ◌>>=◌, expect}
use swarm_discovery.Std.Time.{Instant}
use swarm_discovery.Std.Text.{codes}
use swarm_discovery.Dns.{NameApi, Codec, Message, Query, ptr, internet}
use swarm_discovery.Messages.{MdnsMsg, query_v4, query_v6, response}
use swarm_discovery.Receiver.{asks_for, handle_msg, query_from, read_response}

module _ {Name : Type 0} (n : NameApi Name) (codec : Codec Name) (service_name : Name) where
  asks_for-append :
      (xs ys : List (Query Name))
      → asks_for n service_name ys ≡ true
      → asks_for n service_name (xs ++ ys) ≡ true
  unfolding asks_for
  asks_for-append [] ys h = h
  asks_for-append (q ∷ xs) ys h = ground (arith, asks_for-append xs ys h)

  asks_for_head :
      (q : Query Name) (rest : List (Query Name))
      → q.query_class ≡ internet
      → q.query_type ≡ ptr
      → n.order.cmp q.query_name service_name ≡ eq
      → asks_for n service_name (q ∷ rest) ≡ true
  unfolding asks_for
  asks_for_head q rest c t e = simp (c, t, e)

  -- A packet that parses and has a question of class IN and type PTR for the service, wherever it
  -- stands among the questions, is a query of the family of the sender's address, whatever the
  -- packet's answers are.
  pub handle_msg_query :
      (now : Instant) (bytes : List ℕ) (from : IpAddr) (packet : Message Name)
      (xs ys : List (Query Name)) (q : Query Name)
      → codec.from_vec bytes ≡ some packet
      → packet.queries ≡ xs ++ q ∷ ys
      → q.query_class ≡ internet
      → q.query_type ≡ ptr
      → n.order.cmp q.query_name service_name ≡ eq
      → handle_msg n codec now bytes service_name from
        ≡ ok (some (elim from [ v4 _ ↦ query_v4 | v6 _ ↦ query_v6 ]))
  unfolding handle_msg
  handle_msg_query now bytes from packet xs ys q parsed split c t e =
      rw (parsed, handle_msg, split, asks_for-append xs (q ∷ ys) (asks_for_head q ys c t e))
        (family from)
    where
      family :
          (a : IpAddr)
          → ok (some (query_from a)) ≡ ok (some (elim a [ v4 _ ↦ query_v4 | v6 _ ↦ query_v6 ]))
      family (v4 _) = refl
      family (v6 _) = refl

module _ {Name : Type 0} (n : NameApi Name) where
  -- A query over IPv6 comes from an address of IPv6.
  abbrev AsksFrom : IpAddr → Outcome (Option MdnsMsg) → Type 0
  AsksFrom from (ok (some query_v6)) = (addr : ℕ) × (from ≡ v6 addr)
  AsksFrom from _ = Unit

  handle_msg-AsksFrom :
      (codec : Codec Name) (now : Instant) (bytes : List ℕ) (service_name : Name) (from : IpAddr)
      → AsksFrom from (handle_msg n codec now bytes service_name from)
  unfolding handle_msg
  handle_msg-AsksFrom codec now bytes service_name from =
      elim (Option-cases (codec.from_vec bytes)) [
        | inl e ↦ rw (e, handle_msg) tt
        | inr (packet, e) ↦
            rw (e, handle_msg)
              (if_both (AsksFrom from) (asks_for n service_name packet.queries) (asked from)
                (answered packet (n.from_str (codes "local."))))
      ]
    where
      asked : (ip : IpAddr) → AsksFrom ip (ok (some (query_from ip)))
      asked (v4 _) = tt
      asked (v6 addr) = (addr, refl)

      answered :
          (packet : Message Name) (local : Option Name)
          → AsksFrom from (
              expect local >>= λ l.
              ok (some (response (read_response n service_name l now packet))))
      answered packet none = tt
      answered packet (some l) = tt

  pub handle_msg-Asks :
      (codec : Codec Name) (now : Instant) (bytes : List ℕ) (service_name : Name) (from : IpAddr)
      (msg : MdnsMsg)
      → handle_msg n codec now bytes service_name from ≡ ok (some msg)
      → msg ≡ query_v6
      → (addr : ℕ) × (from ≡ v6 addr)
  handle_msg-Asks codec now bytes service_name from msg h e =
      subst (AsksFrom from) (h ∙ ap (λ m. ok (some m)) e)
        (handle_msg-AsksFrom codec now bytes service_name from)
