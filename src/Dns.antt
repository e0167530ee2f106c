-- ===== src/Dns.antt =====
-- hickory-proto, which is not part of the repository: the names are a parameter, `NameApi`, and a
-- message is the record of those fields that src/sender.rs writes and src/receiver.rs reads.
use swarm_discovery.Prelude.{ℕ, Bool, false, List, [], ◌∷◌, ◌++◌, Option}
use swarm_discovery.Std.Ord.{Ord, is_eq}
use swarm_discovery.Std.Text.{Str}

-- `Name`: `none` is the error of a call. `==` agrees with `Ord`, which takes letters of either case
-- for equal.
pub record NameApi (Name : Type 0) : Type 0 where
  pub order : Ord Name
  pub from_str : Str → Option Name
  pub append_domain : Name → Name → Option Name
  pub base_name : Name → Name
  -- `iter().next()`
  pub first_label : Name → Option (List ℕ)

pub data DnsClass : Type 0 where
  internet other_class : DnsClass

pub data RecordType : Type 0 where
  ptr other_type : RecordType

pub data MessageType : Type 0 where
  query response : MessageType

module _ (Name : Type 0) where
  pub data RecordData : Type 0 where
    srv : (priority weight port : ℕ) (target : Name) → RecordData
    txt : List (List ℕ) → RecordData
    a : ℕ → RecordData
    aaaa : ℕ → RecordData
    other_data : RecordData

  pub record DnsRecord : Type 0 where
    pub name : Name
    pub ttl : ℕ
    pub dns_class : DnsClass
    pub rdata : RecordData

  pub record Query : Type 0 where
    pub query_name : Name
    pub query_type : RecordType
    pub query_class : DnsClass

  pub record Message : Type 0 where
    pub id : ℕ
    pub message_type : MessageType
    pub authoritative : Bool
    pub queries : List Query
    pub answers : List DnsRecord
    pub additionals : List DnsRecord

-- `Message::from_vec` and `to_vec`: `none` is the error.
pub record Codec (Name : Type 0) : Type 0 where
  pub from_vec : List ℕ → Option (Message Name)
  pub to_vec : Message Name → Option (List ℕ)

module _ {Name : Type 0} where
  -- `Message::new(id, type, OpCode::Query)`
  abbrev pub new_message : ℕ → MessageType → Message Name
  new_message i t = record {
    id = i;
    message_type = t;
    authoritative = false;
    queries = [];
    answers = [];
    additionals = [];
  }

  abbrev pub add_query : Query Name → Message Name → Message Name
  add_query q m = record m { queries = m.queries ++ q ∷ [] }

  abbrev pub add_answer : DnsRecord Name → Message Name → Message Name
  add_answer r m = record m { answers = m.answers ++ r ∷ [] }

  abbrev pub add_additional : DnsRecord Name → Message Name → Message Name
  add_additional r m = record m { additionals = m.additionals ++ r ∷ [] }

  -- `Record::from_rdata`, whose class is IN
  abbrev pub from_rdata : Name → ℕ → RecordData Name → DnsRecord Name
  from_rdata n t d = record { name = n; ttl = t; dns_class = internet; rdata = d }

  abbrev pub same_name : NameApi Name → Name → Name → Bool
  same_name n x y = is_eq (n.order.cmp x y)
