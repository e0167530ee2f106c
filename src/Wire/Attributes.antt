-- ===== src/Wire/Attributes.antt =====
-- The TXT record: `txt_parts` writes the attributes, and `read_strings` reads them back.
use swarm_discovery.Prelude.{
  ℕ, ◌≡◌, refl, ap, ◌∙◌, false, [], ◌∷◌, ◌++◌, Option, none, some, arith, All, append_assoc,
  append-nil, if◌then◌else◌,
}
use swarm_discovery.Std.BtreeMap
use swarm_discovery.Std.BtreeMap.{BtreeMap, keys, IsOrdered}
use swarm_discovery.Std.BtreeMap.Laws.{get_one, insert_one}
use swarm_discovery.Std.Ord.{list_ord, nat_ord, ◌≺◌}
use swarm_discovery.Std.Sort.{Below}
use swarm_discovery.Std.Text.{Str, IsUtf8, from_utf8, is_empty, utf8_from, lead}
use swarm_discovery.Std.Text.Laws.{Lacks, split_once-append, split_once-Lacks, utf8_from-append}
use swarm_discovery.Peer.{TxtData}
use swarm_discovery.Receiver.{key_value, put_new, read_string, read_strings}
use swarm_discovery.Sender.Response.{attribute_text, txt_parts}

abbrev pub IsUtf8Value : Option Str → Type 0
IsUtf8Value none = Unit
IsUtf8Value (some v) = IsUtf8 v

-- A key that is not empty and has no `=`.
pub record IsPlain (e : Str × Option Str) : Type 0 where
  pub named : is_empty e.0 ≡ false
  pub no_equals : Lacks b'=' e.0
  pub key_utf8 : IsUtf8 e.0
  pub value_utf8 : IsUtf8Value e.1

pub key_value_attribute : (e : Str × Option Str) → IsPlain e → key_value (attribute_text e) ≡ e
unfolding key_value
key_value_attribute (k, none) p = rw (split_once-Lacks b'=' k p.no_equals, key_value)
key_value_attribute (k, some v) p = rw (split_once-append b'=' k v p.no_equals, key_value)

equals-IsUtf8 : (v : Str) → IsUtf8 v → IsUtf8 (b'=' ∷ v)
unfolding utf8_from lead
equals-IsUtf8 v h = h

attribute-IsUtf8 : (e : Str × Option Str) → IsPlain e → IsUtf8 (attribute_text e)
attribute-IsUtf8 (k, none) p = p.key_utf8
attribute-IsUtf8 (k, some v) p =
    utf8_from-append [] k (b'=' ∷ v) p.key_utf8 (equals-IsUtf8 v p.value_utf8)

attribute_not_empty : (e : Str × Option Str) → IsPlain e → is_empty (attribute_text e) ≡ false
attribute_not_empty ([], v) p = cc (p.named)
attribute_not_empty (b ∷ k, none) p = refl
attribute_not_empty (b ∷ k, some v) p = refl

from_utf8_lem : (s : Str) → IsUtf8 s → from_utf8 s ≡ some s
unfolding from_utf8
from_utf8_lem s h = rw (h, from_utf8)

-- A string that the node wrote enters the attributes of the peer.
read_attribute :
    (peer_id : Str) (e : Str × Option Str) (m : BtreeMap Str TxtData)
    → IsPlain e
    → read_string peer_id (attribute_text e) m
      ≡ BtreeMap.entry_or_insert peer_id BtreeMap.empty (put_new e) m
unfolding read_string
read_attribute peer_id e m p = rw (
  from_utf8_lem (attribute_text e) (attribute-IsUtf8 e p),
  read_string,
  attribute_not_empty e p,
  key_value_attribute e p,
)

Below_last :
    (j : Str) (xs : TxtData) (e : Str × Option Str) (ys : TxtData)
    → Below j (keys (xs ++ e ∷ ys))
    → j ≺ e.0
Below_last j [] e ys h = h.0
Below_last j (x ∷ xs) e ys h = Below_last j xs e ys h.1

-- A key above all others goes to the end.
put_last :
    (acc : TxtData) (e : Str × Option Str) (rest : TxtData)
    → IsOrdered (acc ++ e ∷ rest)
    → put_new e acc ≡ acc ++ e ∷ []
unfolding put_new BtreeMap.get BtreeMap.insert
put_last [] (k, v) rest h = refl
put_last ((j, w) ∷ acc) (k, v) rest h = ground (
  arith,
  Below_last j acc (k, v) rest h.0,
  (list_ord {A = ℕ}).cmp_flip j k,
  put_last acc (k, v) rest h.1,
)

join_attribute :
    (peer_id : Str) (acc : TxtData) (e : Str × Option Str) (rest : TxtData)
    → IsPlain e
    → IsOrdered (acc ++ e ∷ rest)
    → read_string peer_id (attribute_text e) ((peer_id, acc) ∷ []) ≡ (peer_id, acc ++ e ∷ []) ∷ []
join_attribute peer_id acc e rest p o =
    read_attribute peer_id e ((peer_id, acc) ∷ []) p
    ∙ simp (get_one, insert_one, put_last acc e rest o)

read_more :
    (peer_id : Str) (rest acc : TxtData)
    → All IsPlain rest
    → IsOrdered (acc ++ rest)
    → read_strings peer_id (txt_parts rest) ((peer_id, acc) ∷ []) ≡ (peer_id, acc ++ rest) ∷ []
unfolding read_strings txt_parts
read_more peer_id [] acc p o = rw (append-nil acc)
read_more peer_id (e ∷ rest) acc p o = rw p.0.named (
    ap (read_strings peer_id (txt_parts rest)) (join_attribute peer_id acc e rest p.0 o)
    ∙ read_more peer_id rest (acc ++ e ∷ []) p.1 (rw (append_assoc acc (e ∷ []) rest) o)
    ∙ ap (λ l. (peer_id, l) ∷ []) (append_assoc acc (e ∷ []) rest))

-- The attributes come back under the peer, all of them and in order.
pub read_strings-txt_parts :
    (peer_id : Str) (attributes : TxtData)
    → All IsPlain attributes
    → IsOrdered attributes
    → read_strings peer_id (txt_parts attributes) BtreeMap.empty
      ≡ (if is_empty attributes then BtreeMap.empty else (peer_id, attributes) ∷ [])
unfolding read_strings txt_parts put_new BtreeMap.get BtreeMap.insert
read_strings-txt_parts peer_id [] p o = refl
read_strings-txt_parts peer_id (e ∷ rest) p o = rw p.0.named (
    ap (read_strings peer_id (txt_parts rest)) (read_attribute peer_id e BtreeMap.empty p.0)
    ∙ read_more peer_id rest (e ∷ []) p.1 o)
