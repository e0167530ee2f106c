-- ===== src/Examples/Interfaces.antt =====
-- The task of examples/multi_interface.rs keeps the node on the interfaces that it has listed last.
use swarm_discovery.Prelude.{
  ℕ, ◌≡◌, refl, ap, ◌∙◌, Bool, true, false, not, ◌&&◌, ◌||◌, List, [], ◌∷◌, ◌++◌, Option, none,
  some, arith,
}
use swarm_discovery.Std.HashMap
use swarm_discovery.Std.HashSet
use swarm_discovery.Std.HashSet.{
  HashSet, from_list, difference, contains-insert, contains-remove, contains-difference,
  contains-from_list, AreDistinct, members, from_list-AreDistinct, difference-AreDistinct,
}
use swarm_discovery.Std.Net.{v4, v6}
use swarm_discovery.Std.Ord.{nat_ord, is_eq}
use swarm_discovery.Std.Sort
use swarm_discovery.Guard
use swarm_discovery.Guardian.Interfaces.{
  joined, joined-append, events_of, inputs_of, Works, Has, run-Has,
}
use swarm_discovery.Guardian
use swarm_discovery.Socket.{SocketApi}
use swarm_discovery.Guard.{DropGuard, of_task}
use swarm_discovery.Messages.{
  GuardianInput, remove_all, remove_port, remove_addr, add_addr, set_txt, remove_txt, add_interface,
  remove_interface,
}
use swarm_discovery.Examples.{Interface, ipv4_of, add_each, remove_each, monitor, monitor_all}

-- No interface is added that has been joined, and none removed that has not.
abbrev pub AreChanges : List GuardianInput → HashSet ℕ → Type 0
AreChanges [] s = Unit
AreChanges (add_interface (v4 addr) ∷ inputs) s =
    (HashSet.contains addr s ≡ false) × AreChanges inputs (HashSet.insert addr s)
AreChanges (remove_interface (v4 addr) ∷ inputs) s =
    (HashSet.contains addr s ≡ true) × AreChanges inputs (HashSet.remove addr s)
AreChanges (_ ∷ inputs) s = AreChanges inputs s

-- A further input.
module _ (last : GuardianInput) where
  AreChanges-last :
      (inputs : List GuardianInput) (s : HashSet ℕ)
      → AreChanges inputs s
      → AreChanges (last ∷ []) (joined inputs s)
      → AreChanges (inputs ++ last ∷ []) s
  AreChanges-last [] s h k = k
  AreChanges-last (add_interface (v4 addr) ∷ inputs) s h k = (h.0, AreChanges-last inputs _ h.1 k)
  AreChanges-last (add_interface (v6 addr) ∷ inputs) s h k = AreChanges-last inputs s h k
  AreChanges-last (remove_interface (v4 addr) ∷ inputs) s h k =
      (h.0, AreChanges-last inputs _ h.1 k)
  AreChanges-last (remove_interface (v6 addr) ∷ inputs) s h k = AreChanges-last inputs s h k
  AreChanges-last (remove_all ∷ inputs) s h k = AreChanges-last inputs s h k
  AreChanges-last (remove_port port ∷ inputs) s h k = AreChanges-last inputs s h k
  AreChanges-last (remove_addr addr ∷ inputs) s h k = AreChanges-last inputs s h k
  AreChanges-last (add_addr port addrs ∷ inputs) s h k = AreChanges-last inputs s h k
  AreChanges-last (set_txt key value ∷ inputs) s h k = AreChanges-last inputs s h k
  AreChanges-last (remove_txt key ∷ inputs) s h k = AreChanges-last inputs s h k

module _ (initial : HashSet ℕ) where
  -- Whether an interface is joined when the inputs of the guard have been handled.
  abbrev has_joined : ℕ → DropGuard → Bool
  has_joined addr guard = HashSet.contains addr (joined guard.outbox initial)

  add_each-AreChanges :
      (l : List ℕ) (guard : DropGuard)
      → AreDistinct l
      → ((a : ℕ) → Sort.contains a l ≡ true → has_joined a guard ≡ false)
      → AreChanges guard.outbox initial
      → AreChanges (add_each l guard).outbox initial
        × ((a : ℕ) → has_joined a (add_each l guard) ≡ (Sort.contains a l || has_joined a guard))
  unfolding add_each Guard.add_interface_v4 Sort.contains nat_ord
  add_each-AreChanges [] guard d new h = (h, λ a. refl)
  add_each-AreChanges (x ∷ l) guard d new h =
      let guard' : DropGuard = Guard.add_interface_v4 x guard in
      let now : (a : ℕ) → has_joined a guard' ≡ (is_eq (nat_ord.cmp a x) || has_joined a guard) =
        λ a.
          ap (HashSet.contains a) (joined-append guard.outbox (add_interface (v4 x) ∷ []) initial)
          ∙ contains-insert a x (joined guard.outbox initial) in
      let (changes, same) =
        add_each-AreChanges l guard' d.1 (λ a e. ground (arith, now a, new a, d.0, e))
          (AreChanges-last (add_interface (v4 x)) guard.outbox initial h
            (ground (arith, new x), tt)) in
      (changes, λ a. same a ∙ ground (arith, now a))

  remove_each-AreChanges :
      (l : List ℕ) (guard : DropGuard)
      → AreDistinct l
      → ((a : ℕ) → Sort.contains a l ≡ true → has_joined a guard ≡ true)
      → AreChanges guard.outbox initial
      → AreChanges (remove_each l guard).outbox initial
        × ((a : ℕ)
            → has_joined a (remove_each l guard) ≡ (not (Sort.contains a l) && has_joined a guard))
  unfolding remove_each Guard.remove_interface_v4 Sort.contains nat_ord
  remove_each-AreChanges [] guard d new h = (h, λ a. refl)
  remove_each-AreChanges (x ∷ l) guard d new h =
      let guard' : DropGuard = Guard.remove_interface_v4 x guard in
      let now : (a : ℕ)
          → has_joined a guard' ≡ (not (is_eq (nat_ord.cmp a x)) && has_joined a guard) =
        λ a.
          ap (HashSet.contains a)
            (joined-append guard.outbox (remove_interface (v4 x) ∷ []) initial)
          ∙ contains-remove a x (joined guard.outbox initial) in
      let (changes, same) =
        remove_each-AreChanges l guard' d.1 (λ a e. ground (arith, now a, new a, d.0, e))
          (AreChanges-last (remove_interface (v4 x)) guard.outbox initial h
            (ground (arith, new x), tt)) in
      (changes, λ a. same a ∙ ground (arith, now a))

  -- The known interfaces are those that the guard has the node join, each is added and removed only
  -- when that changes something, and each is known once.
  pub record Follows (known : HashSet ℕ) (guard : DropGuard) : Type 0 where
    pub distinct : AreDistinct (members known)
    pub changes : AreChanges guard.outbox initial
    pub same : (a : ℕ) → HashSet.contains a (joined guard.outbox initial) ≡ HashSet.contains a known

  monitor-Follows :
      (listed : Option (List Interface)) (known : HashSet ℕ) (guard : DropGuard)
      → Follows known guard
      → let (known', guard') = monitor listed (known, guard) in Follows known' guard'
  unfolding monitor
  monitor-Follows none known guard h = h
  monitor-Follows (some ifaces) known guard h =
      let current : HashSet ℕ = from_list (ipv4_of ifaces) HashMap.empty in
      let distinct : AreDistinct (members current) =
        from_list-AreDistinct (ipv4_of ifaces) HashMap.empty tt in
      let added =
        add_each-AreChanges (difference current known) guard
          (difference-AreDistinct current known distinct)
          (λ a e. ground (arith, h.same a, contains-difference a current known)) h.changes in
      let removed =
        remove_each-AreChanges (difference known current)
          (add_each (difference current known) guard)
          (difference-AreDistinct known current h.distinct)
          (λ a e. ground (arith, h.same a, added.1 a, contains-difference a known current))
          added.0 in
      record {
        distinct = distinct;
        changes = removed.0;
        same = λ a. ground (
          arith,
          removed.1 a,
          added.1 a,
          h.same a,
          contains-difference a known current,
          contains-difference a current known,
        );
      }

  monitor_all-Follows :
      (listings : List (Option (List Interface))) (known : HashSet ℕ) (guard : DropGuard)
      → Follows known guard
      → let (known', guard') = monitor_all listings (known, guard) in Follows known' guard'
  unfolding monitor_all
  monitor_all-Follows [] known guard h = h
  monitor_all-Follows (listed ∷ rest) known guard h =
      let (known', guard') = monitor listed (known, guard) in
      monitor_all-Follows rest known' guard' (monitor-Follows listed known guard h)

-- The interfaces of the last listing that succeeded, or else those before.
abbrev pub last_listed : List (Option (List Interface)) → List ℕ → List ℕ
last_listed [] before = before
last_listed (none ∷ rest) before = last_listed rest before
last_listed (some ifaces ∷ rest) before = last_listed rest (ipv4_of ifaces)

known_lem :
    (listings : List (Option (List Interface))) (before : List ℕ) (guard : DropGuard)
    → (monitor_all listings (from_list before HashMap.empty, guard)).0
      ≡ from_list (last_listed listings before) HashMap.empty
unfolding monitor_all monitor
known_lem [] before guard = refl
known_lem (none ∷ rest) before guard = known_lem rest before guard
known_lem (some ifaces ∷ rest) before guard = known_lem rest (ipv4_of ifaces) _

-- After any rounds of the task of the example with several interfaces, the inputs that its guard has
-- sent take a node that has joined the initial interfaces, if none of these inputs fails, to exactly
-- the interfaces that were listed last; and no input adds an interface that the node has joined, or
-- removes one that it has not.
pub monitor_all-joined :
    (listings : List (Option (List Interface))) (initial_ips : List ℕ) (task addr : ℕ)
    → let initial = from_list initial_ips HashMap.empty in
      let guard = (monitor_all listings (initial, of_task task)).1 in
      AreChanges guard.outbox initial
      × (HashSet.contains addr (joined guard.outbox initial)
          ≡ Sort.contains addr (last_listed listings initial_ips))
unfolding HashMap.get
monitor_all-joined listings initial_ips task addr =
    let initial : HashSet ℕ = from_list initial_ips HashMap.empty in
    let follows = monitor_all-Follows initial listings initial (of_task task) (record {
      distinct = from_list-AreDistinct initial_ips HashMap.empty tt;
      changes = tt;
      same = λ a. refl;
    }) in
    (
      follows.changes,
      follows.same addr
          ∙ ap (HashSet.contains addr) (known_lem listings initial_ips (of_task task))
          ∙ contains-from_list addr (last_listed listings initial_ips) HashMap.empty
          ∙ ground (arith, Sort.contains addr (last_listed listings initial_ips)),
    )

-- When a running guardian has handled these inputs, on an operating system that creates the socket of
-- every interface, it has sockets for exactly the interfaces that were listed last, if at first it had
-- them for the initial ones.
pub monitor_all-run :
    {Os : Type 0} (api : SocketApi Os) (listings : List (Option (List Interface)))
    (initial_ips : List ℕ) (task : ℕ) (inputs : List (ℕ × GuardianInput)) (st : Guardian.State Os)
    → inputs_of inputs
      ≡ (monitor_all listings (from_list initial_ips HashMap.empty, of_task task)).1.outbox
    → Works api
    → st.running ≡ true
    → Has api (from_list initial_ips HashMap.empty) st.sockets
    → (addr : ℕ)
    → HashMap.contains_key addr (Guardian.run api st (events_of inputs)).0.sockets.interfaces
      ≡ Sort.contains addr (last_listed listings initial_ips)
monitor_all-run api listings initial_ips task inputs st e works going h addr =
    run-Has api inputs (from_list initial_ips HashMap.empty) st works going h addr
    ∙ ap (λ is. HashSet.contains addr (joined is (from_list initial_ips HashMap.empty))) e
    ∙ (monitor_all-joined listings initial_ips task addr).1
