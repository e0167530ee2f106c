-- ===== src/Guard/Calls.antt =====
-- What the calls of a guard send, and that it can be dropped after any of them.
use swarm_discovery.Prelude.{
  ℕ, ◌≡◌, refl, ap, ◌∙◌, List, [], ◌∷◌, ◌++◌, Option, none, some, All, All-append, append_assoc,
  append-nil,
}
use swarm_discovery.Std.Net.{v4}
use swarm_discovery.Std.Outcome.{ok}
use swarm_discovery.Std.Text.{Str}
use swarm_discovery.Discoverer.{TxtResult, err, validate_txt_attribute}
use swarm_discovery.Discoverer
use swarm_discovery.Messages.{GuardianInput}
use swarm_discovery.Guard
use swarm_discovery.Guard.{
  DropGuard, Call, call_remove_all, call_remove_port, call_remove_addr, call_add,
  call_set_txt_attribute, call_remove_txt_attribute, call_add_interface_v4,
  call_remove_interface_v4, make, make_all, drop, set_txt_attribute,
}
use swarm_discovery.Wire.Lengths.{Fits, validate-Fits}

-- An attribute that a guard sends fits into a TXT record.
abbrev pub IsSendable : GuardianInput → Type 0
IsSendable (GuardianInput.set_txt key value) = Fits (key, value)
IsSendable _ = Unit

-- What a call sends: at most one input.
abbrev pub sent_by : Call → List GuardianInput
sent_by call_remove_all = GuardianInput.remove_all ∷ []
sent_by (call_remove_port port) = GuardianInput.remove_port port ∷ []
sent_by (call_remove_addr addr) = GuardianInput.remove_addr addr ∷ []
sent_by (call_add port addrs) = GuardianInput.add_addr port addrs ∷ []
sent_by (call_set_txt_attribute key value) = elim (validate_txt_attribute key value) [
  | err _ ↦ []
  | Discoverer.ok _ ↦ GuardianInput.set_txt key value ∷ []
]
sent_by (call_remove_txt_attribute key) = GuardianInput.remove_txt key ∷ []
sent_by (call_add_interface_v4 interface) = GuardianInput.add_interface (v4 interface) ∷ []
sent_by (call_remove_interface_v4 interface) = GuardianInput.remove_interface (v4 interface) ∷ []

abbrev pub sent_by_all : List Call → List GuardianInput
sent_by_all [] = []
sent_by_all (call ∷ calls) = sent_by call ++ sent_by_all calls

abbrev posted : List GuardianInput → DropGuard → DropGuard
posted inputs guard = record guard { outbox = guard.outbox ++ inputs }

set_txt_lem :
    (key : Str) (value : Option Str) (guard : DropGuard)
    → (make (call_set_txt_attribute key value) guard
        ≡ posted (sent_by (call_set_txt_attribute key value)) guard)
      × All IsSendable (sent_by (call_set_txt_attribute key value))
unfolding make set_txt_attribute
set_txt_lem key value guard = checked (validate_txt_attribute key value) refl
  where
    checked :
        (r : TxtResult (Unit {0}))
        → validate_txt_attribute key value ≡ r
        → (elim r as (λ _. TxtResult (Unit {0}) × DropGuard) [
          | err e ↦ (err e, guard)
          | Discoverer.ok _ ↦
              (Discoverer.ok tt, posted (GuardianInput.set_txt key value ∷ []) guard)
        ]).1
            ≡ posted
                (elim r as (λ _. List GuardianInput) [
                  | err _ ↦ []
                  | Discoverer.ok _ ↦ GuardianInput.set_txt key value ∷ []
                ])
                guard
          × All IsSendable (elim r as (λ _. List GuardianInput) [
            | err _ ↦ []
            | Discoverer.ok _ ↦ GuardianInput.set_txt key value ∷ []
          ])
    checked (err e) h = (cc (append-nil guard.outbox), tt)
    checked (Discoverer.ok u) h = (refl, (validate-Fits key value h, tt))

make_lem :
    (call : Call) (guard : DropGuard)
    → (make call guard ≡ posted (sent_by call) guard) × All IsSendable (sent_by call)
unfolding make Guard.remove_all Guard.remove_port Guard.remove_addr Guard.add
    Guard.remove_txt_attribute Guard.add_interface_v4 Guard.remove_interface_v4
make_lem call_remove_all guard = (refl, (tt, tt))
make_lem (call_remove_port port) guard = (refl, (tt, tt))
make_lem (call_remove_addr addr) guard = (refl, (tt, tt))
make_lem (call_add port addrs) guard = (refl, (tt, tt))
make_lem (call_set_txt_attribute key value) guard = set_txt_lem key value guard
make_lem (call_remove_txt_attribute key) guard = (refl, (tt, tt))
make_lem (call_add_interface_v4 interface) guard = (refl, (tt, tt))
make_lem (call_remove_interface_v4 interface) guard = (refl, (tt, tt))

make_all_lem :
    (calls : List Call) (guard : DropGuard)
    → (make_all calls guard ≡ posted (sent_by_all calls) guard) × All IsSendable (sent_by_all calls)
unfolding make_all
make_all_lem [] guard = (cc (append-nil guard.outbox), tt)
make_all_lem (call ∷ calls) guard =
    let (one, sendable) = make_lem call guard in
    let (others, all_sendable) = make_all_lem calls (make call guard) in
    (
      others
          ∙ ap (posted (sent_by_all calls)) one
          ∙ cc (append_assoc guard.outbox (sent_by call) (sent_by_all calls)),
      All-append IsSendable (sent_by call) (sent_by_all calls) sendable all_sendable,
    )

-- Whatever calls are made on a guard whose task has not been taken, the guardian is sent one input
-- for each, in their order, except for attributes that are refused, of which it is sent nothing; each
-- attribute that is sent fits into a TXT record; and the guard can then be dropped, which aborts its
-- task, without a panic.
pub make_all-drop :
    (calls : List Call) (guard : DropGuard) (task : ℕ)
    → guard.task ≡ some task
    → ((make_all calls guard).outbox ≡ guard.outbox ++ sent_by_all calls)
      × All IsSendable (sent_by_all calls)
      × (drop (make_all calls guard)
          ≡ ok (task, record { task = none; outbox = guard.outbox ++ sent_by_all calls }))
unfolding drop
make_all-drop calls guard task held =
    let (same, sendable) = make_all_lem calls guard in
    (ap (λ g. g.outbox) same, sendable, rw (same, held) refl)
