-- ===== src/Guard.antt =====
-- `DropGuard` of src/lib.rs: the handle by which the application changes a node while it runs. What
-- is sent to the guardian is kept, in its order; the task is the number of the guardian's task.
pub mod Calls
use swarm_discovery.Prelude.{ℕ, List, [], ◌∷◌, ◌++◌, Option, none, some}
use swarm_discovery.Std.Net.{IpAddr, v4}
use swarm_discovery.Std.Outcome.{Outcome, ok, panic, ◌>>=◌, expect}
use swarm_discovery.Std.Text.{Str}
use swarm_discovery.Discoverer.{TxtResult, err, validate_txt_attribute}
use swarm_discovery.Discoverer
use swarm_discovery.Messages.{GuardianInput}

pub record DropGuard : Type 0 where
  pub task : Option ℕ
  pub outbox : List GuardianInput

-- The guard that `spawn` returns for the task of the guardian.
abbrev pub of_task : ℕ → DropGuard
of_task task = record { task = some task; outbox = [] }

-- `self.aref.send(...)`
abbrev pub send : GuardianInput → DropGuard → DropGuard
send input guard = record guard { outbox = guard.outbox ++ input ∷ [] }

unfoldable pub remove_all : DropGuard → DropGuard
remove_all = send GuardianInput.remove_all

unfoldable pub remove_port : ℕ → DropGuard → DropGuard
remove_port port = send (GuardianInput.remove_port port)

unfoldable pub remove_addr : IpAddr → DropGuard → DropGuard
remove_addr addr = send (GuardianInput.remove_addr addr)

unfoldable pub add : ℕ → List IpAddr → DropGuard → DropGuard
add port addrs = send (GuardianInput.add_addr port addrs)

-- The attribute is sent only if it is valid.
unfoldable pub set_txt_attribute : Str → Option Str → DropGuard → TxtResult (Unit {0}) × DropGuard
unfolding validate_txt_attribute
set_txt_attribute key value guard = elim (validate_txt_attribute key value) [
  | err e ↦ (err e, guard)
  | Discoverer.ok _ ↦ (Discoverer.ok tt, send (GuardianInput.set_txt key value) guard)
]

unfoldable pub remove_txt_attribute : Str → DropGuard → DropGuard
remove_txt_attribute key = send (GuardianInput.remove_txt key)

unfoldable pub add_interface_v4 : ℕ → DropGuard → DropGuard
add_interface_v4 interface = send (GuardianInput.add_interface (v4 interface))

unfoldable pub remove_interface_v4 : ℕ → DropGuard → DropGuard
remove_interface_v4 interface = send (GuardianInput.remove_interface (v4 interface))

-- `drop`: the task to abort, which is taken out and unwrapped.
unfoldable pub drop : DropGuard → Outcome (ℕ × DropGuard)
drop guard = do task ← expect guard.task; ok (task, record guard { task = none })

-- The calls that an application can make while it holds the guard.
pub data Call : Type 0 where
  call_remove_all : Call
  call_remove_port : ℕ → Call
  call_remove_addr : IpAddr → Call
  call_add : ℕ → List IpAddr → Call
  call_set_txt_attribute : Str → Option Str → Call
  call_remove_txt_attribute : Str → Call
  call_add_interface_v4 call_remove_interface_v4 : ℕ → Call

unfoldable pub make : Call → DropGuard → DropGuard
unfolding remove_all remove_port remove_addr add set_txt_attribute remove_txt_attribute
    add_interface_v4 remove_interface_v4
make call_remove_all guard = remove_all guard
make (call_remove_port port) guard = remove_port port guard
make (call_remove_addr addr) guard = remove_addr addr guard
make (call_add port addrs) guard = add port addrs guard
make (call_set_txt_attribute key value) guard = (set_txt_attribute key value guard).1
make (call_remove_txt_attribute key) guard = remove_txt_attribute key guard
make (call_add_interface_v4 interface) guard = add_interface_v4 interface guard
make (call_remove_interface_v4 interface) guard = remove_interface_v4 interface guard

unfoldable pub make_all : List Call → DropGuard → DropGuard
unfolding make
make_all [] guard = guard
make_all (call ∷ calls) guard = make_all calls (make call guard)
