-- ===== src/Sender/Machine.antt =====
-- The actor of src/sender.rs. A node waits for a query or asks itself (`querying`), and then waits
-- to respond (`responding`), until it has responded or enough others have.
use swarm_discovery.Prelude.{
  ℕ, ◌+◌, ◌%◌, ◌^◌, Bool, true, false, List, [], ◌∷◌, ◌++◌, Option, none, some, if◌then◌else◌, ◌==◌,
  leb,
}
use swarm_discovery.Std.BtreeMap
use swarm_discovery.Std.BtreeMap.{BtreeMap}
use swarm_discovery.Std.Float.{FloatOps}
use swarm_discovery.Std.Outcome.{Outcome, ok, panic, ◌>>=◌, ◌>>◌}
use swarm_discovery.Std.Text.{Str}
use swarm_discovery.Std.Time.{Duration, Instant}
use swarm_discovery.Discoverer.{Discoverer}
use swarm_discovery.Dns.{NameApi, Message}
use swarm_discovery.Messages.{
  MdnsMsg, query_v4, query_v6, response, timeout, size_update, update, GuardianInput,
}
use swarm_discovery.Peer.{Peer, Mode, v4, v6, any}
use swarm_discovery.Sender.Response.{make_query, make_response, update_response}
use swarm_discovery.Sender.Delay.{cutoff, query_delay, next_extra_delay, respond_delay, as_u32}

pub data Phase : Type 0 where
  querying : Phase
  responding : Mode → ℕ → Phase
  stopped : Phase

-- The variables of `sender`; the second loop's are those of the phase `responding`.
pub record State (Name : Type 0) : Type 0 where
  pub discoverer : Discoverer
  pub response_msg : Option (Message Name)
  pub timeout_count : ℕ
  pub swarm_size : ℕ
  pub extra_delay : Duration
  pub has_responded : Bool
  pub phase : Phase

-- The start of a timer that sends `Timeout(count)`, which comes to nothing if the computation of its
-- delay panics; `abort` of that timer; a packet to the network; and messages to the updater.
pub data Effect (Name : Type 0) : Type 0 where
  start_timer : Outcome Duration → ℕ → Effect Name
  abort_timer : Effect Name
  send_packet : Message Name → Mode → Effect Name
  send_peers : BtreeMap Str Peer → Effect Name
  subscribe_size : Effect Name

-- `ActoInput`
pub data ActorInput : Type 0 where
  message : MdnsMsg → ActorInput
  no_more_senders : ActorInput

-- What a round of a loop reads besides the mailbox: the clock, the random draw for a timer that it
-- may start, and whether `Sockets::send_msg` panics.
pub record Environment (Name : Type 0) : Type 0 where
  pub now : Instant
  pub millionth : ℕ
  pub send_msg : Message Name → Mode → Outcome (Unit {0})

abbrev pub Step : Type 0 → Type 0
Step Name = Outcome (State Name × List (Effect Name))

-- `timeout_count += 1` on a `usize`
abbrev pub next_count : ℕ → ℕ
next_count n = (n + 1) % 2 ^ 64

module _ {Name : Type 0} where
  -- The head of the outer loop.
  unfoldable pub begin_query : Environment Name → State Name → State Name × List (Effect Name)
  begin_query env st = (
    record st { phase = querying },
    start_timer (query_delay st.discoverer.tau st.swarm_size env.millionth) st.timeout_count ∷ [],
  )

  -- From the end of the first loop to the head of the second.
  unfoldable pub begin_response : Environment Name → ℕ → Mode → State Name → Step Name
  begin_response env cut mode st = do
    extra ← next_extra_delay st.has_responded st.extra_delay st.swarm_size cut
    let count = next_count st.timeout_count
    ok (
      record st {
        timeout_count = count;
        extra_delay = extra;
        has_responded = false;
        phase = responding mode 0;
      },
      start_timer (respond_delay extra st.swarm_size cut env.millionth) count ∷ [],
    )

  -- The end of the second loop, and the head of the outer one.
  unfoldable pub end_response : Environment Name → State Name → State Name × List (Effect Name)
  unfolding begin_query
  end_response env st = begin_query env (record st { timeout_count = next_count st.timeout_count })

  -- Effects that come before those of a step.
  abbrev pub after : List (Effect Name) → Step Name → Step Name
  after effects (ok (st, more)) = ok (st, effects ++ more)
  after effects panic = panic

module _ {Name : Type 0} (n : NameApi Name) (f : FloatOps) (service_name : Name) where
  abbrev pub cut_of : State Name → ℕ
  cut_of st = cutoff f st.discoverer.tau st.discoverer.phi

  -- `response = update_response(...)`, the same in both loops
  unfoldable pub apply_update : Environment Name → GuardianInput → State Name → Step Name
  unfolding update_response
  apply_update env input st = do
    (discoverer', response') ← update_response n env.now st.discoverer service_name input
    ok (record st { discoverer = discoverer'; response_msg = response' }, [])

  -- The first loop.
  unfoldable pub while_querying : Environment Name → MdnsMsg → State Name → Step Name
  unfolding begin_response apply_update
  while_querying env query_v4 st = after (abort_timer ∷ []) (begin_response env (cut_of st) v4 st)
  while_querying env query_v6 st = after (abort_timer ∷ []) (begin_response env (cut_of st) v6 st)
  while_querying env (response resp) st = ok (st, send_peers resp ∷ [])
  while_querying env (timeout count) st =
      if count == st.timeout_count
      then (do
        env.send_msg (make_query service_name) any
        after (send_packet (make_query service_name) any ∷ [])
            (begin_response env (cut_of st) any st))
      else ok (st, [])
  while_querying env (size_update size) st = ok (record st { swarm_size = size }, [])
  while_querying env (update input) st = apply_update env input st

  -- What the timer of the second loop does.
  unfoldable pub respond : Environment Name → Mode → State Name → Step Name
  unfolding end_response
  respond env mode st = elim st.response_msg [
    | none ↦ ok (end_response env st)
    | some msg ↦ do
      env.send_msg msg mode
      after (send_packet msg mode ∷ []) (ok (end_response env (record st { has_responded = true })))
  ]

  -- The second loop.
  unfoldable pub while_responding : Environment Name → Mode → ℕ → MdnsMsg → State Name → Step Name
  unfolding end_response apply_update respond
  while_responding env mode heard (response resp) st =
      let heard' = (heard + as_u32 (BtreeMap.len resp)) % 2 ^ 32 in
      if leb (cut_of st) heard'
      then after (send_peers resp ∷ abort_timer ∷ []) (ok (end_response env st))
      else ok (record st { phase = responding mode heard' }, send_peers resp ∷ [])
  while_responding env mode heard (timeout count) st =
      if count == st.timeout_count then respond env mode st else ok (st, [])
  while_responding env mode heard (size_update size) st = ok (record st { swarm_size = size }, [])
  while_responding env mode heard (update input) st = apply_update env input st
  while_responding env mode heard query_v4 st = ok (st, [])
  while_responding env mode heard query_v6 st = ok (st, [])

  -- One round of the loop that the actor is in. The first loop ends the actor when there is no more
  -- message, the second takes no notice of that.
  unfoldable pub dispatch : Environment Name → Phase → ActorInput → State Name → Step Name
  unfolding while_querying while_responding
  dispatch env querying (message msg) st = while_querying env msg st
  dispatch env querying no_more_senders st = ok (record st { phase = stopped }, [])
  dispatch env (responding mode heard) (message msg) st = while_responding env mode heard msg st
  dispatch env (responding mode heard) no_more_senders st = ok (st, [])
  dispatch env stopped input st = ok (st, [])

  unfoldable pub step : State Name → Environment Name × ActorInput → Step Name
  unfolding dispatch
  step st (env, input) = dispatch env st.phase input st

  unfoldable pub run : State Name → List (Environment Name × ActorInput) → Step Name
  unfolding step
  run st [] = ok (st, [])
  run st (input ∷ inputs) = do (st', effects) ← step st input; after effects (run st' inputs)

  -- The start of the actor, up to the first loop.
  unfoldable pub start : Environment Name → Discoverer → Step Name
  unfolding begin_query make_response
  start env discoverer = do
    response' ← make_response n discoverer service_name
    after (subscribe_size ∷ []) (
        ok (
          begin_query env (record {
            discoverer = discoverer;
            response_msg = response';
            timeout_count = 0;
            swarm_size = 1;
            extra_delay = 0;
            has_responded = false;
            phase = querying;
          })))
