-- ===== src/Server/Consumer.antt =====
-- internal/server/group_consumer.go: the subscription to the events of group memberships, what is
-- answered to an event, and the loop that tries to subscribe.
pub mod Runs
use users.Prelude.{ℕ, suc, ◌+◌, ◌-◌, ◌*◌, Bool, List, [], ◌∷◌, Bytes, codes, ltb, if◌then◌else◌}
use users.Prelude.Int.{ℤ}
use users.Errors.{Result, ok, err, Error, wrap}
use users.World.{Environment, M, pure, attempt, ◌>>=◌}
use users.Server.Ticker.{Signal, start_ticker}
use users.Server.GroupSync.Sync.{
  EventCodec, handle_group_membership_event, reconcile_all_user_device_group_roles,
}

-- Delays in seconds.
abbrev group_membership_retry_initial : ℕ
group_membership_retry_initial = 1

abbrev group_membership_retry_max : ℕ
group_membership_retry_max = 30

next_group_membership_retry_delay : ℕ → ℕ
next_group_membership_retry_delay delay =
    let next = delay * 2 in
    if ltb group_membership_retry_max next then group_membership_retry_max else next

-- What the handler of a message answers to the broker.
pub data Reply : Type 0 where
  ack nak : Reply

reply_of : Result (Unit {0}) → Reply
reply_of (ok u) = ack
reply_of (err e) = nak

-- The callback of `StartGroupMembershipConsumer`.
pub on_message : Environment → EventCodec → ℕ → (subject payload : Bytes) → M Reply
unfolding handle_group_membership_event reply_of
on_message env codec fuel subject payload = do
  handled ← attempt (handle_group_membership_event env codec fuel subject payload)
  pure (reply_of handled)

-- How NATS answers one attempt: nats.Connect, conn.JetStream and js.Subscribe.
pub record Attempt : Type 0 where
  pub connect : Result (Unit {0})
  pub jet_stream : Result (Unit {0})
  pub subscribe : Result (Unit {0})

-- `StartGroupMembershipConsumer`
start_consumer : Attempt → Result (Unit {0})
start_consumer a = elim a.jet_stream [
  | err e ↦ err (wrap "create jetstream context" e)
  | ok u ↦ elim a.subscribe [
    | err e ↦ err (wrap "subscribe to group membership events" e)
    | ok u ↦ ok u
  ]
]

-- The connections that are open behind an action.
close_unless : ℕ → Result (Unit {0}) → Result (Unit {0}) × ℕ
close_unless connections (err e) = (err e, connections - 1)
close_unless connections (ok u) = (ok u, connections)

-- The subscriber of `StartGroupMembershipConsumerLoop`, with `ConnectNATS`: a connection on which the
-- consumer does not start is closed again.
subscribe : Attempt → ℕ → Result (Unit {0}) × ℕ
unfolding start_consumer close_unless
subscribe a connections = elim a.connect [
  | err e ↦ (err (wrap "connect to nats" e), connections)
  | ok u ↦ close_unless (connections + 1) (start_consumer a)
]

-- `natsGroupMembershipSubscription.Unsubscribe`: the connection is closed whatever it answers.
unsubscribe : Result (Unit {0}) → ℕ → Result (Unit {0}) × ℕ
unsubscribe answer connections = (answer, connections - 1)

-- Where the loop stands: before ctx.Err(), in the select, behind a successful subscribe, or returned.
pub data Phase : Type 0 where
  trying waiting consuming returned : Phase

pub record Loop : Type 0 where
  pub phase : Phase
  pub retry_delay : ℕ
  pub connections : ℕ

pub data Event : Type 0 where
  -- the context ends, with the answer of an Unsubscribe that follows
  cancelled : (answer : Result (Unit {0})) → Event
  -- the context has not ended, and an attempt is made
  attempted : Attempt → Event
  -- time.After(retryDelay)
  elapsed : Event

after_subscribe : Loop → Result (Unit {0}) × ℕ → Loop
after_subscribe s (ok u, connections) = record s { phase = consuming; connections = connections }
after_subscribe s (err e, connections) = record s { phase = waiting; connections = connections }

-- One move of `StartGroupMembershipConsumerLoopWithSubscriber`; an event that the loop does not wait
-- for changes nothing.
step_from : Phase → Event → Loop → Loop
unfolding after_subscribe subscribe unsubscribe next_group_membership_retry_delay
step_from trying (cancelled answer) s = record s { phase = returned }
step_from trying (attempted a) s = after_subscribe s (subscribe a s.connections)
step_from waiting (cancelled answer) s = record s { phase = returned }
step_from waiting elapsed s = record s {
  phase = trying;
  retry_delay = next_group_membership_retry_delay s.retry_delay;
}
step_from consuming (cancelled answer) s = record s {
  phase = returned;
  connections = (unsubscribe answer s.connections).1;
}
step_from _ event s = s

pub step : Event → Loop → Loop
unfolding step_from
step event s = step_from s.phase event s

abbrev pub start : Loop
start = record { phase = trying; retry_delay = group_membership_retry_initial; connections = 0 }

pub run : List Event → Loop → Loop
unfolding step
run [] s = s
run (event ∷ events) s = run events (step event s)

start_group_role_reconciliation : Environment → ℕ → ℤ → List Signal → M (Unit {0})
unfolding start_ticker reconcile_all_user_device_group_roles
start_group_role_reconciliation env fuel interval signals =
    start_ticker interval (reconcile_all_user_device_group_roles env fuel) signals
