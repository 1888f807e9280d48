-- ===== src/Events/Bus.antt =====
-- internal/core/events.go: `EventBus`. A subscriber is its number with the events that its channel
-- holds; a channel that is cancelled is no longer reachable from the bus. Each method holds the lock.
use sniffy.Common.{ℕ, ◌+◌, not, List, [], ◌∷◌, ◌++◌, ltb, ◌==◌, length, select, if◌then◌else◌}
use sniffy.Common.Bytes.{Text}

-- `Event`; the number stands for the payload.
pub record Event : Type 0 where
  pub kind : Text
  pub payload : ℕ

pub record Subscriber : Type 0 where
  pub id : ℕ
  pub pending : List Event

pub record EventBus : Type 0 where
  pub subscribers : List Subscriber
  pub next_id : ℕ
  pub buffer_size : ℕ

-- `NewEventBus`.
unfoldable pub new_event_bus : EventBus
new_event_bus = record { subscribers = []; next_id = 0; buffer_size = 256 }

-- `Subscribe`: the number stands for the channel and the cancelling function.
unfoldable pub subscribe : EventBus → EventBus × ℕ
subscribe b = (
  record b {
    subscribers = record { id = b.next_id; pending = [] } ∷ b.subscribers;
    next_id = b.next_id + 1;
  },
  b.next_id,
)

-- What `Subscribe` returns to cancel: nothing happens the second time.
unfoldable pub cancel : EventBus → ℕ → EventBus
cancel b id = record b { subscribers = select (λ s. not (s.id == id)) b.subscribers }

-- One send, which gives up if the channel is full.
unfoldable pub offer : ℕ → Event → Subscriber → Subscriber
offer size e s =
    if ltb (length s.pending) size then record s { pending = s.pending ++ e ∷ [] } else s

unfoldable pub offer_each : ℕ → Event → List Subscriber → List Subscriber
offer_each size e [] = []
offer_each size e (s ∷ ss) = offer size e s ∷ offer_each size e ss

unfoldable pub publish : EventBus → Event → EventBus
publish b e = record b { subscribers = offer_each b.buffer_size e b.subscribers }

unfoldable pub emit : EventBus → Text → ℕ → EventBus
unfolding publish
emit b kind payload = publish b (record { kind = kind; payload = payload })

-- A subscriber reads from its channel.
unfoldable pub first_gone : Subscriber → Subscriber
first_gone s = elim s.pending [ [] ↦ s | e ∷ es ↦ record s { pending = es } ]

unfoldable pub receive_each : ℕ → List Subscriber → List Subscriber
receive_each id [] = []
receive_each id (s ∷ ss) =
    if s.id == id then first_gone s ∷ receive_each id ss else s ∷ receive_each id ss

unfoldable pub receive : EventBus → ℕ → EventBus
receive b id = record b { subscribers = receive_each id b.subscribers }

-- What goroutines do with a bus, in some order.
pub data Call : Type 0 where
  subscribes : Call
  cancels : ℕ → Call
  publishes : Event → Call
  receives : ℕ → Call

unfoldable pub step : EventBus → Call → EventBus
step b subscribes = (subscribe b).0
step b (cancels id) = cancel b id
step b (publishes e) = publish b e
step b (receives id) = receive b id

unfoldable pub run : EventBus → List Call → EventBus
run b [] = b
run b (c ∷ cs) = run (step b c) cs
