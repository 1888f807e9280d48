-- ===== src/Samples/Events.antt =====
-- internal/core/events.go on concrete calls.
use sniffy.Common.{◌≡◌, refl, List, [], ◌∷◌, none, some}
use sniffy.Common.Bytes.{codes}
use sniffy.Events.{
  Event, Call, subscribes, cancels, publishes, receives, run, step, new_event_bus, subscribe,
  cancel, publish, receive, offer, offer_each, receive_each, first_gone,
}
use sniffy.Events.Fanout.{publish-subscribe, pending_of, queued}

abbrev started : Event
started = record { kind = codes "flow_started"; payload = 1 }

abbrev completed : Event
completed = record { kind = codes "flow_completed"; payload = 1 }

-- Two subscribers; the first leaves after the first event.
abbrev calls : List Call
calls =
    subscribes ∷ subscribes ∷ publishes started ∷ cancels 0 ∷ publishes completed ∷ receives 1 ∷ []

second_has_one :
    (pending_of 0 (run new_event_bus calls).subscribers ≡ none)
    × (pending_of 1 (run new_event_bus calls).subscribers ≡ some (completed ∷ []))
unfolding run step new_event_bus subscribe cancel publish receive offer_each offer receive_each
    first_gone pending_of
second_has_one = (refl, refl)

publish-subscribe_example :
    pending_of 1 (publish (run new_event_bus calls) started).subscribers
    ≡ queued
        (run new_event_bus calls).buffer_size
        started
        (pending_of 1 (run new_event_bus calls).subscribers)
publish-subscribe_example = (publish-subscribe calls started 1).2
