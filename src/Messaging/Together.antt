-- ===== src/Messaging/Together.antt =====
-- The publisher of services/payment-service/src/messaging/rabbitmq-publisher.ts on the channels of
-- services/payment-service/src/messaging/rabbitmq-connection-manager.ts.
pub mod Supply
pub mod Replacement
mod Tests
use payment_orchestration_pl.Prelude.{
  ℕ, ◌≡◌, String, true, Option, none, some, nat_eq, List, [], ◌∷◌, if◌then◌else◌,
}
use payment_orchestration_pl.Messaging.Publisher.{
  Handover, Publisher, new_publisher, PublisherEvent, handle,
}
use payment_orchestration_pl.Messaging.Connections.{Channel, Manager, new_manager, has}
use payment_orchestration_pl.Messaging.Connections.Closing.{invalidate_channel}
use payment_orchestration_pl.Messaging.Connections.Runs.{System}
use payment_orchestration_pl.Messaging.Connections.Runs
use payment_orchestration_pl.Messaging.Connections.Release.{HandsOut}

-- `given` collects the channels that calls of `publish` have got, and `invalidated` those for which
-- the publisher has called `invalidateChannel`.
pub record Messenger : Type 0 where
  pub system : System
  pub publisher : Publisher
  pub given : List ℕ
  pub invalidated : List ℕ

abbrev pub new_messenger : Messenger
new_messenger = record {
  system = record { manager = new_manager; lost = [] };
  publisher = new_publisher;
  given = [];
  invalidated = [];
}

abbrev pub invalidate_found : (channel : ℕ) → Option Channel → Manager → Manager
invalidate_found c none m = m
invalidate_found c (some k) m = if nat_eq k.id c then invalidate_channel k m else m

-- `invalidateChannel` of the channel with this number; it does nothing for one that is not current.
abbrev pub invalidate_numbered : (channel : ℕ) → Manager → Manager
invalidate_numbered c m = invalidate_found c m.channel m

-- The calls of `invalidateChannel` that an event has made.
unfoldable pub make_calls : List ℕ → Messenger → Messenger
make_calls [] s = s
make_calls (c ∷ cs) s = make_calls cs (record s {
  system = record s.system { manager = invalidate_numbered c s.system.manager };
  invalidated = c ∷ s.invalidated;
})

-- An event of the publisher, with the calls that it makes.
unfoldable pub take_event : PublisherEvent → Messenger → Messenger
unfolding handle make_calls
take_event e s =
    let p = handle e s.publisher in
    make_calls p.invalidated (record s { publisher = record p { invalidated = [] } })

-- A message is published on a channel that the call has got.
abbrev pub IsAllowed : PublisherEvent → List ℕ → Type 0
IsAllowed (PublisherEvent.published event_id channel handover) given = has channel given ≡ true
IsAllowed _ given = Unit

pub data Step (s : Messenger) : Messenger → Type 0 where
  manages : {t : System} → Runs.Step s.system t → Step s (record s { system = t })
  hands_out :
      {t : System} (k : Channel)
      → Runs.Step s.system t
      → HandsOut s.system k t.manager
      → Step s (record s { system = t; given = k.id ∷ s.given })
  takes : (e : PublisherEvent) → IsAllowed e s.given → Step s (take_event e s)

pub data Reach : Messenger → Type 0 where
  start : Reach new_messenger
  next : {s t : Messenger} → Reach s → Step s t → Reach t
