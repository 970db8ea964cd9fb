-- ===== src/Messaging/Publisher.antt =====
-- services/payment-service/src/messaging/rabbitmq-publisher.ts: the promises that `publish` returns,
-- and the map of pending publishes, as the broker's callbacks and the timers change them.
pub mod Settling
pub mod Once
pub mod Tracking
pub mod Returns
use payment_orchestration_pl.Prelude.{
  ℕ, ◌+◌, String, Bool, true, false, Option, none, some, List, [], ◌∷◌, ◌==◌, nat_eq, if◌then◌else◌,
}
use payment_orchestration_pl.Worker.{PublishOutcome, confirmed, failed, not_attempted}

-- One call of `publish`, from its `new Promise` on: `PendingPublish`, with the variables of its
-- closure. `settled` is how the promise has ended, `timer` whether the timeout is registered.
pub record Publication : Type 0 where
  pub event_id : String
  pub channel : ℕ
  pub returned_error : Option String
  pub settled : Option PublishOutcome
  pub timer : Bool

-- A publication is known by its number; the map holds the numbers. Channels are numbered too.
pub record Publisher : Type 0 where
  pub publications : ℕ → Option Publication
  pub count : ℕ
  pub pending_publishes : String → Option ℕ
  pub invalidated : List ℕ

unfoldable pub new_publisher : Publisher
new_publisher = record {
  publications = λ n. none;
  count = 0;
  pending_publishes = λ id. none;
  invalidated = [];
}

-- `map.set(key, value)`, `map.delete(key)`, and a change of a closure's variables.
abbrev pub set_entry : String → Option ℕ → (String → Option ℕ) → String → Option ℕ
set_entry key v m id = if id == key then v else m id

abbrev pub set_publication : ℕ → Publication → (ℕ → Option Publication) → ℕ → Option Publication
set_publication n x ps i = if nat_eq i n then some x else ps i

-- What a settled promise ignores.
abbrev pub settle_pending : ℕ → PublishOutcome → Publication → Publisher → Publisher
settle_pending n outcome x p = record p {
  publications =
      set_publication n (record x { settled = some outcome; timer = false }) p.publications;
  pending_publishes = set_entry x.event_id none p.pending_publishes;
}

abbrev pub settle_if :
    ℕ → PublishOutcome → Publication → Option PublishOutcome → Publisher → Publisher
settle_if n outcome x none p = settle_pending n outcome x p
settle_if n outcome x (some _) p = p

abbrev pub settle_found : ℕ → PublishOutcome → Option Publication → Publisher → Publisher
settle_found n outcome none p = p
settle_found n outcome (some x) p = settle_if n outcome x x.settled p

unfoldable pub settle : ℕ → PublishOutcome → Publisher → Publisher
settle n outcome p = settle_found n outcome (p.publications n) p

-- `invalidateChannel`, of which the connection manager makes what it can.
abbrev pub invalidate : ℕ → Publisher → Publisher
invalidate channel p = record p { invalidated = channel ∷ p.invalidated }

-- How `channel.publish` takes the message: it may throw.
pub data Handover : Type 0 where
  accepted : Handover
  threw : (message : String) → Handover

abbrev pub handed_over : ℕ → ℕ → Handover → Publisher → Publisher
handed_over n channel accepted p = p
handed_over n channel (threw message) p = settle n (not_attempted message) (invalidate channel p)

-- `publish` with a channel; without one it rejects, and changes nothing.
unfoldable pub publish : String → ℕ → Handover → Publisher → Publisher
publish event_id channel handover p = handed_over p.count channel handover (record p {
  publications =
      set_publication p.count
        (record {
          event_id = event_id;
          channel = channel;
          returned_error = none;
          settled = none;
          timer = true;
        })
        p.publications;
  count = p.count + 1;
  pending_publishes = set_entry event_id (some p.count) p.pending_publishes;
})

-- The outcome by the error of the confirm, or else by the returned message.
abbrev pub confirm_outcome : Option String → Option String → PublishOutcome
confirm_outcome (some message) returned = failed message
confirm_outcome none (some message) = failed message
confirm_outcome none none = confirmed

abbrev pub confirm_found : ℕ → Option String → Option Publication → Publisher → Publisher
confirm_found n error none p = p
confirm_found n error (some x) p = settle n (confirm_outcome error x.returned_error) p

-- The callback of `channel.publish`.
unfoldable pub on_confirm : ℕ → Option String → Publisher → Publisher
on_confirm n error p = confirm_found n error (p.publications n) p

abbrev pub timeout_found : ℕ → Option Publication → Publisher → Publisher
timeout_found n none p = p
timeout_found n (some x) p =
    if x.timer then settle n (failed "confirm timeout") (invalidate x.channel p) else p

-- The callback of `setTimeout`, which runs only where it has not been cleared.
unfoldable pub on_timeout : ℕ → Publisher → Publisher
on_timeout n p = timeout_found n (p.publications n) p

abbrev pub note_return : ℕ → String → Option Publication → Publisher → Publisher
note_return n message none p = p
note_return n message (some x) p = record p {
  publications = set_publication n (record x { returned_error = some message }) p.publications;
}

abbrev pub return_pending : String → Option ℕ → Publisher → Publisher
return_pending message none p = p
return_pending message (some n) p = note_return n message (p.publications n) p

abbrev pub return_named : String → Option String → Publisher → Publisher
return_named message none p = p
return_named message (some id) p = return_pending message (p.pending_publishes id) p

-- `handleReturnedMessage`: the id of the message, where it is a text, and the error that it makes.
unfoldable pub handle_returned_message : Option String → String → Publisher → Publisher
handle_returned_message message_id message p = return_named message message_id p

pub data PublisherEvent : Type 0 where
  published : (event_id : String) (channel : ℕ) (handover : Handover) → PublisherEvent
  confirm : (number : ℕ) (error : Option String) → PublisherEvent
  timeout : (number : ℕ) → PublisherEvent
  returned : (message_id : Option String) (message : String) → PublisherEvent

unfoldable pub handle : PublisherEvent → Publisher → Publisher
unfolding publish on_confirm on_timeout handle_returned_message settle
handle (published event_id channel handover) p = publish event_id channel handover p
handle (confirm n error) p = on_confirm n error p
handle (timeout n) p = on_timeout n p
handle (returned message_id message) p = handle_returned_message message_id message p

unfoldable pub handle_all : List PublisherEvent → Publisher → Publisher
handle_all [] p = p
handle_all (e ∷ es) p = handle_all es (handle e p)
