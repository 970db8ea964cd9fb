-- ===== src/Messaging/Publisher/Returns.antt =====
-- What the broker's return of a message does to the promise of its publication,
-- services/payment-service/src/messaging/rabbitmq-publisher.ts.
use payment_orchestration_pl.Prelude.{
  ℕ, String, ◌≡◌, ◌≢◌, Bool, true, false, Option, none, some, List, [], ◌∷◌, arith, inl, inr,
  Option-cases, is_some,
}
use payment_orchestration_pl.Worker.{PublishOutcome, confirmed}
use payment_orchestration_pl.Messaging.Publisher.{
  Publication, Publisher, new_publisher, settle, publish, on_confirm, on_timeout,
  handle_returned_message, PublisherEvent, handle, handle_all,
}
use payment_orchestration_pl.Messaging.Publisher.Settling.{
  IsSound, handle-IsSound, handle_all-IsSound, handle_all-IsSound_from, new_publisher-IsSound,
}
use payment_orchestration_pl.Messaging.Publisher.Tracking.{
  IsOnly, new_publisher-IsTracked, handle_all-IsTracked,
}

abbrev is_returned : Option Publication → Bool
is_returned none = false
is_returned (some x) = is_some x.returned_error

-- The error of a return stays with its publication.
settle-returned :
    (n k : ℕ) (o : PublishOutcome) (p : Publisher)
    → is_returned (p.publications n) ≡ true
    → is_returned ((settle k o p).publications n) ≡ true
unfolding settle
settle-returned n k o p h = ground (arith, h)

handle-returned :
    (n : ℕ) (e : PublisherEvent) (p : Publisher)
    → IsSound p
    → is_returned (p.publications n) ≡ true
    → is_returned ((handle e p).publications n) ≡ true
unfolding handle publish on_confirm on_timeout handle_returned_message settle
handle-returned n (PublisherEvent.published id c handover) p s h =
    elim (Option-cases (p.publications n)) [
      | inl none_there ↦ absurd (ground (arith, none_there, h))
      | inr (x, found) ↦ ground (arith, h, found, s.numbered n x found)
    ]
handle-returned n (PublisherEvent.confirm k error) p s h = ground (arith, h)
handle-returned n (PublisherEvent.timeout k) p s h = ground (arith, h)
handle-returned n (PublisherEvent.returned id message) p s h = ground (arith, h)

handle_all-returned :
    (n : ℕ) (es : List PublisherEvent) (p : Publisher)
    → IsSound p
    → is_returned (p.publications n) ≡ true
    → is_returned ((handle_all es p).publications n) ≡ true
unfolding handle_all
handle_all-returned n [] p s h = h
handle_all-returned n (e ∷ es) p s h =
    handle_all-returned n es (handle e p) (handle-IsSound e p s) (handle-returned n e p s h)

-- The promise is there, and has not resolved.
abbrev pub IsUnconfirmed : ℕ → Publisher → Type 0
IsUnconfirmed n p = (y : Publication) × (p.publications n ≡ some y) × (y.settled ≢ some confirmed)

returned-IsUnconfirmed :
    (n : ℕ) (p : Publisher) → IsSound p → is_returned (p.publications n) ≡ true → IsUnconfirmed n p
returned-IsUnconfirmed n p s h = elim (Option-cases (p.publications n)) [
  | inl e ↦ absurd (ground (arith, e, h))
  | inr (y, e) ↦ (y, e, λ k. ground (arith, e, h, s.honest n y e k))
]

-- The state is sound, and a return reaches the promise that it is about: if the message of a promise
-- that waits is returned, and no other publication has its event id, then whatever happens later,
-- the promise does not resolve.
pub record IsHonest (p : Publisher) : Type 0 where
  pub sound : IsSound p
  pub returned :
      (n : ℕ) (x : Publication) (message : String) (later : List PublisherEvent)
      → p.publications n ≡ some x
      → x.settled ≡ none
      → IsOnly x.event_id n p.publications
      → IsUnconfirmed n (handle_all later (handle_returned_message (some x.event_id) message p))

return-returned :
    (n : ℕ) (x : Publication) (message : String) (p : Publisher)
    → p.publications n ≡ some x
    → p.pending_publishes x.event_id ≡ some n
    → is_returned ((handle_returned_message (some x.event_id) message p).publications n) ≡ true
unfolding handle_returned_message
return-returned n x message p e f = ground (arith, e, f)

-- In every run of a new publisher the map points only at promises that wait, under their own event
-- id; a promise waits exactly as long as its timeout is registered; and a promise that has the
-- error of a return does not resolve. If the message of a promise that waits is returned, and no
-- other publication has its event id, then whatever happens later, the promise does not resolve.
pub handle_all-IsHonest : (es : List PublisherEvent) → IsHonest (handle_all es new_publisher)
unfolding handle
handle_all-IsHonest es =
    let p = handle_all es new_publisher in
    let s = handle_all-IsSound es in
    let v = handle_all-IsTracked es new_publisher new_publisher-IsSound new_publisher-IsTracked in
    record {
      sound = s;
      returned = λ n x message later e waits only.
          let q = handle_returned_message (some x.event_id) message p in
          let t = handle-IsSound (PublisherEvent.returned (some x.event_id) message) p s in
          returned-IsUnconfirmed n (handle_all later q) (handle_all-IsSound_from later q t) (
            handle_all-returned n later q t
              (return-returned n x message p e (v.tracked n x e waits only)));
    }
