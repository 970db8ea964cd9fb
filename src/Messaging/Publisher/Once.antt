-- ===== src/Messaging/Publisher/Once.antt =====
-- That a promise of services/payment-service/src/messaging/rabbitmq-publisher.ts settles once, and how
-- a returned message ends it.
use payment_orchestration_pl.Prelude.{
  ℕ, String, ◌≡◌, refl, false, none, some, List, [], ◌∷◌, arith, inl, inr, Bool-cases, Option-cases,
}
use payment_orchestration_pl.Worker.{PublishOutcome, failed, not_attempted}
use payment_orchestration_pl.Messaging.Publisher.{
  Publication, Publisher, invalidate, settle, publish, on_confirm, on_timeout, accepted, threw,
  handle_returned_message, PublisherEvent, handle, handle_all,
}
use payment_orchestration_pl.Messaging.Publisher.Settling.{IsSound, handle-IsSound, opened}

-- The promise with this number has ended so.
pub record HasSettled (n : ℕ) (o : PublishOutcome) (p : Publisher) : Type 0 where
  pub publication : Publication
  pub found : p.publications n ≡ some publication
  pub outcome : publication.settled ≡ some o

settle-HasSettled :
    (m n : ℕ) (o o' : PublishOutcome) (p : Publisher)
    → HasSettled n o p
    → HasSettled n o (settle m o' p)
unfolding settle
settle-HasSettled m n o o' p s = elim (Option-cases (p.publications m)) [
  | inl e ↦ rw e s
  | inr (x, e) ↦ rw e (elim (Option-cases x.settled) [
    | inr (o'', k) ↦ rw k s
    | inl waits ↦ rw waits (record {
      publication = s.publication;
      found = ground (arith, e, waits, s.found, s.outcome);
      outcome = s.outcome;
    })
  ])
]

handle-HasSettled :
    (e : PublisherEvent) (n : ℕ) (o : PublishOutcome) (p : Publisher)
    → IsSound p
    → HasSettled n o p
    → HasSettled n o (handle e p)
unfolding handle publish on_confirm on_timeout handle_returned_message
handle-HasSettled (PublisherEvent.published id c accepted) n o p v s = record {
  publication = s.publication;
  found = ground (arith, s.found, v.numbered n s.publication);
  outcome = s.outcome;
}
handle-HasSettled (PublisherEvent.published id c (threw message)) n o p v s =
    settle-HasSettled p.count n o (not_attempted message) (invalidate c (opened id c p)) (record {
      publication = s.publication;
      found = ground (arith, s.found, v.numbered n s.publication);
      outcome = s.outcome;
    })
handle-HasSettled (PublisherEvent.confirm m error) n o p v s =
    elim (Option-cases (p.publications m)) [
      | inl e ↦ rw e s
      | inr (x, e) ↦ rw e (settle-HasSettled m n o _ p s)
    ]
handle-HasSettled (PublisherEvent.timeout m) n o p v s = elim (Option-cases (p.publications m)) [
  | inl e ↦ rw e s
  | inr (x, e) ↦ rw e (elim (Bool-cases x.timer) [
    | inl on ↦ rw on (
        settle-HasSettled m n o (failed "confirm timeout") (invalidate x.channel p)
          (record { publication = s.publication; found = s.found; outcome = s.outcome }))
    | inr off ↦ rw off s
  ])
]
handle-HasSettled (PublisherEvent.returned none message) n o p v s = s
handle-HasSettled (PublisherEvent.returned (some id) message) n o p v s =
    elim (Option-cases (p.pending_publishes id)) [
      | inl e ↦ rw e s
      | inr (m, e) ↦
          let (x, f, named, waits) = v.pending id m e in
          rw (e, f)
            (record {
              publication = s.publication;
              found = ground (arith, f, waits, s.found, s.outcome);
              outcome = s.outcome;
            })
    ]

-- In a sound publisher, a promise that has settled keeps its outcome whatever comes after.
pub handle_all-HasSettled :
    (es : List PublisherEvent) (n : ℕ) (o : PublishOutcome) (p : Publisher)
    → IsSound p
    → HasSettled n o p
    → HasSettled n o (handle_all es p)
unfolding handle_all
handle_all-HasSettled [] n o p v s = s
handle_all-HasSettled (e ∷ es) n o p v s =
    handle_all-HasSettled es n o (handle e p) (handle-IsSound e p v) (handle-HasSettled e n o p v s)

-- In a sound publisher, a promise that waits is rejected by a returned message that names its
-- event, followed by a confirm without an error.
pub returned-confirm :
    (id message : String) (n : ℕ) (p : Publisher)
    → IsSound p
    → p.pending_publishes id ≡ some n
    → HasSettled n (failed message) (
        handle
          (PublisherEvent.confirm n none)
          (handle (PublisherEvent.returned (some id) message) p))
unfolding handle on_confirm handle_returned_message settle
returned-confirm id message n p v e =
    let (x, f, named, waits) = v.pending id n e in
    record {
      publication = record x {
        returned_error = some message;
        settled = some (failed message);
        timer = false;
      };
      found = ground (arith, e, f, waits);
      outcome = refl;
    }
