-- ===== src/Messaging/Publisher/Settling.antt =====
-- How the promises of services/payment-service/src/messaging/rabbitmq-publisher.ts settle.
use payment_orchestration_pl.Prelude.{
  ℕ, ◌+◌, ◌<◌, String, ◌≡◌, refl, sym, true, Option, none, some, List, [], ◌∷◌, arith, ◌==◌, eq_iff,
  nat_eq, if◌then◌else◌, inl, inr, Bool-cases, Option-cases,
}
use payment_orchestration_pl.Worker.{PublishOutcome, confirmed, failed, not_attempted}
use payment_orchestration_pl.Messaging.Publisher.{
  note_return, confirm_outcome, Publication, Publisher, accepted, threw, invalidate, new_publisher,
  settle, publish, on_confirm, on_timeout, Handover, handle_returned_message, PublisherEvent,
  handle, handle_all, set_entry, set_publication,
}

-- The state that every run keeps.
pub record IsSound (p : Publisher) : Type 0 where
  -- numbers are given out in order
  pub numbered : (n : ℕ) (x : Publication) → p.publications n ≡ some x → n < p.count
  -- the map points at publications that wait, under their own id
  pub pending :
      (id : String) (n : ℕ)
      → p.pending_publishes id ≡ some n
      → (x : Publication) × (p.publications n ≡ some x) × (x.event_id ≡ id) × (x.settled ≡ none)
  -- a publication that waits has its timer
  pub timed :
      (n : ℕ) (x : Publication)
      → p.publications n ≡ some x
      → (x.timer ≡ true → x.settled ≡ none) × (x.settled ≡ none → x.timer ≡ true)
  -- a publication that has the error of a return is not confirmed
  pub honest :
      (n : ℕ) (x : Publication)
      → p.publications n ≡ some x
      → x.settled ≡ some confirmed
      → x.returned_error ≡ none

pub new_publisher-IsSound : IsSound new_publisher
unfolding new_publisher
new_publisher-IsSound = record {
  numbered = λ n x h. absurd (ground arith);
  pending = λ id n h. absurd (ground arith);
  timed = λ n x h. absurd (ground arith);
  honest = λ n x h. absurd (ground arith);
}

settle-IsSound :
    (n : ℕ) (o : PublishOutcome) (p : Publisher) (x : Publication)
    → p.publications n ≡ some x
    → (o ≡ confirmed → x.returned_error ≡ none)
    → IsSound p
    → IsSound (settle n o p)
unfolding settle
settle-IsSound n o p x e r v = record {
  numbered = λ m y h. ground (arith, v.numbered m y, v.numbered n x e);
  pending = λ id m h.
      let found : p.pending_publishes id ≡ some m = ground (arith, e, h) in
      let (y, f, named, waits) = v.pending id m found in
      (y, ground (arith, e, f, h, named, waits, eq_iff id x.event_id), named, waits);
  timed = λ m y h. ground (arith, v.timed m y, v.timed n x e);
  honest = λ m y h k. ground (arith, v.honest m y, v.honest n x e, r);
}

invalidate-IsSound : (c : ℕ) (p : Publisher) → IsSound p → IsSound (invalidate c p)
invalidate-IsSound c p v = record {
  numbered = v.numbered;
  pending = v.pending;
  timed = v.timed;
  honest = v.honest;
}

abbrev pub waiting : String → ℕ → Publication
waiting event_id channel = record {
  event_id = event_id;
  channel = channel;
  returned_error = none;
  settled = none;
  timer = true;
}

-- A fresh publication, before its message is handed over.
abbrev pub opened : String → ℕ → Publisher → Publisher
opened event_id channel p = record p {
  publications = set_publication p.count (waiting event_id channel) p.publications;
  count = p.count + 1;
  pending_publishes = set_entry event_id (some p.count) p.pending_publishes;
}

opened-IsSound : (id : String) (c : ℕ) (p : Publisher) → IsSound p → IsSound (opened id c p)
opened-IsSound id c p v = record {
  numbered = λ m y h. ground (arith, v.numbered m y);
  pending = λ i m h. elim (Bool-cases (i == id)) [
    | inl same ↦ (waiting id c, ground (arith, h, same), sym ((eq_iff i id).0 same), refl)
    | inr other ↦
        let found : p.pending_publishes i ≡ some m = ground (arith, h, other) in
        let (y, f, named, waits) = v.pending i m found in
        (y, ground (arith, f, v.numbered m y), named, waits)
  ];
  timed = λ m y h. ground (arith, v.timed m y);
  honest = λ m y h k. ground (arith, v.honest m y);
}

publish-IsSound :
    (id : String) (c : ℕ) (handover : Handover) (p : Publisher)
    → IsSound p
    → IsSound (publish id c handover p)
unfolding publish
publish-IsSound id c accepted p v = opened-IsSound id c p v
publish-IsSound id c (threw message) p v =
    settle-IsSound p.count (not_attempted message) (invalidate c (opened id c p)) (waiting id c)
      (ground arith) (λ k. refl) (invalidate-IsSound c (opened id c p) (opened-IsSound id c p v))

confirm-IsSound :
    (n : ℕ) (error : Option String) (p : Publisher) → IsSound p → IsSound (on_confirm n error p)
unfolding on_confirm
confirm-IsSound n error p v = elim (Option-cases (p.publications n)) [
  | inl e ↦ rw e v
  | inr (x, e) ↦
      rw e
        (settle-IsSound n (confirm_outcome error x.returned_error) p x e (λ k. ground (arith, k)) v)
]

timeout-IsSound : (n : ℕ) (p : Publisher) → IsSound p → IsSound (on_timeout n p)
unfolding on_timeout
timeout-IsSound n p v = elim (Option-cases (p.publications n)) [
  | inl e ↦ rw e v
  | inr (x, e) ↦ rw e (elim (Bool-cases x.timer) [
    | inl on ↦ rw on (
        settle-IsSound n (failed "confirm timeout") (invalidate x.channel p) x e
          (λ k. absurd (ground arith)) (invalidate-IsSound x.channel p v))
    | inr off ↦ rw off v
  ])
]

note-IsSound :
    (n : ℕ) (message : String) (p : Publisher) (x : Publication)
    → p.publications n ≡ some x
    → x.settled ≡ none
    → IsSound p
    → IsSound (note_return n message (some x) p)
note-IsSound n message p x e waits v = record {
  numbered = λ m y h. ground (arith, v.numbered m y, v.numbered n x e);
  pending = λ id m h.
      let (y, f, named, live) = v.pending id m h in
      (
        (if nat_eq m n then record x { returned_error = some message } else y),
        ground (arith, f),
        ground (arith, e, f, named),
        ground (arith, live, waits),
      );
  timed = λ m y h. ground (arith, v.timed m y, v.timed n x e);
  honest = λ m y h k. ground (arith, v.honest m y, waits);
}

return-IsSound :
    (id : Option String) (message : String) (p : Publisher)
    → IsSound p
    → IsSound (handle_returned_message id message p)
unfolding handle_returned_message
return-IsSound none message p v = v
return-IsSound (some id) message p v = elim (Option-cases (p.pending_publishes id)) [
  | inl e ↦ rw e v
  | inr (n, e) ↦
      let (x, f, named, waits) = v.pending id n e in
      rw (e, f) (note-IsSound n message p x f waits v)
]

pub handle-IsSound : (e : PublisherEvent) (p : Publisher) → IsSound p → IsSound (handle e p)
unfolding handle
handle-IsSound (PublisherEvent.published id c handover) p v = publish-IsSound id c handover p v
handle-IsSound (PublisherEvent.confirm n error) p v = confirm-IsSound n error p v
handle-IsSound (PublisherEvent.timeout n) p v = timeout-IsSound n p v
handle-IsSound (PublisherEvent.returned id message) p v = return-IsSound id message p v

pub handle_all-IsSound_from :
    (es : List PublisherEvent) (p : Publisher) → IsSound p → IsSound (handle_all es p)
unfolding handle_all
handle_all-IsSound_from [] p v = v
handle_all-IsSound_from (e ∷ es) p v =
    handle_all-IsSound_from es (handle e p) (handle-IsSound e p v)

-- In every run of a new publisher the map points only at promises that wait, under their own event
-- id; a promise waits exactly as long as its timeout is registered; and a promise that has the
-- error of a return does not resolve.
pub handle_all-IsSound : (es : List PublisherEvent) → IsSound (handle_all es new_publisher)
handle_all-IsSound es = handle_all-IsSound_from es new_publisher new_publisher-IsSound
