-- ===== src/Messaging/Publisher/Tracking.antt =====
-- Which promises the map of services/payment-service/src/messaging/rabbitmq-publisher.ts has.
use payment_orchestration_pl.Prelude.{
  ℕ, String, ◌≡◌, refl, sym, false, Option, none, some, List, [], ◌∷◌, arith, ◌==◌, eq_iff, nat_eq,
  inl, inr, Bool-cases, Option-cases,
}
use payment_orchestration_pl.Worker.{PublishOutcome, failed, not_attempted}
use payment_orchestration_pl.Messaging.Publisher.{
  confirm_outcome, Publication, Publisher, accepted, threw, invalidate, new_publisher, settle,
  publish, on_confirm, on_timeout, Handover, handle_returned_message, note_return, PublisherEvent,
  handle, handle_all, set_publication,
}
use payment_orchestration_pl.Messaging.Publisher.Settling.{IsSound, handle-IsSound, opened, waiting}

-- No other publication has the event id.
abbrev pub IsOnly : String → ℕ → (ℕ → Option Publication) → Type 0
IsOnly id n ps = (m : ℕ) (y : Publication) → ps m ≡ some y → y.event_id ≡ id → m ≡ n

-- The map has every waiting publication whose event id no other publication has.
pub record IsTracked (p : Publisher) : Type 0 where
  pub tracked :
      (n : ℕ) (x : Publication)
      → p.publications n ≡ some x
      → x.settled ≡ none
      → IsOnly x.event_id n p.publications
      → p.pending_publishes x.event_id ≡ some n

pub new_publisher-IsTracked : IsTracked new_publisher
unfolding new_publisher
new_publisher-IsTracked = record { tracked = λ n x e. absurd (ground arith) }

set-IsOnly :
    (id : String) (n k : ℕ) (z z' : Publication) (ps : ℕ → Option Publication)
    → ps k ≡ some z
    → z'.event_id ≡ z.event_id
    → IsOnly id n (set_publication k z' ps)
    → IsOnly id n ps
set-IsOnly id n k z z' ps e same only m y f named = elim (Bool-cases (nat_eq m k)) [
  | inl at ↦ only m z' (rw at refl) (ground (arith, at, e, f, same, named))
  | inr other ↦ only m y (rw other f) named
]

settle-IsTracked :
    (k : ℕ) (o : PublishOutcome) (p : Publisher) → IsTracked p → IsTracked (settle k o p)
unfolding settle
settle-IsTracked k o p v = elim (Option-cases (p.publications k)) [
  | inl e ↦ rw e v
  | inr (z, e) ↦ rw e (elim (Option-cases z.settled) [
    | inr (s, f) ↦ rw f v
    | inl f ↦ rw f (record {
      tracked = λ n x found waits only. elim (Bool-cases (nat_eq n k)) [
        | inl at ↦ absurd (ground (arith, at, found, waits))
        | inr other ↦
            let z' : Publication = record z { settled = some o; timer = false } in
            let pending =
              v.tracked n x (ground (arith, other, found)) waits
                (set-IsOnly x.event_id n k z z' p.publications e refl only) in
            ground (arith, pending, other, only k z' (ground arith), eq_iff x.event_id z.event_id)
      ];
    })
  ])
]

opened-IsTracked :
    (id : String) (c : ℕ) (p : Publisher) → IsSound p → IsTracked p → IsTracked (opened id c p)
opened-IsTracked id c p s v = record {
  tracked = λ n x found waits only. elim (Bool-cases (nat_eq n p.count)) [
    | inl at ↦ ground (arith, at, found, eq_iff x.event_id id)
    | inr other ↦ elim (Bool-cases (x.event_id == id)) [
      | inl same ↦ absurd (
          ground (
            arith,
            other,
            only p.count (waiting id c) (ground arith) (sym ((eq_iff x.event_id id).0 same)),
          ))
      | inr differs ↦
          let pending =
            v.tracked n x (ground (arith, other, found)) waits
              (λ m y e named. only m y (ground (arith, e, s.numbered m y e)) named) in
          ground (arith, differs, pending)
    ]
  ];
}

invalidate-IsTracked : (c : ℕ) (p : Publisher) → IsTracked p → IsTracked (invalidate c p)
invalidate-IsTracked c p v = record { tracked = v.tracked }

note-IsTracked :
    (k : ℕ) (message : String) (p : Publisher) (o : Option Publication)
    → p.publications k ≡ o
    → IsTracked p
    → IsTracked (note_return k message o p)
note-IsTracked k message p none e v = v
note-IsTracked k message p (some z) e v = record {
  tracked = λ n x found waits only.
      let z' : Publication = record z { returned_error = some message } in
      let before = set-IsOnly x.event_id n k z z' p.publications e refl only in
      elim (Bool-cases (nat_eq n k)) [
        | inl at ↦
            let same : z' ≡ x = ground (arith, at, found) in
            let named : z.event_id ≡ x.event_id = ground (arith, same) in
            let pending =
              v.tracked n z (ground (arith, at, e)) (ground (arith, same, waits))
                (λ m y f g. before m y f (ground (arith, g, named))) in
            ground (arith, pending, named)
        | inr other ↦ v.tracked n x (ground (arith, other, found)) waits before
      ];
}

publish-IsTracked :
    (id : String) (c : ℕ) (handover : Handover) (p : Publisher)
    → IsSound p
    → IsTracked p
    → IsTracked (publish id c handover p)
unfolding publish
publish-IsTracked id c accepted p s v = opened-IsTracked id c p s v
publish-IsTracked id c (threw message) p s v =
    settle-IsTracked p.count (not_attempted message) (invalidate c (opened id c p))
      (invalidate-IsTracked c (opened id c p) (opened-IsTracked id c p s v))

handle-IsTracked :
    (e : PublisherEvent) (p : Publisher) → IsSound p → IsTracked p → IsTracked (handle e p)
unfolding handle on_confirm on_timeout handle_returned_message
handle-IsTracked (PublisherEvent.published id c handover) p s v =
    publish-IsTracked id c handover p s v
handle-IsTracked (PublisherEvent.confirm n error) p s v = elim (Option-cases (p.publications n)) [
  | inl e ↦ rw e v
  | inr (x, e) ↦ rw e (settle-IsTracked n (confirm_outcome error x.returned_error) p v)
]
handle-IsTracked (PublisherEvent.timeout n) p s v = elim (Option-cases (p.publications n)) [
  | inl e ↦ rw e v
  | inr (x, e) ↦ rw e (elim (Bool-cases x.timer) [
    | inl on ↦ rw on (
        settle-IsTracked n (failed "confirm timeout") (invalidate x.channel p)
          (invalidate-IsTracked x.channel p v))
    | inr off ↦ rw off v
  ])
]
handle-IsTracked (PublisherEvent.returned none message) p s v = v
handle-IsTracked (PublisherEvent.returned (some id) message) p s v =
    elim (Option-cases (p.pending_publishes id)) [
      | inl e ↦ rw e v
      | inr (n, e) ↦ rw e (note-IsTracked n message p (p.publications n) refl v)
    ]

pub handle_all-IsTracked :
    (es : List PublisherEvent) (p : Publisher)
    → IsSound p
    → IsTracked p
    → IsTracked (handle_all es p)
unfolding handle_all
handle_all-IsTracked [] p s v = v
handle_all-IsTracked (e ∷ es) p s v =
    handle_all-IsTracked es (handle e p) (handle-IsSound e p s) (handle-IsTracked e p s v)
