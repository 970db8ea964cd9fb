-- ===== src/Messaging/Together/Supply.antt =====
-- That the publisher of services/payment-service/src/messaging/rabbitmq-publisher.ts uses the channels that it
-- was given.
use payment_orchestration_pl.Prelude.{
  ℕ, ◌≡◌, true, Option, none, some, List, arith, inl, inr, Option-cases, Bool-cases, String,
}
use payment_orchestration_pl.Messaging.Publisher.{
  Publication, Publisher, invalidate, settle, publish, on_confirm, on_timeout, accepted, threw,
  handle_returned_message, PublisherEvent, handle, confirm_outcome,
}
use payment_orchestration_pl.Messaging.Publisher.Settling.{opened}
use payment_orchestration_pl.Worker.{PublishOutcome, failed, not_attempted}
use payment_orchestration_pl.Messaging.Connections.{has}
use payment_orchestration_pl.Messaging.Together.{IsAllowed}

-- The publisher uses the channels that it was given.
pub record IsSupplied (given : List ℕ) (p : Publisher) : Type 0 where
  pub channels : (n : ℕ) (x : Publication) → p.publications n ≡ some x → has x.channel given ≡ true
  pub calls : (c : ℕ) → has c p.invalidated ≡ true → has c given ≡ true

settle-IsSupplied :
    (g : List ℕ) (n : ℕ) (o : PublishOutcome) (p : Publisher)
    → IsSupplied g p
    → IsSupplied g (settle n o p)
unfolding settle
settle-IsSupplied g n o p v = elim (Option-cases (p.publications n)) [
  | inl e ↦ rw e v
  | inr (x, e) ↦ rw e (elim (Option-cases x.settled) [
    | inr (o', k) ↦ rw k v
    | inl waits ↦ rw waits (record {
      channels = λ m y f. ground (arith, v.channels n x e, v.channels m y, f);
      calls = v.calls;
    })
  ])
]

invalidate-IsSupplied :
    (g : List ℕ) (c : ℕ) (p : Publisher)
    → has c g ≡ true
    → IsSupplied g p
    → IsSupplied g (invalidate c p)
invalidate-IsSupplied g c p h v = record {
  channels = v.channels;
  calls = λ d e. ground (arith, v.calls d, h, e);
}

opened-IsSupplied :
    (g : List ℕ) (id : String) (c : ℕ) (p : Publisher)
    → has c g ≡ true
    → IsSupplied g p
    → IsSupplied g (opened id c p)
opened-IsSupplied g id c p h v = record {
  channels = λ m y f. ground (arith, v.channels m y, h, f);
  calls = v.calls;
}

timeout-IsSupplied :
    (g : List ℕ) (n : ℕ) (p : Publisher) → IsSupplied g p → IsSupplied g (on_timeout n p)
unfolding on_timeout
timeout-IsSupplied g n p v = elim (Option-cases (p.publications n)) [
  | inl e ↦ rw e v
  | inr (x, e) ↦ rw e (elim (Bool-cases x.timer) [
    | inr k ↦ rw k v
    | inl k ↦ rw k (
        settle-IsSupplied g n (failed "confirm timeout") (invalidate x.channel p)
          (invalidate-IsSupplied g x.channel p (v.channels n x e) v))
  ])
]

return-IsSupplied :
    (g : List ℕ) (id : Option String) (message : String) (p : Publisher)
    → IsSupplied g p
    → IsSupplied g (handle_returned_message id message p)
unfolding handle_returned_message
return-IsSupplied g none message p v = v
return-IsSupplied g (some id) message p v = elim (Option-cases (p.pending_publishes id)) [
  | inl e ↦ rw e v
  | inr (n, e) ↦ rw e (elim (Option-cases (p.publications n)) [
    | inl e' ↦ rw e' v
    | inr (x, e') ↦ rw e' (record {
      channels = λ m y f. ground (arith, v.channels n x e', v.channels m y, f);
      calls = v.calls;
    })
  ])
]

confirm-IsSupplied :
    (g : List ℕ) (n : ℕ) (error : Option String) (p : Publisher)
    → IsSupplied g p
    → IsSupplied g (on_confirm n error p)
unfolding on_confirm
confirm-IsSupplied g n error p v = elim (Option-cases (p.publications n)) [
  | inl e ↦ rw e v
  | inr (x, e) ↦ rw e (settle-IsSupplied g n (confirm_outcome error x.returned_error) p v)
]

pub handle-IsSupplied :
    (g : List ℕ) (e : PublisherEvent) (p : Publisher)
    → IsAllowed e g
    → IsSupplied g p
    → IsSupplied g (handle e p)
unfolding handle publish
handle-IsSupplied g (PublisherEvent.published id c accepted) p h v = opened-IsSupplied g id c p h v
handle-IsSupplied g (PublisherEvent.published id c (threw message)) p h v =
    settle-IsSupplied g p.count (not_attempted message) (invalidate c (opened id c p))
      (invalidate-IsSupplied g c (opened id c p) h (opened-IsSupplied g id c p h v))
handle-IsSupplied g (PublisherEvent.confirm n error) p h v = confirm-IsSupplied g n error p v
handle-IsSupplied g (PublisherEvent.timeout n) p h v = timeout-IsSupplied g n p v
handle-IsSupplied g (PublisherEvent.returned id message) p h v = return-IsSupplied g id message p v
