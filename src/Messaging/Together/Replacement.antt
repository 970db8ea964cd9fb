-- ===== src/Messaging/Together/Replacement.antt =====
-- That an invalidated channel is replaced: services/payment-service/src/messaging.
use payment_orchestration_pl.Prelude.{
  ℕ, ◌≡◌, Bool, true, false, Option, none, some, List, [], ◌∷◌, arith, nat_eq, inl, inr, Bool-cases,
}
use payment_orchestration_pl.Messaging.Publisher.{Publisher, new_publisher, PublisherEvent, handle}
use payment_orchestration_pl.Messaging.Connections.{
  Channel, Stage, Reply, asserting, Manager, new_manager, is_channel, has, get_confirm_channel,
  gives, connect_confirm_channel, resume, abandon, accept, on_returned_message, unsubscribe,
  detach_channel_listeners,
}
use payment_orchestration_pl.Messaging.Connections.Closing.{
  invalidate_channel, invalidate_transport, invalidate_connection, close, resume_close,
  take_resources, close_connection,
}
use payment_orchestration_pl.Messaging.Connections.Runs.{
  System, gets, replies, subscribes, unsubscribes, invalidates, channel_ends, connection_ends,
  closes, close_goes_on,
}
use payment_orchestration_pl.Messaging.Connections.Runs
use payment_orchestration_pl.Messaging.Connections.Invariant.{IsManaged, Reach-IsManaged}
use payment_orchestration_pl.Messaging.Connections.Release.{
  HandsOut, at_once, settled, IsHandedOut, HandsOut-IsHandedOut,
}
use payment_orchestration_pl.Messaging.Together.Supply.{IsSupplied, handle-IsSupplied}
use payment_orchestration_pl.Messaging.Together.{
  Messenger, invalidate_found, invalidate_numbered, make_calls, take_event, IsAllowed, Step,
  manages, hands_out, takes, Reach, start, next,
}

abbrev pub asserts : ℕ → Option Stage → Bool
asserts c (some (asserting k)) = nat_eq k.id c
asserts c _ = false

-- A channel that was given is not one that an attempt prepares, and one that was invalidated is not
-- current.
abbrev pub IsReplaced : ℕ → (given invalidated : List ℕ) → Manager → Type 0
IsReplaced c g i m =
    (has c g ≡ true → (has c m.created ≡ true) × (asserts c m.connecting ≡ false))
    × (has c i ≡ true → (has c g ≡ true) × (is_channel c m.channel ≡ false))

Step-IsReplaced :
    (c : ℕ) (g i : List ℕ) {s t : System}
    → Runs.Step s t
    → IsManaged s.manager
    → IsReplaced c g i s.manager
    → IsReplaced c g i t.manager
unfolding get_confirm_channel connect_confirm_channel resume abandon accept on_returned_message
    unsubscribe invalidate_channel detach_channel_listeners invalidate_transport
    invalidate_connection close resume_close take_resources close_connection
Step-IsReplaced c g i {s} gets v w = ground arith
Step-IsReplaced c g i {s} (replies stage reply e n) v w = ground arith
Step-IsReplaced c g i {s} (subscribes x) v w = ground arith
Step-IsReplaced c g i {s} (unsubscribes x) v w = ground arith
Step-IsReplaced c g i {s} (invalidates k) v w = ground arith
Step-IsReplaced c g i {s} (channel_ends k l) v w = ground arith
Step-IsReplaced c g i {s} (connection_ends d) v w = ground arith
Step-IsReplaced c g i {s} closes v w = ground arith
Step-IsReplaced c g i {s} (close_goes_on d e r) v w = ground arith

-- What every run of both keeps.
pub record IsTogether (s : Messenger) : Type 0 where
  pub run : Runs.Reach s.system
  pub supplied : IsSupplied s.given s.publisher
  pub replaced : (c : ℕ) → IsReplaced c s.given s.invalidated s.system.manager

manages-IsTogether :
    {s : Messenger} {t : System}
    → Runs.Step s.system t
    → IsTogether s
    → IsTogether (record s { system = t })
manages-IsTogether {s} st v = record {
  run = Runs.next v.run st;
  supplied = v.supplied;
  replaced = λ c. Step-IsReplaced c s.given s.invalidated st (Reach-IsManaged v.run) (v.replaced c);
}

supply-IsSupplied : (c : ℕ) (g : List ℕ) (p : Publisher) → IsSupplied g p → IsSupplied (c ∷ g) p
supply-IsSupplied c g p v = record {
  channels = λ n x e. ground (arith, v.channels n x e);
  calls = λ d e. ground (arith, v.calls d e);
}

hands_out-IsTogether :
    (s : Messenger) {t : System} (k : Channel)
    → IsHandedOut k t.manager
    → IsManaged t.manager
    → IsTogether (record s { system = t })
    → IsTogether (record s { system = t; given = k.id ∷ s.given })
hands_out-IsTogether s {t} k h m v = record {
  run = v.run;
  supplied = supply-IsSupplied k.id s.given s.publisher v.supplied;
  replaced = λ c. let w = v.replaced c in ground (arith, h.current, h.usable, m.attempt);
}

invalidate_found-run :
    (c : ℕ) (o : Option Channel) (s : System)
    → Runs.Reach s
    → Runs.Reach (record s { manager = invalidate_found c o s.manager })
invalidate_found-run c none s r = r
invalidate_found-run c (some k) s r = elim (Bool-cases (nat_eq k.id c)) [
  | inl h ↦ rw h (Runs.next r (invalidates k))
  | inr h ↦ rw h r
]

invalidate_numbered-IsReplaced :
    (c d : ℕ) (g i : List ℕ) (m : Manager)
    → has c g ≡ true
    → IsReplaced d g i m
    → IsReplaced d g (c ∷ i) (invalidate_numbered c m)
unfolding invalidate_channel detach_channel_listeners
invalidate_numbered-IsReplaced c d g i m h w = ground arith

call-IsTogether :
    (s : Messenger) (c : ℕ)
    → has c s.given ≡ true
    → IsTogether s
    → IsTogether (record s {
      system = record s.system { manager = invalidate_numbered c s.system.manager };
      invalidated = c ∷ s.invalidated;
    })
call-IsTogether s c h v = record {
  run = invalidate_found-run c s.system.manager.channel s.system v.run;
  supplied = v.supplied;
  replaced = λ d.
      invalidate_numbered-IsReplaced c d s.given s.invalidated s.system.manager h (v.replaced d);
}

make_calls-IsTogether :
    (cs : List ℕ) (s : Messenger)
    → ((c : ℕ) → has c cs ≡ true → has c s.given ≡ true)
    → IsTogether s
    → IsTogether (make_calls cs s)
unfolding make_calls
make_calls-IsTogether [] s h v = v
make_calls-IsTogether (c ∷ cs) s h v =
    make_calls-IsTogether cs
      (record s {
        system = record s.system { manager = invalidate_numbered c s.system.manager };
        invalidated = c ∷ s.invalidated;
      })
      (λ d e. h d (ground arith)) (call-IsTogether s c (h c (ground arith)) v)

take_event-IsTogether :
    (e : PublisherEvent) (s : Messenger)
    → IsAllowed e s.given
    → IsTogether s
    → IsTogether (take_event e s)
unfolding take_event
take_event-IsTogether e s a v =
    let p : IsSupplied s.given (handle e s.publisher) =
      handle-IsSupplied s.given e s.publisher a v.supplied in
    make_calls-IsTogether (handle e s.publisher).invalidated
      (record s { publisher = record (handle e s.publisher) { invalidated = [] } }) p.calls
      (record {
        run = v.run;
        supplied = record { channels = p.channels; calls = λ c x. ground arith };
        replaced = v.replaced;
      })

Step-IsTogether : {s t : Messenger} → Step s t → IsTogether s → IsTogether t
Step-IsTogether (manages st) v = manages-IsTogether st v
Step-IsTogether {s} (hands_out k st h) v =
    hands_out-IsTogether s k (HandsOut-IsHandedOut v.run h) (Reach-IsManaged (Runs.next v.run st))
      (manages-IsTogether st v)
Step-IsTogether {s} (takes e a) v = take_event-IsTogether e s a v

Reach-IsTogether : {s : Messenger} → Reach s → IsTogether s
unfolding new_publisher new_manager
Reach-IsTogether start = record {
  run = Runs.start;
  supplied = record { channels = λ n x e. ground arith; calls = λ c e. ground arith };
  replaced = λ c. ground arith;
}
Reach-IsTogether (next r st) = Step-IsTogether st (Reach-IsTogether r)

replaced-at_once :
    (s : System) (k : Channel) (g i : List ℕ)
    → (get_confirm_channel s.manager).0 ≡ gives k
    → IsReplaced k.id g i s.manager
    → has k.id i ≡ false
unfolding get_confirm_channel
replaced-at_once s k g i e w = ground arith

replaced-settled :
    (s : System) (k : Channel) (stage : Stage) (reply : Reply) (g i : List ℕ)
    → s.manager.connecting ≡ some stage
    → (resume stage reply s.manager).0 ≡ gives k
    → IsReplaced k.id g i s.manager
    → has k.id i ≡ false
unfolding resume
replaced-settled s k stage reply g i c e w = ground arith

-- In every run of the publisher together with the connection manager, a channel that is handed out
-- is none for which the publisher has called `invalidateChannel`, which it does when a confirm
-- times out or `channel.publish` throws.
pub HandsOut-invalidated :
    {s : Messenger} {k : Channel} {m : Manager}
    → Reach s
    → HandsOut s.system k m
    → has k.id s.invalidated ≡ false
HandsOut-invalidated {s} {k} r (at_once e) =
    replaced-at_once s.system k s.given s.invalidated e ((Reach-IsTogether r).replaced k.id)
HandsOut-invalidated {s} {k} r (settled stage reply c e) =
    replaced-settled s.system k stage reply s.given s.invalidated c e
      ((Reach-IsTogether r).replaced k.id)
