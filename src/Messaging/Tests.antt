-- ===== src/Messaging/Tests.antt =====
-- The publisher and the connection manager on concrete runs.
use payment_orchestration_pl.Prelude.{ℕ, ◌≡◌, refl, Bool, false, arith, none, some, List, [], ◌∷◌}
use payment_orchestration_pl.Worker.{confirmed, failed}
use payment_orchestration_pl.Messaging.Publisher.{
  accepted, PublisherEvent, new_publisher, handle, handle_all, publish, on_confirm, settle,
  handle_returned_message,
}
use payment_orchestration_pl.Messaging.Publisher.Returns.{IsHonest, handle_all-IsHonest}
use payment_orchestration_pl.Messaging.Publisher.Once.{HasSettled}
use payment_orchestration_pl.Messaging.Connections.{
  Channel, Stage, CloseStage, new_manager, Reply, gives, get_confirm_channel,
  connect_confirm_channel, resume, accept, detach_channel_listeners, forward_returned_message,
}
use payment_orchestration_pl.Messaging.Connections.Closing.{
  close, take_resources, close_connection, resume_close,
}
use payment_orchestration_pl.Messaging.Connections.Runs.{
  System, gets, replies, closes, close_goes_on, Reach, start, next,
}
use payment_orchestration_pl.Messaging.Connections.Release.{
  IsReleased, Reach-IsReleased, IsHandedOut, HandsOut, at_once, settled, HandsOut-IsHandedOut,
  Reach-forwards,
}
use payment_orchestration_pl.Messaging.Connections.Ending.{settle_all, close-ends}

abbrev one_publish : List PublisherEvent
one_publish = PublisherEvent.published "e1" 7 accepted ∷ []

abbrev one_confirm : List PublisherEvent
one_confirm = PublisherEvent.published "e1" 7 accepted ∷ PublisherEvent.confirm 0 none ∷ []

handle_all-IsHonest_example : IsHonest (handle_all one_publish new_publisher)
handle_all-IsHonest_example = handle_all-IsHonest one_publish

abbrev returned_publish : List PublisherEvent
returned_publish =
    PublisherEvent.published "e1" 7 accepted
    ∷ PublisherEvent.returned (some "e1") "NO_ROUTE"
    ∷ PublisherEvent.confirm 0 none
    ∷ []

rejects : HasSettled 0 (failed "NO_ROUTE") (handle_all returned_publish new_publisher)
unfolding handle_all handle publish on_confirm settle handle_returned_message new_publisher
rejects = record {
  publication = record {
    event_id = "e1";
    channel = 7;
    returned_error = some "NO_ROUTE";
    settled = some (failed "NO_ROUTE");
    timer = false;
  };
  found = refl;
  outcome = refl;
}

confirms : HasSettled 0 confirmed (handle_all one_confirm new_publisher)
unfolding handle_all handle publish on_confirm settle new_publisher
confirms = record {
  publication = record {
    event_id = "e1";
    channel = 7;
    returned_error = none;
    settled = some confirmed;
    timer = false;
  };
  found = refl;
  outcome = refl;
}

waits : (handle_all one_publish new_publisher).pending_publishes "e1" ≡ some 0
unfolding handle_all handle publish new_publisher
waits = refl

abbrev first_channel : Channel
first_channel = record { id = 2; connection = 1 }

-- The states of a run that connects and is closed.
abbrev fresh : System
fresh = record { manager = new_manager; lost = [] }

abbrev asked : System
asked = record fresh { manager = (get_confirm_channel fresh.manager).1 }

abbrev replied : Stage → Reply → System → System
replied stage reply s = record s { manager = (resume stage reply s.manager).1 }

abbrev opened : System
opened = replied Stage.dialing (Reply.connected 1) asked

abbrev prepared : System
prepared = replied (Stage.creating 1) (Reply.channel_created 2) opened

abbrev ready : System
ready = replied (Stage.asserting first_channel) Reply.exchange_asserted prepared

abbrev closing : System
closing = record ready { manager = close ready.manager }

abbrev closed : System
closed = record closing {
  manager =
      resume_close CloseStage.closing_connection
        (resume_close (CloseStage.closing_channel (some 1)) closing.manager);
}

prepared-Reach : Reach prepared
unfolding get_confirm_channel connect_confirm_channel resume accept new_manager
prepared-Reach =
    next (next (next start gets) (replies Stage.dialing (Reply.connected 1) refl refl))
      (replies (Stage.creating 1) (Reply.channel_created 2) refl refl)

ready-Reach : Reach ready
unfolding get_confirm_channel connect_confirm_channel resume accept new_manager
ready-Reach =
    next prepared-Reach (replies (Stage.asserting first_channel) Reply.exchange_asserted refl tt)

closed-Reach : Reach closed
unfolding get_confirm_channel connect_confirm_channel resume accept new_manager close take_resources
    detach_channel_listeners resume_close close_connection
closed-Reach =
    next
      (next (next ready-Reach closes) (close_goes_on (CloseStage.closing_channel (some 1)) refl tt))
      (close_goes_on CloseStage.closing_connection refl tt)

is_closed : closed.manager.close_promise ≡ some CloseStage.done
unfolding get_confirm_channel connect_confirm_channel resume accept new_manager close take_resources
    detach_channel_listeners resume_close close_connection
is_closed = refl

asserts : prepared.manager.connecting ≡ some (Stage.asserting first_channel)
unfolding get_confirm_channel connect_confirm_channel resume accept new_manager
asserts = refl

is_given : (get_confirm_channel ready.manager).0 ≡ gives first_channel
unfolding get_confirm_channel connect_confirm_channel resume accept new_manager
is_given = refl

is_resumed :
    (resume (Stage.asserting first_channel) Reply.exchange_asserted prepared.manager).0
    ≡ gives first_channel
unfolding resume
is_resumed = refl

Reach-IsReleased_example : IsReleased closed
Reach-IsReleased_example = Reach-IsReleased closed-Reach is_closed

HandsOut-IsHandedOut_example : IsHandedOut first_channel ready.manager
HandsOut-IsHandedOut_example =
    HandsOut-IsHandedOut prepared-Reach
      (settled (Stage.asserting first_channel) Reply.exchange_asserted asserts is_resumed)

-- And again, once it is there.
is_handed_out : HandsOut ready first_channel (get_confirm_channel ready.manager).1
is_handed_out = at_once is_given

forwards_nothing : forward_returned_message 2 closed.manager ≡ []
unfolding get_confirm_channel connect_confirm_channel resume accept new_manager close take_resources
    detach_channel_listeners resume_close close_connection
forwards_nothing = Reach-forwards closed-Reach 2

-- While `connect` is awaited, and whatever then fails.
abbrev failures : List (Bool × ℕ)
failures = (false, 0) ∷ (false, 0) ∷ (false, 0) ∷ (false, 0) ∷ (false, 0) ∷ (false, 0) ∷ []

close-ends_example :
    (settle_all failures (close prepared.manager)).close_promise ≡ some CloseStage.done
close-ends_example = close-ends prepared-Reach failures (omega arith)
