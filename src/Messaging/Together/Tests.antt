-- ===== src/Messaging/Together/Tests.antt =====
-- A confirm that times out, and the next publication.
use payment_orchestration_pl.Prelude.{◌≡◌, refl, false, [], ◌∷◌}
use payment_orchestration_pl.Messaging.Publisher.{
  new_publisher, accepted, PublisherEvent, handle, publish, on_timeout, settle,
}
use payment_orchestration_pl.Messaging.Connections.{
  Channel, Stage, new_manager, Reply, has, get_confirm_channel, connect_confirm_channel, resume,
  accept, detach_channel_listeners,
}
use payment_orchestration_pl.Messaging.Connections.Closing.{invalidate_channel}
use payment_orchestration_pl.Messaging.Connections.Runs.{System, gets, replies}
use payment_orchestration_pl.Messaging.Connections.Release.{HandsOut, settled}
use payment_orchestration_pl.Messaging.Together.{
  Messenger, new_messenger, make_calls, take_event, manages, hands_out, takes, Reach, start, next,
}
use payment_orchestration_pl.Messaging.Together.Replacement.{HandsOut-invalidated}

abbrev first_channel : Channel
first_channel = record { id = 2; connection = 1 }

abbrev second_channel : Channel
second_channel = record { id = 3; connection = 1 }

abbrev asked : Messenger → Messenger
asked s = record s {
  system = record s.system { manager = (get_confirm_channel s.system.manager).1 };
}

abbrev replied : Stage → Reply → Messenger → Messenger
replied stage reply s = record s {
  system = record s.system { manager = (resume stage reply s.system.manager).1 };
}

abbrev prepared : Messenger
prepared =
    replied (Stage.creating 1) (Reply.channel_created 2)
      (replied Stage.dialing (Reply.connected 1) (asked new_messenger))

abbrev given : Messenger
given = record (replied (Stage.asserting first_channel) Reply.exchange_asserted prepared) {
  given = 2 ∷ [];
}

abbrev timed_out : Messenger
timed_out =
    take_event (PublisherEvent.timeout 0)
      (take_event (PublisherEvent.published "e1" 2 accepted) given)

abbrev prepared_again : Messenger
prepared_again = replied (Stage.creating 1) (Reply.channel_created 3) (asked timed_out)

prepared-Reach : Reach prepared
unfolding get_confirm_channel connect_confirm_channel resume accept new_manager
prepared-Reach =
    next
      (next (next start (manages gets))
        (manages (replies Stage.dialing (Reply.connected 1) refl refl)))
      (manages (replies (Stage.creating 1) (Reply.channel_created 2) refl refl))

given-Reach : Reach given
unfolding get_confirm_channel connect_confirm_channel resume accept new_manager
given-Reach = next prepared-Reach (
    hands_out first_channel
      (replies (Stage.asserting first_channel) Reply.exchange_asserted refl tt)
      (settled (Stage.asserting first_channel) Reply.exchange_asserted refl refl))

timed_out-Reach : Reach timed_out
timed_out-Reach =
    next (next given-Reach (takes (PublisherEvent.published "e1" 2 accepted) refl))
      (takes (PublisherEvent.timeout 0) tt)

prepared_again-Reach : Reach prepared_again
unfolding get_confirm_channel connect_confirm_channel resume accept new_manager take_event
    make_calls handle publish on_timeout settle new_publisher invalidate_channel
    detach_channel_listeners
prepared_again-Reach =
    next (next timed_out-Reach (manages gets))
      (manages (replies (Stage.creating 1) (Reply.channel_created 3) refl refl))

-- The channel whose confirm timed out has been invalidated and closed.
is_invalidated : timed_out.invalidated ≡ 2 ∷ []
unfolding take_event make_calls handle publish on_timeout settle new_publisher
is_invalidated = refl

is_closed : timed_out.system.manager.closed_channels ≡ 2 ∷ []
unfolding get_confirm_channel connect_confirm_channel resume accept new_manager take_event
    make_calls handle publish on_timeout settle new_publisher invalidate_channel
    detach_channel_listeners
is_closed = refl

abbrev completed : System
completed = (replied (Stage.asserting second_channel) Reply.exchange_asserted prepared_again).system

hands_out_again : HandsOut prepared_again.system second_channel completed.manager
unfolding get_confirm_channel connect_confirm_channel resume accept new_manager take_event
    make_calls handle publish on_timeout settle new_publisher invalidate_channel
    detach_channel_listeners
hands_out_again = settled (Stage.asserting second_channel) Reply.exchange_asserted refl refl

HandsOut-invalidated_example : has 3 prepared_again.invalidated ≡ false
HandsOut-invalidated_example = HandsOut-invalidated prepared_again-Reach hands_out_again
