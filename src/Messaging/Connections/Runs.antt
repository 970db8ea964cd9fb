-- ===== src/Messaging/Connections/Runs.antt =====
-- The steps of services/payment-service/src/messaging/rabbitmq-connection-manager.ts, in any order that the
-- AMQP client and the callers choose.
use payment_orchestration_pl.Prelude.{ℕ, ◌≡◌, false, none, some, List, ◌∷◌}
use payment_orchestration_pl.Messaging.Connections.{
  Channel, Stage, CloseStage, waiting, Manager, new_manager, has, get_confirm_channel, Reply,
  connected, channel_created, resume, on_returned_message, unsubscribe,
}
use payment_orchestration_pl.Messaging.Connections.Closing.{
  invalidate_channel, invalidate_transport, invalidate_connection, close, resume_close,
}

-- The AMQP client makes new objects.
abbrev pub IsNew : Reply → Manager → Type 0
IsNew (connected c) m = has c m.opened ≡ false
IsNew (channel_created id) m = has id m.created ≡ false
IsNew _ m = Unit

-- `closeResources` goes on when the attempt that it waits for is over.
abbrev pub IsReady : CloseStage → Manager → Type 0
IsReady waiting m = m.connecting ≡ none
IsReady _ m = Unit

-- The listeners of a channel know the connection that it was created on.
abbrev pub IsListener : Channel → Manager → Type 0
IsListener k m = (other : Channel) → m.channel ≡ some other → other.id ≡ k.id → other ≡ k

-- `lost` collects the connections that have ended by themselves.
pub record System : Type 0 where
  pub manager : Manager
  pub lost : List ℕ

pub data Step (s : System) : System → Type 0 where
  gets : Step s (record s { manager = (get_confirm_channel s.manager).1 })
  replies :
      (stage : Stage) (reply : Reply)
      → s.manager.connecting ≡ some stage
      → IsNew reply s.manager
      → Step s (record s { manager = (resume stage reply s.manager).1 })
  subscribes : (handler : ℕ) → Step s (record s { manager = on_returned_message handler s.manager })
  unsubscribes : (handler : ℕ) → Step s (record s { manager = unsubscribe handler s.manager })
  invalidates :
      (channel : Channel) → Step s (record s { manager = invalidate_channel channel s.manager })
  channel_ends :
      (channel : Channel)
      → IsListener channel s.manager
      → Step s (record s { manager = invalidate_transport channel s.manager })
  connection_ends :
      (connection : ℕ)
      → Step s (record {
        manager = invalidate_connection connection s.manager;
        lost = connection ∷ s.lost;
      })
  closes : Step s (record s { manager = close s.manager })
  close_goes_on :
      (closing : CloseStage)
      → s.manager.close_promise ≡ some closing
      → IsReady closing s.manager
      → Step s (record s { manager = resume_close closing s.manager })

pub data Reach : System → Type 0 where
  start : Reach (record { manager = new_manager; lost = List.[] })
  next : {s t : System} → Reach s → Step s t → Reach t
