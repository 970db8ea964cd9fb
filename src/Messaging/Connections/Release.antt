-- ===== src/Messaging/Connections/Release.antt =====
-- What becomes of the connections of services/payment-service/src/messaging/rabbitmq-connection-manager.ts.
use payment_orchestration_pl.Prelude.{
  ℕ, ◌≡◌, Bool, true, false, ◌||◌, Option, some, List, [], ◌∷◌, arith, if◌then◌else◌,
}
use payment_orchestration_pl.Messaging.Connections.{
  Channel, Stage, CloseStage, closing_channel, done, Manager, new_manager, is_handle, is_channel,
  has, forward_returned_message, get_confirm_channel, Reply, gives, resume, abandon, accept,
  connect_confirm_channel, on_returned_message, unsubscribe, detach_channel_listeners,
}
use payment_orchestration_pl.Messaging.Connections.Closing.{
  invalidate_channel, invalidate_transport, invalidate_connection, close, resume_close,
  take_resources, close_connection,
}
use payment_orchestration_pl.Messaging.Connections.Runs.{
  System, Step, gets, replies, subscribes, unsubscribes, invalidates, channel_ends, connection_ends,
  closes, close_goes_on, Reach, start, next,
}
use payment_orchestration_pl.Messaging.Connections.Invariant.{
  IsManaged, IsUsable, IsTaken, Reach-IsManaged,
}

abbrev pub closes_next : ℕ → Option CloseStage → Bool
closes_next c (some (closing_channel d)) = is_handle c d
closes_next c _ = false

-- The connection is the current one, or is closed next, or the manager has closed it, or the connection has ended.
abbrev pub accounts_for : ℕ → List ℕ → Manager → Bool
accounts_for c lost m =
    is_handle c m.connection || closes_next c m.close_promise || has c m.released || has c lost

abbrev Accounts : System → Type 0
Accounts s = (c : ℕ) → has c s.manager.opened ≡ true → accounts_for c s.lost s.manager ≡ true

Step-Accounts : {s t : System} → Step s t → IsManaged s.manager → Accounts s → Accounts t
unfolding get_confirm_channel connect_confirm_channel resume abandon accept on_returned_message
    unsubscribe invalidate_channel detach_channel_listeners invalidate_transport
    invalidate_connection close resume_close take_resources close_connection
Step-Accounts {s} gets v h c o = ground (arith, h c)
Step-Accounts {s} (replies stage reply e n) v h c o = ground (arith, h c)
Step-Accounts {s} (subscribes x) v h c o = ground (arith, h c)
Step-Accounts {s} (unsubscribes x) v h c o = ground (arith, h c)
Step-Accounts {s} (invalidates k) v h c o = ground (arith, h c)
Step-Accounts {s} (channel_ends k l) v h c o = ground (arith, h c)
Step-Accounts {s} (connection_ends d) v h c o = ground (arith, h c)
Step-Accounts {s} closes v h c o = ground (arith, h c)
Step-Accounts {s} (close_goes_on d e r) v h c o = ground (arith, h c)

Reach-Accounts : {s : System} → Reach s → Accounts s
unfolding new_manager
Reach-Accounts start = λ c o. cc
Reach-Accounts (next r st) = Step-Accounts st (Reach-IsManaged r) (Reach-Accounts r)

-- A closed manager holds nothing, and every connection is closed or has ended.
pub record IsReleased (s : System) : Type 0 where
  pub taken : IsTaken s.manager
  pub quiet : s.manager.listening ≡ []
  pub connections :
      (c : ℕ) → has c s.manager.opened ≡ true → (has c s.manager.released || has c s.lost) ≡ true

-- In every run of the connection manager, when `close` has ended, it holds no channel and no
-- connection, awaits none, listens to no channel, and every connection that it was ever given has
-- been closed by it or has ended by itself.
pub Reach-IsReleased : {s : System} → Reach s → s.manager.close_promise ≡ some done → IsReleased s
Reach-IsReleased {s} r e =
    let v : IsManaged s.manager = Reach-IsManaged r in
    record {
      taken = ground arith;
      quiet = ground arith;
      connections = λ c o. ground (arith, Reach-Accounts r c o);
    }

-- A channel that is handed out.
pub record IsHandedOut (k : Channel) (m : Manager) : Type 0 where
  pub current : m.channel ≡ some k
  pub usable : IsUsable k m
  pub listens : m.listening ≡ k.id ∷ []

get_confirm_channel-IsHandedOut :
    {s : System}
    → Reach s
    → (k : Channel) → (get_confirm_channel s.manager).0 ≡ gives k
    → IsHandedOut k (get_confirm_channel s.manager).1
unfolding get_confirm_channel
get_confirm_channel-IsHandedOut {s} r k e =
    let v : IsManaged s.manager = Reach-IsManaged r in ground arith

resume-IsHandedOut :
    {s : System}
    → Reach s
    → (stage : Stage) (reply : Reply) (k : Channel) → s.manager.connecting ≡ some stage
    → (resume stage reply s.manager).0 ≡ gives k
    → IsHandedOut k (resume stage reply s.manager).1
unfolding resume
resume-IsHandedOut {s} r stage reply k c e =
    let v : IsManaged s.manager = Reach-IsManaged r in ground arith

-- A channel is handed out by `getConfirmChannel` at once, or when an attempt settles.
pub data HandsOut (s : System) (k : Channel) : Manager → Type 0 where
  at_once :
      (get_confirm_channel s.manager).0 ≡ gives k → HandsOut s k (get_confirm_channel s.manager).1
  settled :
      (stage : Stage) (reply : Reply)
      → s.manager.connecting ≡ some stage
      → (resume stage reply s.manager).0 ≡ gives k
      → HandsOut s k (resume stage reply s.manager).1

-- In every run of the connection manager, a channel that is handed out, at once or when an attempt
-- settles, is the current one and the only one that listens for returned messages, and the manager
-- has closed neither it nor its connection.
pub HandsOut-IsHandedOut :
    {s : System} {k : Channel} {m : Manager} → Reach s → HandsOut s k m → IsHandedOut k m
HandsOut-IsHandedOut {s} {k} r (at_once e) = get_confirm_channel-IsHandedOut r k e
HandsOut-IsHandedOut {s} {k} r (settled stage reply c e) = resume-IsHandedOut r stage reply k c e

-- A returned message reaches the subscribed handlers if it was published on the current channel.
pub Reach-forwards :
    {s : System}
    → Reach s
    → (channel : ℕ)
    → forward_returned_message channel s.manager
      ≡ (if is_channel channel s.manager.channel then s.manager.returned_message_handlers else [])
unfolding forward_returned_message
Reach-forwards {s} r channel = let v : IsManaged s.manager = Reach-IsManaged r in ground arith
