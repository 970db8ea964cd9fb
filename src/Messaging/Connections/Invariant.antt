-- ===== src/Messaging/Connections/Invariant.antt =====
-- What every run of services/payment-service/src/messaging/rabbitmq-connection-manager.ts keeps.
use payment_orchestration_pl.Prelude.{
  ℕ, ◌≡◌, true, false, Option, none, some, [], ◌∷◌, arith, Option-cases, inl, inr,
}
use payment_orchestration_pl.Messaging.Connections.{
  Channel, Stage, dialing, refusing, creating, asserting, abandoning, CloseStage, waiting,
  closing_channel, Manager, new_manager, has, get_confirm_channel, Reply, connected,
  channel_created, resume, abandon, accept, connect_confirm_channel, on_returned_message,
  unsubscribe, detach_channel_listeners,
}
use payment_orchestration_pl.Messaging.Connections.Closing.{
  invalidate_channel, invalidate_transport, invalidate_connection, close, resume_close,
  take_resources, close_connection,
}
use payment_orchestration_pl.Messaging.Connections.Runs.{
  IsNew, IsReady, IsListener, System, Step, gets, replies, subscribes, unsubscribes, invalidates,
  channel_ends, connection_ends, closes, close_goes_on, Reach, start, next,
}

-- A connection that the manager was given and has not closed, and a channel on one that it has not
-- closed either.
abbrev pub IsOpen : ℕ → Manager → Type 0
IsOpen c m = (has c m.opened ≡ true) × (has c m.released ≡ false)

abbrev pub IsUsable : Channel → Manager → Type 0
IsUsable k m =
    IsOpen k.connection m × (has k.id m.created ≡ true) × (has k.id m.closed_channels ≡ false)

abbrev pub WorksOn : Stage → Manager → Type 0
WorksOn dialing m = m.connection ≡ none
WorksOn (refusing c) m = has c m.released ≡ true
WorksOn (creating c) m = IsOpen c m
WorksOn (asserting k) m = IsUsable k m
WorksOn (abandoning c) m = has c m.released ≡ true

abbrev pub AttemptOk : Option Stage → Manager → Type 0
AttemptOk none m = Unit
AttemptOk (some s) m = (m.channel ≡ none) × WorksOn s m

abbrev pub ConnectionOk : Option ℕ → Manager → Type 0
ConnectionOk none m = Unit
ConnectionOk (some c) m = IsOpen c m

abbrev pub ChannelOk : Option Channel → Manager → Type 0
ChannelOk none m = m.listening ≡ []
ChannelOk (some k) m = IsUsable k m × (m.listening ≡ k.id ∷ [])

-- `closeResources` has taken the channel and the connection, and nothing makes new ones.
abbrev pub IsTaken : Manager → Type 0
IsTaken m = (m.closed ≡ true) × (m.connecting ≡ none) × (m.channel ≡ none) × (m.connection ≡ none)

abbrev pub ClosingOk : Option CloseStage → Manager → Type 0
ClosingOk none m = m.closed ≡ false
ClosingOk (some waiting) m = m.closed ≡ true
ClosingOk (some (closing_channel (some c))) m = IsTaken m × (has c m.opened ≡ true)
ClosingOk (some _) m = IsTaken m

-- The attempt under way works on a connection that is open, while there is no channel; the current
-- connection and channel are open, and just the current channel listens for returned messages.
pub record IsManaged (m : Manager) : Type 0 where
  pub attempt : AttemptOk m.connecting m
  pub connection : ConnectionOk m.connection m
  pub channel : ChannelOk m.channel m
  pub closing : ClosingOk m.close_promise m
  pub released : (c : ℕ) → has c m.opened ≡ false → has c m.released ≡ false
  pub closed_channels : (id : ℕ) → has id m.created ≡ false → has id m.closed_channels ≡ false

get-IsManaged : (m : Manager) → IsManaged m → IsManaged (get_confirm_channel m).1
unfolding get_confirm_channel connect_confirm_channel
get-IsManaged m v = ground arith

resume-IsManaged :
    (s : Stage) (r : Reply) (m : Manager)
    → m.connecting ≡ some s
    → IsNew r m
    → IsManaged m
    → IsManaged (resume s r m).1
unfolding resume abandon accept
resume-IsManaged dialing (connected c) m e n v = ground (arith, v.released c)
resume-IsManaged (creating c) (channel_created id) m e n v = ground (arith, v.closed_channels id)
resume-IsManaged s r m e n v = ground arith

invalidate_channel-IsManaged :
    (k : Channel) (m : Manager) → IsManaged m → IsManaged (invalidate_channel k m)
unfolding invalidate_channel detach_channel_listeners
invalidate_channel-IsManaged k m v = ground arith

invalidate_transport-IsManaged :
    (k : Channel) (m : Manager)
    → IsListener k m
    → IsManaged m
    → IsManaged (invalidate_transport k m)
unfolding invalidate_transport detach_channel_listeners
invalidate_transport-IsManaged k m l v = elim (Option-cases m.channel) [
  | inl e ↦ ground arith
  | inr (other, e) ↦ ground (arith, l other e)
]

invalidate_connection-IsManaged :
    (c : ℕ) (m : Manager) → IsManaged m → IsManaged (invalidate_connection c m)
unfolding invalidate_connection detach_channel_listeners
invalidate_connection-IsManaged c m v = ground arith

pub close-IsManaged : (m : Manager) → IsManaged m → IsManaged (close m)
unfolding close take_resources close_connection detach_channel_listeners
close-IsManaged m v = ground arith

resume_close-IsManaged :
    (c : CloseStage) (m : Manager)
    → m.close_promise ≡ some c
    → IsReady c m
    → IsManaged m
    → IsManaged (resume_close c m)
unfolding resume_close take_resources close_connection detach_channel_listeners
resume_close-IsManaged c m e r v = ground arith

subscribe-IsManaged : (h : ℕ) (m : Manager) → IsManaged m → IsManaged (on_returned_message h m)
unfolding on_returned_message
subscribe-IsManaged h m v = ground arith

unsubscribe-IsManaged : (h : ℕ) (m : Manager) → IsManaged m → IsManaged (unsubscribe h m)
unfolding unsubscribe
unsubscribe-IsManaged h m v = ground arith

pub Step-IsManaged : {s t : System} → Step s t → IsManaged s.manager → IsManaged t.manager
Step-IsManaged {s} gets v = get-IsManaged s.manager v
Step-IsManaged {s} (replies stage reply e n) v = resume-IsManaged stage reply s.manager e n v
Step-IsManaged {s} (subscribes h) v = subscribe-IsManaged h s.manager v
Step-IsManaged {s} (unsubscribes h) v = unsubscribe-IsManaged h s.manager v
Step-IsManaged {s} (invalidates k) v = invalidate_channel-IsManaged k s.manager v
Step-IsManaged {s} (channel_ends k l) v = invalidate_transport-IsManaged k s.manager l v
Step-IsManaged {s} (connection_ends c) v = invalidate_connection-IsManaged c s.manager v
Step-IsManaged {s} closes v = close-IsManaged s.manager v
Step-IsManaged {s} (close_goes_on c e r) v = resume_close-IsManaged c s.manager e r v

new_manager-IsManaged : IsManaged new_manager
unfolding new_manager
new_manager-IsManaged = ground arith

-- In every run of the connection manager.
pub Reach-IsManaged : {s : System} → Reach s → IsManaged s.manager
Reach-IsManaged start = new_manager-IsManaged
Reach-IsManaged (next r st) = Step-IsManaged st (Reach-IsManaged r)
