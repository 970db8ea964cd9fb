-- ===== src/Messaging/Connections.antt =====
-- services/payment-service/src/messaging/rabbitmq-connection-manager.ts. Each asynchronous method is cut
-- at its awaits: a stage says what is awaited, and a reply of the AMQP client resumes it.
pub mod Closing
pub mod Runs
pub mod Invariant
pub mod Release
pub mod Ending
use payment_orchestration_pl.Prelude.{
  ℕ, String, Bool, true, false, ◌||◌, Option, none, some, List, [], ◌∷◌, ◌++◌, ◌==◌, nat_eq,
  is_some, if◌then◌else◌,
}
use payment_orchestration_pl.Errors.{other_error, Result, ok, err}

-- A confirm channel, and the connection that it was created on. Both objects are numbered.
pub record Channel : Type 0 where
  pub id : ℕ
  pub connection : ℕ

-- What `connectConfirmChannel` awaits.
pub data Stage : Type 0 where
  -- `amqpClient.connect`
  dialing : Stage
  -- the close of a connection that came after `close`
  refusing : (connection : ℕ) → Stage
  -- `createConfirmChannel`
  creating : (connection : ℕ) → Stage
  -- `assertExchange`
  asserting : Channel → Stage
  -- the close of the connection, in the `catch`
  abandoning : (connection : ℕ) → Stage

-- What `closeResources` awaits: `connecting`, or the close of the channel, with the connection that
-- is closed after it, or of the connection.
pub data CloseStage : Type 0 where
  waiting : CloseStage
  closing_channel : (connection : Option ℕ) → CloseStage
  closing_connection : CloseStage
  done : CloseStage

-- `connection_abort_controller` holds whether its signal is aborted. The last five fields are what
-- the AMQP client sees: the connections and channels that it gave, those whose `close` was called,
-- and the channels that listen for returned messages.
pub record Manager : Type 0 where
  pub returned_message_handlers : List ℕ
  pub connection : Option ℕ
  pub channel : Option Channel
  pub connecting : Option Stage
  pub connection_abort_controller : Option Bool
  pub close_promise : Option CloseStage
  pub closed : Bool
  pub opened : List ℕ
  pub created : List ℕ
  pub released : List ℕ
  pub closed_channels : List ℕ
  pub listening : List ℕ

unfoldable pub new_manager : Manager
new_manager = record {
  returned_message_handlers = [];
  connection = none;
  channel = none;
  connecting = none;
  connection_abort_controller = none;
  close_promise = none;
  closed = false;
  opened = [];
  created = [];
  released = [];
  closed_channels = [];
  listening = [];
}

-- `=== handle`
abbrev pub is_handle : ℕ → Option ℕ → Bool
is_handle handle none = false
is_handle handle (some other) = nat_eq other handle

abbrev pub is_channel : ℕ → Option Channel → Bool
is_channel id none = false
is_channel id (some k) = nat_eq k.id id

abbrev pub has : ℕ → List ℕ → Bool
has x [] = false
has x (y ∷ ys) = nat_eq y x || has x ys

abbrev pub remove : ℕ → List ℕ → List ℕ
remove x [] = []
remove x (y ∷ ys) = if nat_eq y x then ys else y ∷ remove x ys

-- The parts of the URL that are tested, where `new URL` does not throw.
pub record ParsedUrl : Type 0 where
  pub protocol : String
  pub hostname : String

unfoldable pub parse_rabbit_mq_url : (String → Option ParsedUrl) → Option String → Result String
parse_rabbit_mq_url parse none = err (other_error "RABBITMQ_URL is required")
parse_rabbit_mq_url parse (some value) =
    if value == "" then err (other_error "RABBITMQ_URL is required") else elim (parse value) [
      | none ↦ err (other_error "RABBITMQ_URL must be a valid amqp:// or amqps:// URL")
      | some url ↦
          if url.protocol == "amqp:" || url.protocol == "amqps:"
          then if url.hostname == ""
            then err (other_error "RABBITMQ_URL must be a valid amqp:// or amqps:// URL")
            else ok value
          else err (other_error "RABBITMQ_URL must be a valid amqp:// or amqps:// URL")
    ]

-- `returnedMessageHandlers` is a set, in the order of insertion.
unfoldable pub on_returned_message : (handler : ℕ) → Manager → Manager
on_returned_message handler m = record m {
  returned_message_handlers =
      if has handler m.returned_message_handlers
      then m.returned_message_handlers
      else m.returned_message_handlers ++ handler ∷ [];
}

unfoldable pub unsubscribe : (handler : ℕ) → Manager → Manager
unsubscribe handler m = record m {
  returned_message_handlers = remove handler m.returned_message_handlers;
}

-- The handlers that a message returned on a channel is given to: `forwardReturnedMessage`.
unfoldable pub forward_returned_message : (channel : ℕ) → Manager → List ℕ
forward_returned_message channel m =
    if has channel m.listening then m.returned_message_handlers else []

unfoldable pub detach_channel_listeners : Channel → Manager → Manager
detach_channel_listeners k m = record m { listening = remove k.id m.listening }

-- What a call of `getConfirmChannel` comes to at once, or an awaited `connecting` when it settles.
pub data Given : Type 0 where
  gives : Channel → Given
  throws : Given
  waits : Given

abbrev pub connect : Manager → Manager
connect m = record m { connecting = some dialing; connection_abort_controller = some false }

unfoldable pub connect_confirm_channel : Manager → Manager
connect_confirm_channel m = elim m.connection [
  | some c ↦ record m { connecting = some (creating c) }
  | none ↦ connect m
]

unfoldable pub get_confirm_channel : Manager → Given × Manager
unfolding connect_confirm_channel
get_confirm_channel m = if m.closed then (throws, m) else elim m.channel [
  | some k ↦ (gives k, m)
  | none ↦ (waits, if is_some m.connecting then m else connect_confirm_channel m)
]

pub data Reply : Type 0 where
  connected : (connection : ℕ) → Reply
  channel_created : (id : ℕ) → Reply
  exchange_asserted : Reply
  rejected : Reply
  resource_closed : Reply

-- The `catch` of `connectConfirmChannel`, up to its await.
unfoldable pub abandon : (connection : ℕ) → Manager → Manager
abandon c m = record m {
  connection = if is_handle c m.connection then none else m.connection;
  released = c ∷ m.released;
  connecting = some (abandoning c);
}

-- `connect`, once the AMQP client has connected.
unfoldable pub accept : (connection : ℕ) → Manager → Manager
accept c m =
    if m.closed
    then record m {
      opened = c ∷ m.opened;
      released = c ∷ m.released;
      connecting = some (refusing c);
    }
    else record m {
      opened = c ∷ m.opened;
      connection = some c;
      connection_abort_controller = none;
      connecting = some (creating c);
    }

-- What a reply makes of the attempt that is under way; `safeClose` swallows an error. The attempt
-- settles together with the `finally` of each call that awaits it.
unfoldable pub resume : Stage → Reply → Manager → Given × Manager
unfolding abandon accept
resume dialing (connected c) m = (waits, accept c m)
resume dialing rejected m =
    (throws, record m { connecting = none; connection_abort_controller = none })
resume (refusing c) resource_closed m =
    (throws, record m { connecting = none; connection_abort_controller = none })
resume (creating c) (channel_created id) m = (
  waits,
  record m {
    connecting = some (asserting (record { id = id; connection = c }));
    created = id ∷ m.created;
  },
)
resume (creating c) rejected m = (waits, abandon c m)
resume (asserting k) exchange_asserted m =
    (gives k, record m { connecting = none; channel = some k; listening = k.id ∷ m.listening })
resume (asserting k) rejected m = (waits, abandon k.connection m)
resume (abandoning c) resource_closed m = (throws, record m { connecting = none })
resume _ _ m = (waits, m)
