-- ===== src/Messaging/Message.antt =====
-- The message that `publish` of services/payment-service/src/messaging/rabbitmq-publisher.ts makes of a row of
-- the outbox.
use payment_orchestration_pl.Prelude.{String, ◌≡◌, Bool, true}
use payment_orchestration_pl.DataAccess.Rows.{
  PaymentEventType, PaymentEventEnvelope, OutboxEventRecord,
}

-- The arguments of `channel.publish`, with the options among them. The content is the JSON text of
-- the envelope.
pub record Message : Type 0 where
  pub exchange : String
  pub routing_key : PaymentEventType
  pub content : PaymentEventEnvelope
  pub mandatory : Bool
  pub persistent : Bool
  pub content_type : String
  pub message_id : String
  pub correlation_id : String
  pub kind : PaymentEventType

unfoldable pub message_of : OutboxEventRecord → Message
message_of event = record {
  exchange = "payments.events";
  routing_key = event.routing_key;
  content = event.payload;
  mandatory = true;
  persistent = true;
  content_type = "application/json";
  message_id = event.id;
  correlation_id = event.payload.correlation_id;
  kind = event.event_type;
}

-- What the message is delivered by is what its content says.
pub record IsDescribed (m : Message) : Type 0 where
  pub same_id : m.message_id ≡ m.content.event_id
  pub same_correlation : m.correlation_id ≡ m.content.correlation_id
  pub same_kind : m.kind ≡ m.content.event_type
  pub routed : m.routing_key ≡ m.content.event_type
