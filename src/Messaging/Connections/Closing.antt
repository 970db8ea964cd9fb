-- ===== src/Messaging/Connections/Closing.antt =====
-- The invalidation and the closing of connections and channels,
-- services/payment-service/src/messaging/rabbitmq-connection-manager.ts.
use payment_orchestration_pl.Prelude.{ℕ, true, Option, none, some, ◌∷◌, is_some, if◌then◌else◌}
use payment_orchestration_pl.Messaging.Connections.{
  Channel, Manager, CloseStage, waiting, closing_channel, closing_connection, done, is_channel,
  is_handle, detach_channel_listeners,
}

-- `invalidateChannel`: the channel is closed as well.
unfoldable pub invalidate_channel : Channel → Manager → Manager
unfolding detach_channel_listeners
invalidate_channel k m =
    if is_channel k.id m.channel
    then (let m' = detach_channel_listeners k (record m { channel = none }) in
        record m' { closed_channels = k.id ∷ m'.closed_channels })
    else m

-- The listener of a channel's `error` and `close`.
unfoldable pub invalidate_transport : Channel → Manager → Manager
unfolding detach_channel_listeners
invalidate_transport k m =
    if is_channel k.id m.channel
    then (let m' = detach_channel_listeners k m in
        record m' {
          channel = none;
          connection = if is_handle k.connection m'.connection then none else m'.connection;
          released = k.connection ∷ m'.released;
        })
    else m

-- The listener of a connection's `error` and `close`.
unfoldable pub invalidate_connection : (connection : ℕ) → Manager → Manager
unfolding detach_channel_listeners
invalidate_connection c m =
    if is_handle c m.connection
    then (let m' : Manager = elim m.channel [ none ↦ m | some k ↦ detach_channel_listeners k m ] in
        record m' { channel = none; connection = none })
    else m

-- The end of `closeResources`: the connection is closed where there is one.
unfoldable pub close_connection : Option ℕ → Manager → Manager
close_connection none m = record m { close_promise = some done }
close_connection (some c) m = record m {
  released = c ∷ m.released;
  close_promise = some closing_connection;
}

-- `closeResources` behind its wait for `connecting`, up to the first await.
unfoldable pub take_resources : Manager → Manager
unfolding detach_channel_listeners close_connection
take_resources m =
    let m' = record m { channel = none; connection = none } in
    elim m.channel [
      | some k ↦
          let m'' = detach_channel_listeners k m' in
          record m'' {
            closed_channels = k.id ∷ m''.closed_channels;
            close_promise = some (closing_channel m.connection);
          }
      | none ↦ close_connection m.connection m'
    ]

-- `close`, with `closeResources` up to its first await.
unfoldable pub close : Manager → Manager
unfolding take_resources
close m = elim m.close_promise [
  | some _ ↦ m
  | none ↦
      let m' = record m {
        closed = true;
        connection_abort_controller = elim m.connection_abort_controller [
          | none ↦ none
          | some _ ↦ some true
        ];
        close_promise = some waiting;
      } in
      if is_some m.connecting then m' else take_resources m'
]

-- What the settling of its await makes of `closeResources`.
unfoldable pub resume_close : CloseStage → Manager → Manager
unfolding take_resources close_connection
resume_close waiting m = take_resources m
resume_close (closing_channel c) m = close_connection c m
resume_close closing_connection m = record m { close_promise = some done }
resume_close done m = m
