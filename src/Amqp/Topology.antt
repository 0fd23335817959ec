-- ===== src/Amqp/Topology.antt =====
-- kojin-amqp/src/topology.rs: the exchanges, the queues with their dead-letter queues, and the
-- bindings. The error of a call ends a declaration, where the code does not ignore it.
use Prim.Native.String.{◌++◌ as ◌+++◌}
use kojin.Prelude.{String, false, List, [], ◌∷◌, ◌++◌, ltb, if◌then◌else◌}
use kojin.Error.{ok}
use kojin.Broker.{Action}
use kojin.Remote.{Reply, done, failed, Call, broker_err}
use kojin.Action.{continue}
use kojin.Amqp.Config.{AmqpConfig}
use kojin.Amqp.Calls.{Lapin, Channel, FieldTable, direct, custom, long_string, short_uint}

unfoldable pub queue_name : String → String
queue_name name = "kojin.queue." +++ name

unfoldable pub dlq_name : String → String
dlq_name name = "kojin.dlq." +++ name

-- call.await?, with the error in the form that `AmqpBroker::new` gives it.
abbrev pub answered : {A W : Type 0} → Call W A → Action W A
answered call w = let (r, w') = call w in (broker_err r, w')

-- The arguments of the main queue.
unfoldable pub queue_args : AmqpConfig → String → FieldTable
queue_args config name =
    (("x-dead-letter-exchange", long_string config.dlx_exchange)
      ∷ ("x-dead-letter-routing-key", long_string name)
      ∷ [])
    ++ (if ltb 0 config.max_priority
        then ("x-max-priority", short_uint config.max_priority) ∷ []
        else [])

module _ {W : Type 0} (lapin : Lapin W) where
  pub declare_queue_pair : Channel → AmqpConfig → String → Action W Unit
  declare_queue_pair channel config name w =
      continue (answered (lapin.queue_declare channel (dlq_name name) false []) w) λ _ w1.
        continue (answered (lapin.queue_bind channel (dlq_name name) config.dlx_exchange name) w1)
          λ _ w2.
            continue
              (answered
                (lapin.queue_declare channel (queue_name name) false (queue_args config name)) w2)
              λ _ w3.
                continue
                  (answered (lapin.queue_bind channel (queue_name name) config.exchange name) w3)
                  λ _ w4. continue (answered lapin.create_channel w4) λ delayed_ch w5. (
                    ok tt,
                    (lapin.queue_bind delayed_ch (queue_name name) config.delayed_exchange name
                        w5).1,
                  )

  pub declare_queue_pairs : Channel → AmqpConfig → List String → Action W Unit
  unfolding declare_queue_pair
  declare_queue_pairs channel config [] w = (ok tt, w)
  declare_queue_pairs channel config (name ∷ names) w =
      continue (declare_queue_pair channel config name w)
        λ _ w1. declare_queue_pairs channel config names w1

  -- The delayed exchange is declared on a connection of its own, and what fails there is ignored.
  declared_delayed : AmqpConfig → Reply Channel → W → W
  declared_delayed config (failed e) w = w
  declared_delayed config (done ch) w =
      (lapin.exchange_declare ch config.delayed_exchange (custom "x-delayed-message")
        (("x-delayed-type", long_string "direct") ∷ []) w).1

  declare_delayed : AmqpConfig → W → W
  unfolding declared_delayed
  declare_delayed config w =
      let (probe, w') = lapin.probe_channel config.url w in declared_delayed config probe w'

  unfoldable pub declare_topology : Channel → AmqpConfig → List String → Action W Unit
  unfolding declare_delayed declare_queue_pairs
  declare_topology channel config queues w =
      continue (answered (lapin.exchange_declare channel config.exchange direct []) w) λ _ w1.
        continue (answered (lapin.exchange_declare channel config.dlx_exchange direct []) w1)
          λ _ w2. declare_queue_pairs channel config queues (declare_delayed config w2)
