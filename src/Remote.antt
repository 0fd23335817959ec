-- ===== src/Remote.antt =====
-- What a call of another crate or of the operating system answers: a value, or an error with its
-- `Display` text; and `broker_err`, which the brokers kojin-redis/src/broker.rs, kojin-sqs/src/broker.rs
-- and kojin-amqp/src/broker.rs each declare. What such a call does is a parameter of the model.
use kojin.Prelude.{String}
use kojin.Error.{TaskResult, ok, err, broker}

pub data Reply (A : Type 0) : Type 0 where
  done : A → Reply A
  failed : String → Reply A

-- A call that changes a state `W`: the server, the file system or a process table.
abbrev pub Call : Type 0 → Type 0 → Type 0
Call W A = W → Reply A × W

-- .map_err(broker_err)
abbrev pub broker_err : {A : Type 0} → Reply A → TaskResult A
broker_err (done a) = ok a
broker_err (failed e) = err (broker e)
