-- ===== src/Action.antt =====
-- The operator `?` in methods that also change a state: kojin-core/src/broker.rs and the crates that
-- implement its traits. What was done before an error stays done.
use kojin.Prelude.{Option, none, some}
use kojin.Error.{KojinError, TaskResult, ok, err}
use kojin.Broker.{Action}

-- The rest of a method, after a call that ended in a state.
abbrev pub continue : {A B S : Type 0} → TaskResult A × S → (A → Action S B) → TaskResult B × S
continue (ok a, s) f = f a s
continue (err e, s) f = (err e, s)

infixl 5 ◌>>=◌
abbrev pub ◌>>=◌ : {A B S : Type 0} → Action S A → (A → Action S B) → Action S B
◌>>=◌ m f s = continue (m s) f

-- A result that does not touch the state.
abbrev pub lift : {A S : Type 0} → TaskResult A → Action S A
lift r s = (r, s)

-- Option::ok_or
abbrev pub ok_or : {A S : Type 0} → Option A → KojinError → Action S A
ok_or none e s = (err e, s)
ok_or (some a) e s = (ok a, s)
