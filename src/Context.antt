-- ===== src/Context.antt =====
-- kojin-core/src/context.rs: the values that handlers share, one for each type. `T` are the type ids
-- and `El` the types that they stand for; a `Box<dyn Any>` carries the id of its own type.
pub mod Typed
use kojin.Prelude.{
  is_some, Key, ◌⊎◌, ◌≡◌, subst, Bool, true, false, Option, none, some, Bool-cases, inl, inr, ◌==◌,
}
use kojin.Prelude.Map
use kojin.Prelude.Map.{Map}

pub record BoxAny {T : Type 0} (El : T → Type 0) : Type 0 where
  pub type_id : T
  pub value : El type_id

pub record TaskContext {T : Type 0} (El : T → Type 0) : Type 0 where
  pub entries : Map T (BoxAny El)

module _ {T : Type 0} ⦃key : Key T⦄ {El : T → Type 0} where
  abbrev pub new : TaskContext El
  new = record { entries = Map.empty }

  unfoldable pub insert : (t : T) → El t → TaskContext El → TaskContext El
  insert t value ctx = record {
    entries = Map.insert t (record { type_id = t; value = value }) ctx.entries;
  }

  -- v.downcast_ref::<T>(): the value, if the box holds the type that is asked for.
  pub downcast_by :
      (t : T) (v : BoxAny El)
      → ((v.type_id == t) ≡ true) ⊎ ((v.type_id == t) ≡ false)
      → Option (El t)
  downcast_by t v (inl e) = some (subst El ((key.same_iff v.type_id t).0 e) v.value)
  downcast_by t v (inr e) = none

  pub downcast_ref : (t : T) → BoxAny El → Option (El t)
  unfolding downcast_by
  downcast_ref t v = downcast_by t v (Bool-cases (v.type_id == t))

  pub and_downcast : (t : T) → Option (BoxAny El) → Option (El t)
  unfolding downcast_ref
  and_downcast t none = none
  and_downcast t (some v) = downcast_ref t v

  pub data_of : (t : T) → TaskContext El → Option (El t)
  unfolding and_downcast
  data_of t ctx = and_downcast t (Map.get t ctx.entries)

  -- self.data.contains_key(..)
  pub contains : (t : T) → TaskContext El → Bool
  contains t ctx = is_some (Map.get t ctx.entries)
