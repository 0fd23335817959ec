-- ===== src/Context/Typed.antt =====
-- What a handler gets out of the context is of the type that it asks for, and a value that is there
-- can be had.
use mathlib.Core.Bool.{true≢false}
use mathlib.Core.HLevel.{hedberg}
use mathlib.Core.Path.{subst_refl}
use kojin.Prelude.{
  is_some, Key, same_refl, if_same, if_apart, ◌≡◌, ◌≢◌, refl, sym, ap, subst, ◌∙◌, true, false, ◌⊎◌,
  Option, none, some, List, [], ◌∷◌, Bool-cases, Option-cases, inl, inr, ◌==◌,
}
use kojin.Prelude.Map
use kojin.Prelude.Map.{get-insert, get-insert_self}
use kojin.Context.{
  BoxAny, TaskContext, new, insert, downcast_by, downcast_ref, and_downcast, data_of, contains,
}

module _ {T : Type 0} ⦃key : Key T⦄ where
  T-Discrete : Discrete T
  T-Discrete t u = elim (Bool-cases (t == u)) [
    | inl e ↦ yes ((key.same_iff t u).0 e)
    | inr e ↦ no (λ p. true≢false (sym ((key.same_iff t u).1 p) ∙ e))
  ]

module _ {T : Type 0} ⦃key : Key T⦄ (El : T → Type 0) where
  -- A box under the id of its own type can be had.
  by_some :
      (t : T) (v : BoxAny El) (c : ((v.type_id == t) ≡ true) ⊎ ((v.type_id == t) ≡ false))
      → v.type_id ≡ t
      → is_some (downcast_by t v c) ≡ true
  unfolding downcast_by
  by_some t v (inl e) same = refl
  by_some t v (inr e) same = absurd (true≢false (sym ((key.same_iff v.type_id t).1 same) ∙ e))

  -- And it is the value that was put in.
  by_value :
      (t : T) (x : El t) (c : ((t == t) ≡ true) ⊎ ((t == t) ≡ false))
      → downcast_by {El = El} t (record { type_id = t; value = x }) c ≡ some x
  unfolding downcast_by
  by_value t x (inl e) =
      ap (λ (p : t ≡ t). some (subst El p x)) (hedberg T-Discrete t t _ refl)
      ∙ ap some (subst_refl El x)
  by_value t x (inr e) = absurd (true≢false (sym (same_refl t) ∙ e))

  type_of : T → Option (BoxAny El) → T
  type_of t none = t
  type_of t (some v) = v.type_id

  -- Every box stands under the id of its own type.
  WellTyped : TaskContext El → Type 0
  WellTyped ctx = (t : T) (v : BoxAny El) → Map.get t ctx.entries ≡ some v → v.type_id ≡ t

  pub insert_all : List (BoxAny El) → TaskContext El → TaskContext El
  insert_all [] ctx = ctx
  insert_all (v ∷ vs) ctx = insert_all vs (insert v.type_id v.value ctx)

  insert-WellTyped :
      (u : T) (x : El u) (ctx : TaskContext El) → WellTyped ctx → WellTyped (insert u x ctx)
  unfolding WellTyped insert type_of
  insert-WellTyped u x ctx h t v found =
      let box : BoxAny El = record { type_id = u; value = x } in
      elim (Bool-cases (u == t)) [
        | inl e ↦
            let p = (key.same_iff u t).0 e in
            let inserted =
              get-insert u t box ctx.entries ∙ if_same u t (some box) (Map.get t ctx.entries) p in
            sym (ap (type_of u) (sym inserted ∙ found)) ∙ p
        | inr e ↦ h t v (sym (get-insert u t box ctx.entries ∙ rw e refl) ∙ found)
      ]

  insert_all-WellTyped :
      (vs : List (BoxAny El)) (ctx : TaskContext El) → WellTyped ctx → WellTyped (insert_all vs ctx)
  unfolding insert_all
  insert_all-WellTyped [] ctx h = h
  insert_all-WellTyped (v ∷ vs) ctx h =
      insert_all-WellTyped vs _ (insert-WellTyped v.type_id v.value ctx h)

  new-WellTyped : WellTyped (new {El = El})
  unfolding WellTyped Map.get
  new-WellTyped t v e = absurd (true≢false (ap is_some (sym e)))

  contains-data_of :
      (t : T) (ctx : TaskContext El) → WellTyped ctx → contains t ctx ≡ is_some (data_of t ctx)
  unfolding WellTyped contains data_of and_downcast downcast_ref
  contains-data_of t ctx h = elim (Option-cases (Map.get t ctx.entries)) [
    | inl e ↦ rw e refl
    | inr (v, e) ↦ rw e (sym (by_some t v (Bool-cases (v.type_id == t)) (h t v e)))
  ]

  -- A context that was built by insertions hands out every value that it contains, at its own type:
  -- a downcast never fails, so `contains` and `data` agree. The value that was inserted last for a
  -- type is the one that is handed out, and an insertion leaves the values of other types alone.
  pub data_of-insert :
      (vs : List (BoxAny El)) (t : T) (x : El t)
      → let ctx = insert_all vs new in
        (contains t ctx ≡ is_some (data_of t ctx))
        × (data_of t (insert t x ctx) ≡ some x)
        × ((u : T) → t ≢ u → data_of u (insert t x ctx) ≡ data_of u ctx)
  unfolding data_of and_downcast downcast_ref insert
  data_of-insert vs t x =
      let ctx = insert_all vs new in
      let box : BoxAny El = record { type_id = t; value = x } in
      (
        contains-data_of t ctx (insert_all-WellTyped vs new new-WellTyped),
        ap (and_downcast t) (get-insert_self t box ctx.entries)
            ∙ by_value t x (Bool-cases (t == t)),
        λ u apart. ap (and_downcast u) (
            get-insert t u box ctx.entries ∙ if_apart t u (some box) (Map.get u ctx.entries) apart),
      )
