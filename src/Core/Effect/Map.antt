-- ===== src/Core/Effect/Map.antt =====
-- core/src/lib.rs, `Effect::map`: the functor laws.
use composable_rust.Prelude.{◌≡◌, refl, ap, Option}
use mathlib.Core.Option
use mathlib.Core.List
use composable_rust.Core.Effect.{
  EventStoreOperation, append_events, load_events, save_snapshot, load_snapshot, EventBusOperation,
  publish, Effect, nothing, parallel, sequential, delay, future, stream, event_store, publish_event,
  Effects, nil, cons, map_event_store_operation, map_event_bus_operation, map_effect, map_effects,
  effect_map,
}

module _ {ℓ κ} {A : Type ℓ} {B : Type κ} where
  -- The method and its helper do the same.
  pub effect_map-eq-map_effect : (f : A → B) (e : Effect A) → effect_map f e ≡ map_effect f e
  unfolding effect_map map_effect
  effect_map-eq-map_effect f nothing = refl
  effect_map-eq-map_effect f _ = refl

module _ {ℓ κ μ} {A : Type ℓ} {B : Type κ} {C : Type μ} (g : B → C) (f : A → B) where
  event_store_operation-compose :
      (op : EventStoreOperation A)
      → map_event_store_operation g (map_event_store_operation f op)
        ≡ map_event_store_operation (λ x. g (f x)) op
  unfolding map_event_store_operation
  event_store_operation-compose (append_events s i v es m on_success on_error) =
      simp (Option.map-map g f)
  event_store_operation-compose (load_events s i v on_success on_error) = simp (Option.map-map g f)
  event_store_operation-compose (save_snapshot s i v st on_success on_error) =
      simp (Option.map-map g f)
  event_store_operation-compose (load_snapshot s i on_success on_error) = simp (Option.map-map g f)

  event_bus_operation-compose :
      (op : EventBusOperation A)
      → map_event_bus_operation g (map_event_bus_operation f op)
        ≡ map_event_bus_operation (λ x. g (f x)) op
  unfolding map_event_bus_operation
  event_bus_operation-compose (publish b t e on_success on_error) = simp (Option.map-map g f)

  mutual
    unfolding map_effect

    effect-compose : (e : Effect A) → map_effect g (map_effect f e) ≡ map_effect (λ x. g (f x)) e
    effect-compose nothing = refl
    effect-compose (parallel es) = ap parallel (effects-compose es)
    effect-compose (sequential es) = ap sequential (effects-compose es)
    effect-compose (delay d a) = refl
    effect-compose (future r) = ap future (Option.map-map g f r)
    effect-compose (stream items) = ap stream (List.map-map g f items)
    effect-compose (event_store op) = ap event_store (event_store_operation-compose op)
    effect-compose (publish_event op) = ap publish_event (event_bus_operation-compose op)

    effects-compose :
        (es : Effects A) → map_effects g (map_effects f es) ≡ map_effects (λ x. g (f x)) es
    effects-compose nil = refl
    effects-compose (cons e es) = rw (effect-compose e, effects-compose es)

  -- Mapping an effect by `f` and then by `g` is mapping it once by their composition: through
  -- nested effects, in every callback, and with every other field unchanged.
  pub effect_map-compose :
      (e : Effect A) → effect_map g (effect_map f e) ≡ effect_map (λ x. g (f x)) e
  effect_map-compose e =
      rw
        (
          effect_map-eq-map_effect f e,
          effect_map-eq-map_effect g (map_effect f e),
          effect_map-eq-map_effect (λ x. g (f x)) e,
        )
        (effect-compose e)

module _ {ℓ} {A : Type ℓ} where
  option_map-id : (o : Option A) → Option.map (λ a. a) o ≡ o
  option_map-id o = λ i. Option.map-id i o

  event_store_operation-id :
      (op : EventStoreOperation A) → map_event_store_operation (λ a. a) op ≡ op
  unfolding map_event_store_operation
  event_store_operation-id (append_events s i v es m on_success on_error) = simp option_map-id
  event_store_operation-id (load_events s i v on_success on_error) = simp option_map-id
  event_store_operation-id (save_snapshot s i v st on_success on_error) = simp option_map-id
  event_store_operation-id (load_snapshot s i on_success on_error) = simp option_map-id

  event_bus_operation-id : (op : EventBusOperation A) → map_event_bus_operation (λ a. a) op ≡ op
  unfolding map_event_bus_operation
  event_bus_operation-id (publish b t e on_success on_error) = simp option_map-id

  mutual
    unfolding map_effect

    effect-id : (e : Effect A) → map_effect (λ a. a) e ≡ e
    effect-id nothing = refl
    effect-id (parallel es) = ap parallel (effects-id es)
    effect-id (sequential es) = ap sequential (effects-id es)
    effect-id (delay d a) = refl
    effect-id (future r) = ap future (option_map-id r)
    effect-id (stream items) = ap stream (List.map-id items)
    effect-id (event_store op) = ap event_store (event_store_operation-id op)
    effect-id (publish_event op) = ap publish_event (event_bus_operation-id op)

    effects-id : (es : Effects A) → map_effects (λ a. a) es ≡ es
    effects-id nil = refl
    effects-id (cons e es) = rw (effect-id e, effects-id es)

  -- Mapping an effect by the identity gives the effect back.
  pub effect_map-id : (e : Effect A) → effect_map (λ a. a) e ≡ e
  effect_map-id e = rw (effect_map-eq-map_effect (λ a. a) e) (effect-id e)
