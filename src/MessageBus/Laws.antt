-- ===== src/MessageBus/Laws.antt =====
-- Which callbacks an event reaches, and in which order.
use ctd_project.Base.{
  ◌≡◌, refl, ◌↔◌, true, List, [], ◌∷◌, ◌++◌, arith, if◌then◌else◌, Bool-cases, inl, inr,
}
use ctd_project.MessageBus.{
  EventType, Event, event_type, type_eq, MessageBus, new_bus, subscribe, call_each, publish,
  publish_all,
}

type_eq_iff : (t u : EventType) → (type_eq t u ≡ true) ↔ (t ≡ u)
type_eq_iff t u = ground arith

module _ {ℓ} {S : Type ℓ} where
  call_each-append :
      (cs : List (Event → S → S)) (c : Event → S → S) (e : Event) (s : S)
      → call_each (cs ++ c ∷ []) e s ≡ c e (call_each cs e s)
  unfolding call_each
  call_each-append [] c e s = refl
  call_each-append (d ∷ cs) c e s = call_each-append cs c e (d e s)

  -- A new subscriber of an event's type is called last, after all earlier ones; a subscriber of
  -- another type is not called.
  pub publish-subscribe :
      (bus : MessageBus S) (t : EventType) (callback : Event → S → S) (e : Event) (s : S)
      → publish (subscribe bus t callback) e s
        ≡ (if type_eq t (event_type e) then callback e (publish bus e s) else publish bus e s)
  unfolding publish subscribe
  publish-subscribe bus t callback e s = elim (Bool-cases (type_eq t (event_type e))) [
    | inl same ↦ rw same (
        rw ((type_eq_iff t (event_type e)).0 same)
          (call_each-append (bus.subscribers (event_type e)) callback e s))
    | inr other ↦ rw other
  ]

  -- An event without subscribers changes nothing.
  pub publish-new_bus : (e : Event) (s : S) → publish new_bus e s ≡ s
  unfolding publish new_bus
  publish-new_bus e s = refl

  pub publish_all-append :
      (bus : MessageBus S) (es fs : List Event) (s : S)
      → publish_all bus (es ++ fs) s ≡ publish_all bus fs (publish_all bus es s)
  unfolding publish_all
  publish_all-append bus [] fs s = refl
  publish_all-append bus (e ∷ es) fs s = publish_all-append bus es fs (publish bus e s)
