-- ===== src/MessageBus.antt =====
-- include/pubsub/message_bus.h and src/pubsub/message_bus.cpp. The state `S` is what the callbacks
-- change. The other modules record what they publish as a list of events, in order.
pub mod Laws
use ctd_project.Base.{ℕ, Bool, true, false, List, [], ◌∷◌, ◌++◌, if◌then◌else◌, Str}

pub data EventType : Type 0 where
  score_changed move_logged play_sound game_status : EventType

-- An event carries its type's payload: `ScorePayload`, a text, `SoundPayload`, a text.
pub data Event : Type 0 where
  score : (color : Str) (new_score : ℕ) → Event
  log : Str → Event
  sound : Str → Event
  status : Str → Event

abbrev pub event_type : Event → EventType
event_type (score c n) = score_changed
event_type (log s) = move_logged
event_type (sound s) = play_sound
event_type (status s) = game_status

abbrev pub type_eq : EventType → EventType → Bool
type_eq score_changed score_changed = true
type_eq move_logged move_logged = true
type_eq play_sound play_sound = true
type_eq game_status game_status = true
type_eq _ _ = false

pub record MessageBus {ℓ} (S : Type ℓ) : Type ℓ where
  pub subscribers : EventType → List (Event → S → S)

module _ {ℓ} {S : Type ℓ} where
  pub new_bus : MessageBus S
  new_bus = record { subscribers = λ t. [] }

  -- The new callback goes behind those of its type.
  pub subscribe : MessageBus S → EventType → (Event → S → S) → MessageBus S
  subscribe bus t callback = record {
    subscribers =
        λ u. if type_eq t u then bus.subscribers t ++ callback ∷ [] else bus.subscribers u;
  }

  call_each : List (Event → S → S) → Event → S → S
  call_each [] e s = s
  call_each (callback ∷ rest) e s = call_each rest e (callback e s)

  pub publish : MessageBus S → Event → S → S
  unfolding call_each
  publish bus e s = call_each (bus.subscribers (event_type e)) e s

  -- The events of a run, published one after the other.
  pub publish_all : MessageBus S → List Event → S → S
  publish_all bus [] s = s
  publish_all bus (e ∷ es) s = publish_all bus es (publish bus e s)
