-- ===== src/Events.antt =====
-- events: the names and data of events, and the bus that hands them to buffered channels. A step of
-- the publisher takes one event from the queue and dispatches it.
pub mod Delivery
use vcs_srs_server.State.Server.{BannedClient}
use vcs_srs_server.State.Settings.{Coalition}
use vcs_srs_server.Base.{
  ℕ, zero, suc, ◌*◌, String, Option, none, some, List, [], ◌∷◌, ◌++◌, map, ltb, if◌then◌else◌,
  nat_eq, string_eq, length, Map, lookup, insert,
}

-- What an event carries. The maps and states are shared by reference: only which one it is, is part
-- of the event.
pub data EventData : Type 0 where
  clients_map radio_clients_map admin_state settings_state : EventData
  banned_list : List BannedClient → EventData
  coalition_list : List Coalition → EventData
  notification : String → String → String → EventData

pub record Event : Type 0 where
  pub name : String
  pub payload : EventData

abbrev pub settings_changed : String
settings_changed = "settings/changed"

abbrev pub coalitions_changed : String
coalitions_changed = "settings/coalitions/changed"

abbrev pub admin_changed : String
admin_changed = "admin/changed"

abbrev pub radio_clients_changed : String
radio_clients_changed = "clients/radio/changed"

abbrev pub clients_changed : String
clients_changed = "clients/changed"

abbrev pub banned_clients_changed : String
banned_clients_changed = "clients/banned/changed"

abbrev pub notification_event : String
notification_event = "notification"

-- The event that Notify emits; its random identifier is left out.
abbrev pub notify : String → String → String → Event
notify title message level = record {
  name = notification_event;
  payload = notification title message level;
}

-- A channel with a buffer for ten events, oldest first.
abbrev pub Channel : Type 0
Channel = List Event

abbrev pub buffer_size : ℕ
buffer_size = 10

pub record EventBus : Type 0 where
  pub subscribers : Map String (List Channel)
  pub publish_queue : List Event

unfoldable pub new_event_bus : EventBus
new_event_bus = record { subscribers = []; publish_queue = [] }

-- select { case sub <- event: default: }
unfoldable pub offer : Event → Channel → Channel
offer e ch = if ltb (length ch) buffer_size then ch ++ e ∷ [] else ch

unfoldable pub offer_at : String → Event → Map String (List Channel) → Map String (List Channel)
offer_at name e subs = elim (lookup name subs) [
  | none ↦ subs
  | some chs ↦ insert name (map (offer e) chs) subs
]

-- First to the subscribers of the name, then to those of "*".
unfoldable pub dispatch : Event → EventBus → EventBus
dispatch e b = record b { subscribers = offer_at "*" e (offer_at e.name e b.subscribers) }

abbrev pub channels : Option (List Channel) → List Channel
channels none = []
channels (some chs) = chs

unfoldable pub subscribe : String → EventBus → EventBus
subscribe name b = record b {
  subscribers = insert name (channels (lookup name b.subscribers) ++ [] ∷ []) b.subscribers;
}

unfoldable pub publish : Event → EventBus → EventBus
publish e b = record b { publish_queue = b.publish_queue ++ e ∷ [] }

-- One turn of startPublisher; on an empty queue it sleeps.
unfoldable pub publisher_turn : EventBus → EventBus
publisher_turn b = elim b.publish_queue [
  | [] ↦ b
  | e ∷ rest ↦ dispatch e (record b { publish_queue = rest })
]

unfoldable pub publisher_turns : ℕ → EventBus → EventBus
publisher_turns zero b = b
publisher_turns (suc n) b = publisher_turns n (publisher_turn b)
