-- ===== src/Tests/Delivery.antt =====
-- Three events for two channels.
use vcs_srs_server.Events.{
  Event, EventBus, clients_changed, clients_map, notification_event, notify, publisher_turns,
}
use vcs_srs_server.Events.Delivery.{Fits, filled_all, named, publisher_turns_lem}
use vcs_srs_server.App.Window.{window_turns}
use vcs_srs_server.App.Window.Laws.{IsListened, given_by_all, window_turns_lem}
use vcs_srs_server.Base.{
  ◌≡◌, refl, ◌≢◌, true, [], ◌∷◌, arith, eq_iff, nat_eq, string_eq, length, lookup,
}

abbrev changed : Event
changed = record { name = clients_changed; payload = clients_map }

abbrev told : Event
told = notify "Hello" "There" "info"

abbrev busy : EventBus
busy = record {
  subscribers = (clients_changed, [] ∷ []) ∷ ("*", [] ∷ []) ∷ [];
  publish_queue = changed ∷ told ∷ changed ∷ [];
}

channels_fit : Fits (lookup clients_changed busy.subscribers)
unfolding lookup
channels_fit = (omega arith, tt)

is_plain : clients_changed ≢ "*"
is_plain e = absurd (ground (arith, (eq_iff clients_changed "*").1 e))

abbrev listened : EventBus
listened = record {
  subscribers = (notification_event, [] ∷ []) ∷ ("*", [] ∷ []) ∷ [];
  publish_queue = changed ∷ told ∷ [];
}

told_is_plain : notification_event ≢ "*"
told_is_plain e = absurd (ground (arith, (eq_iff notification_event "*").1 e))

listened-IsListened : IsListened true listened
unfolding lookup
listened-IsListened = record { notifications = refl; of_all = []; all = refl; emptied = refl }

window_turns_lem_example :
    window_turns (length (changed ∷ told ∷ [])) true true listened
    ≡ given_by_all true true (changed ∷ told ∷ [])
window_turns_lem_example =
    window_turns_lem true true (changed ∷ told ∷ []) listened refl (is_plain, (told_is_plain, tt))
      listened-IsListened

publisher_turns_lem_example :
    ((publisher_turns (length (changed ∷ told ∷ changed ∷ [])) busy).publish_queue ≡ [])
    × (lookup clients_changed
          (publisher_turns (length (changed ∷ told ∷ changed ∷ [])) busy).subscribers
        ≡ filled_all
            (named clients_changed (changed ∷ told ∷ changed ∷ []))
            (lookup clients_changed busy.subscribers))
publisher_turns_lem_example =
    publisher_turns_lem clients_changed (changed ∷ told ∷ changed ∷ []) busy is_plain refl
      channels_fit
