-- ===== src/App/Window.antt =====
-- app/app.go: the two loops that hand the events of the bus on to the window. handleFrontendEmits looks
-- once, when it begins, whether there is a window; handleNotificationEvent looks at each event.
pub mod Laws
use vcs_srs_server.Events.{
  Event, EventBus, EventData, notification, notification_event, publisher_turn,
}
use vcs_srs_server.Base.{
  ℕ, zero, suc, ◌*◌, String, Bool, true, false, ◌&&◌, none, some, List, [], ◌∷◌, ◌++◌,
  if◌then◌else◌, ◌==◌, nat_eq, string_eq, lookup, insert,
}

abbrev pub is_notification : EventData → Bool
is_notification (notification title message level) = true
is_notification _ = false

-- What the loop takes out of its channel, which is the first of the name.
unfoldable pub taken : String → EventBus → List Event × EventBus
taken name b = elim (lookup name b.subscribers) [
  | none ↦ ([], b)
  | some [] ↦ ([], b)
  | some (ch ∷ others) ↦ (ch, record b { subscribers = insert name ([] ∷ others) b.subscribers })
]

-- The events of a channel that the loop of notifications emits.
unfoldable pub handle_notification_event : Bool → List Event → List Event
handle_notification_event has_window [] = []
handle_notification_event has_window (e ∷ es) =
    let rest = handle_notification_event has_window es in
    if e.name == notification_event && (is_notification e.payload && has_window)
    then e ∷ rest
    else rest

-- A loop that found no window has ended, and takes nothing out.
unfoldable pub handle_frontend_emits : Bool → EventBus → List Event × EventBus
handle_frontend_emits found_window b = if found_window then taken "*" b else ([], b)

-- One turn of the publisher, after which both loops run until their channels are empty: what the window
-- is given, and the bus.
unfoldable pub window_turn : Bool → Bool → EventBus → List Event × EventBus
window_turn found_window has_window b =
    let (all, c) = handle_frontend_emits found_window (publisher_turn b) in
    let (notifications, d) = taken notification_event c in
    (all ++ handle_notification_event has_window notifications, d)

unfoldable pub window_turns : ℕ → Bool → Bool → EventBus → List Event
window_turns zero found_window has_window b = []
window_turns (suc n) found_window has_window b =
    let (given, c) = window_turn found_window has_window b in
    given ++ window_turns n found_window has_window c
