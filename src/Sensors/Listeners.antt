-- ===== src/Sensors/Listeners.antt =====
-- The listeners of controller.py, and the entities of entity.py and event.py that are such listeners.
-- A listener is named by the key of its entity. A `set` is a list without repetition; in which order
-- it is gone through is left open by Python, and nothing here depends on it.
use ha_runtime_auto_off.Prelude.{
  String, Bool, not, List, [], ◌∷◌, ◌++◌, filter, str_eq, if◌then◌else◌,
}
use ha_runtime_auto_off.Models.{ActivityEvent}
use ha_runtime_auto_off.Models.Values.{add_unique, text, object, Fields, end, field, DatetimeText}
use ha_runtime_auto_off.Models.Activity.{event_type_value, activity_data}
use ha_runtime_auto_off.Entry.{put_field}
use ha_runtime_auto_off.Controller.{Controller}
use ha_runtime_auto_off.Controller.Handlers.{Effect, notify, publish, store}

pub record Subscribers : Type 0 where
  pub state_listeners : List String
  pub activity_listeners : List String

-- `set.discard`
abbrev pub discard : String → List String → List String
discard x xs = filter (λ y. not (str_eq x y)) xs

unfoldable pub async_add_listener : String → Subscribers → Subscribers
unfolding add_unique
async_add_listener l s = record s { state_listeners = add_unique s.state_listeners l }

unfoldable pub remove_listener : String → Subscribers → Subscribers
remove_listener l s = record s { state_listeners = discard l s.state_listeners }

unfoldable pub async_add_activity_listener : String → Subscribers → Subscribers
unfolding add_unique
async_add_activity_listener l s = record s {
  activity_listeners = add_unique s.activity_listeners l;
}

unfoldable pub remove_activity_listener : String → Subscribers → Subscribers
remove_activity_listener l s = record s { activity_listeners = discard l s.activity_listeners }

-- `async_added_to_hass` of an entity, and of the activity entity.
abbrev pub added_to_hass : String → Subscribers → Subscribers
added_to_hass key s = async_add_listener key s

abbrev pub activity_added_to_hass : String → Subscribers → Subscribers
activity_added_to_hass key s = async_add_activity_listener key (async_add_listener key s)

-- What follows from an effect: an entity writes its state, the activity entity is triggered with an
-- event type and data, or an event goes to the bus.
pub data Delivery : Type 0 where
  wrote : String → Delivery
  triggered : String → String → Fields → Delivery
  fired : String → Fields → Delivery

-- `_async_controller_updated`: the activity entity leaves out the writing.
abbrev pub controller_updated : String → List Delivery
controller_updated key = if str_eq key "activity" then [] else wrote key ∷ []

-- `_notify_state_listeners`: the exception of a listener, which is `broken`, is logged, and the others
-- are called all the same. What such a listener does before it raises is left out.
unfoldable pub notify_state_listeners : (String → Bool) → List String → List Delivery
notify_state_listeners broken [] = []
notify_state_listeners broken (l ∷ ls) =
    let rest = notify_state_listeners broken ls in
    if broken l then rest else controller_updated l ++ rest

module _ (dt : DatetimeText) where
  -- `_async_handle_activity` of the activity entity.
  abbrev pub handle_activity : String → ActivityEvent → List Delivery
  handle_activity key a =
      triggered key (event_type_value a.event_type)
        (put_field "occurred_at" (text (dt.isoformat a.occurred_at)) (activity_data dt a.content))
      ∷ wrote key
      ∷ []

  unfoldable pub call_activity_listeners :
      (String → Bool) → ActivityEvent → List String → List Delivery
  unfolding put_field activity_data
  call_activity_listeners broken a [] = []
  call_activity_listeners broken a (l ∷ ls) =
      let rest = call_activity_listeners broken a ls in
      if broken l then rest else handle_activity l a ++ rest

  -- `_publish_activity`: the listeners, and then the event on the bus.
  unfoldable pub publish_activity :
      (String → Bool) → Controller → ActivityEvent → List String → List Delivery
  unfolding call_activity_listeners activity_data
  publish_activity broken c a ls =
      call_activity_listeners broken a ls
      ++ fired "runtime_auto_off_activity" (
          field "entry_id" (text c.entry_id) (
            field "rule_id" (text c.config.rule_id) (
              field "event_type" (text (event_type_value a.event_type)) (
                field "occurred_at" (text (dt.isoformat a.occurred_at))
                  (field "data" (object (activity_data dt a.content)) end)))))
        ∷ []

  abbrev pub deliver_one : (String → Bool) → Controller → Subscribers → Effect → List Delivery
  deliver_one broken c s notify = notify_state_listeners broken s.state_listeners
  deliver_one broken c s (publish a) = publish_activity broken c a s.activity_listeners
  deliver_one broken c s (store v) = []

  -- The effects of a method, one after the other.
  unfoldable pub deliver : (String → Bool) → Controller → Subscribers → List Effect → List Delivery
  unfolding notify_state_listeners publish_activity
  deliver broken c s [] = []
  deliver broken c s (e ∷ es) = deliver_one broken c s e ++ deliver broken c s es
