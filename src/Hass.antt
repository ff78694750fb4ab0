-- ===== src/Hass.antt =====
-- What the integration reads of Home Assistant: a snapshot of its state machine, its entity and
-- device registries and its services. None of it is code of this repository, so it is an argument
-- of the definitions that use it.
use ha_runtime_auto_off.Prelude.{
  ℕ, String, Bool, Option, none, some, List, [], ◌∷◌, str_eq, if◌then◌else◌,
}

-- `State`: the text of the state and the time of its last change.
pub record HaState : Type 0 where
  pub state : String
  pub last_changed : ℕ

pub record RegistryEntry : Type 0 where
  pub id : String
  pub entity_id : String
  pub platform : String
  pub disabled : Bool
  pub area_id : Option String
  pub device_id : Option String

-- `parent_device_id` is absent on older versions, which `getattr` reads as `None`.
pub record Device : Type 0 where
  pub id : String
  pub area_id : Option String
  pub parent_device_id : Option String

pub record Hass : Type 0 where
  -- `hass.states.get`
  pub states : String → Option HaState
  -- `entity_registry.async_get(hass).async_get`
  pub registry : String → Option RegistryEntry
  -- the entries of the device registry
  pub devices : List Device
  -- `hass.services.has_service`
  pub has_service : String → String → Bool
  -- `split_entity_id(entity_id)[0]`
  pub domain : String → String
  -- `hass.state is CoreState.running`
  pub running : Bool

-- `device_registry.async_get(hass).async_get`
unfoldable pub get_device : String → List Device → Option Device
get_device id [] = none
get_device id (d ∷ ds) = if str_eq d.id id then some d else get_device id ds
