-- ===== src/Controller/Errors/Shabbat.antt =====
-- The Shabbat condition fails closed.
use ha_runtime_auto_off.Prelude.{
  String, ◌≡◌, ◌↔◌, refl, false, Option, none, some, arith, str_eq, str_eq_iff, Bool-cases, ap,
  if◌then◌else◌, inl, inr,
}
use ha_runtime_auto_off.Hass.{HaState, RegistryEntry, Hass}
use ha_runtime_auto_off.Controller.{Controller}
use ha_runtime_auto_off.Controller.Errors.{
  is_off, shabbat_changed, shabbat_state, shabbat_block_reason,
}

-- The registry knows the sensor as at setup, by its id or not at all, and does not disable it.
abbrev pub IsRecognised : Option RegistryEntry → Option String → Type 0
IsRecognised none known = known ≡ none
IsRecognised (some entry) known = (known ≡ some entry.id) × (entry.disabled ≡ false)

shabbat_changed_iff :
    (entry : Option RegistryEntry) (known : Option String)
    → (shabbat_changed entry known ≡ false) ↔ IsRecognised entry known
shabbat_changed_iff none none = (λ h. refl, λ h. refl)
shabbat_changed_iff none (some id) = (λ h. absurd (ground arith), λ h. absurd (ground arith))
shabbat_changed_iff (some entry) none = (λ h. absurd (ground arith), λ h. absurd (ground arith))
shabbat_changed_iff (some entry) (some id) =
    (λ h. ground (arith, str_eq_iff entry.id id), λ h. ground (arith, str_eq_iff entry.id id))

shabbat_state_iff :
    (state : Option HaState)
    → (shabbat_state state ≡ none) ↔ ((s : HaState) × (state ≡ some s) × (s.state ≡ "off"))
shabbat_state_iff none = (λ h. absurd (ground arith), λ h. absurd (ground arith))
shabbat_state_iff (some s) = (
  λ h. (s, refl, ground (arith, str_eq_iff s.state "off", str_eq_iff s.state "on")),
  λ h.
      let off : s.state ≡ "off" = ground arith in
      ground (arith, ap is_off off, ap (λ x. str_eq x "on") off),
)

shabbat_reason :
    (c : Controller) (hass : Hass) (e : String)
    → c.config.shabbat_entity ≡ some e
    → shabbat_block_reason c hass ≡ (
        if shabbat_changed (hass.registry e) c.shabbat_registry_id
        then some "sensor_unavailable"
        else shabbat_state (hass.states e))
unfolding shabbat_block_reason
shabbat_reason c hass e set = rw set refl

-- A rule with the sensor `e` is free to act exactly if the registry recognises the sensor as the
-- one of the setup, not disabled, and the sensor reports `off`: every other state blocks it.
pub shabbat_block_reason_iff :
    (c : Controller) (hass : Hass) (e : String)
    → c.config.shabbat_entity ≡ some e
    → (shabbat_block_reason c hass ≡ none)
      ↔ IsRecognised (hass.registry e) c.shabbat_registry_id
        × ((s : HaState) × (hass.states e ≡ some s) × (s.state ≡ "off"))
shabbat_block_reason_iff c hass e set =
    let whole = shabbat_reason c hass e set in
    let known = shabbat_changed_iff (hass.registry e) c.shabbat_registry_id in
    let off = shabbat_state_iff (hass.states e) in
    elim (Bool-cases (shabbat_changed (hass.registry e) c.shabbat_registry_id)) [
      | inl changed ↦
          (λ h. absurd (ground arith), λ h. absurd (let same = known.1 h.0 in ground arith))
      | inr same ↦
          (λ h. (known.0 same, off.0 (ground arith)), λ h. let free = off.1 h.1 in ground arith)
    ]
