-- ===== src/Controller/Init.antt =====
-- The constructor gives every entity of the rule its key, its own if the entities are distinct.
use ha_runtime_auto_off.Prelude.{
  String, subst, ◌≡◌, ◌≢◌, refl, true, some, List, [], ◌∷◌, ◌++◌, arith, All, Dict, get, put,
  get-put, contains, str_eq_iff, if◌then◌else◌, ◌∙◌, sym, ap,
}
use ha_runtime_auto_off.Hass.{Hass}
use ha_runtime_auto_off.Models.{RuleConfig}
use ha_runtime_auto_off.Controller.{Controller, entry_id_of, stable_key_of, stable_keys, init}
use ha_runtime_auto_off.Controller.Sync.Cycles.{Tracks}

-- The key that the constructor computes for an entity.
abbrev pub key_of : Hass → String → String
key_of hass e = stable_key_of e (entry_id_of (hass.registry e))

get-stable_keys :
    (hass : Hass) (es : List String) (keys : Dict String) (e : String)
    → get e (stable_keys hass es keys)
      ≡ (if contains e es then some (key_of hass e) else get e keys)
unfolding stable_keys contains
get-stable_keys hass [] keys e = refl
get-stable_keys hass (x ∷ xs) keys e =
    get-stable_keys hass xs (put x (key_of hass x) keys) e
    ∙ ground (arith, get-put x e (key_of hass x) keys, str_eq_iff x e)

contains-append : (e : String) (xs ys : List String) → contains e (xs ++ e ∷ ys) ≡ true
unfolding contains
contains-append e [] ys = ground (arith, str_eq_iff e e)
contains-append e (x ∷ xs) ys = ground (arith, contains-append e xs ys)

-- No other entity of the list has the key `k`.
abbrev pub OtherKeys : Hass → String → List String → Type 0
OtherKeys hass k = All (λ e. key_of hass e ≢ k)

init-fields :
    (hass : Hass) (entry : String) (config : RuleConfig) {c : Controller}
    → init hass entry config ≡ some c
    → (c.config.entities ≡ config.entities)
      × (c.stable_key_by_entity ≡ stable_keys hass config.entities [])
unfolding init
init-fields hass entry config {c} start = ground arith

keyed_other :
    (hass : Hass) (es : List String) (e k : String)
    → key_of hass e ≢ k
    → get e (stable_keys hass es []) ≢ some k
unfolding get
keyed_other hass es e k other h = absurd (ground (arith, get-stable_keys hass es [] e))

keyed_others :
    (hass : Hass) (es xs : List String) (k : String) {keys : Dict String}
    → keys ≡ stable_keys hass es []
    → OtherKeys hass k xs
    → All (λ e. get e keys ≢ some k) xs
keyed_others hass es [] k same h = tt
keyed_others hass es (x ∷ xs) k same h = (
  subst (λ keys. get x keys ≢ some k) (sym same) (keyed_other hass es x k h.0),
  keyed_others hass es xs k same h.1,
)

-- The constructor gives an entity of the rule the key that the registry says, and the controller
-- tracks it by that key, if no other entity of the rule has the same one.
pub init-Tracks :
    (hass : Hass) (entry : String) (config : RuleConfig) {c : Controller} (earlier : List String)
    (e : String) (later : List String)
    → init hass entry config ≡ some c
    → config.entities ≡ earlier ++ e ∷ later
    → OtherKeys hass (key_of hass e) earlier
    → OtherKeys hass (key_of hass e) later
    → Tracks c (key_of hass e) e
init-Tracks hass entry config {c} earlier e later start same before after =
    let (entities, keys) = init-fields hass entry config start in
    let found = ap (contains e) same ∙ contains-append e earlier later in
    record {
      earlier = earlier;
      later = later;
      entities = entities ∙ same;
      key = ap (get e) keys ∙ get-stable_keys hass config.entities [] e ∙ rw found refl;
      none_earlier = keyed_others hass config.entities earlier (key_of hass e) keys before;
      none_later = keyed_others hass config.entities later (key_of hass e) keys after;
    }
