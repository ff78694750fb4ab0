-- ===== src/Controller/Restart/Started.antt =====
-- `_async_started` of controller.py, for a cycle that was restored: it goes on.
use mathlib.Core.Option
use ha_runtime_auto_off.Prelude.{
  ℕ, ◌+◌, String, ◌≡◌, ◌≢◌, refl, sym, ap, subst, ◌∙◌, Bool, true, false, Option, none, some, Dict,
  get, get-map_values, arith, inl, inr, if◌then◌else◌,
}
use ha_runtime_auto_off.Models.{RuntimeCycle, RuleConfig}
use ha_runtime_auto_off.Models.Values.{DatetimeText}
use ha_runtime_auto_off.Controller.{Controller}
use ha_runtime_auto_off.Controller.Errors.{identity_or_area_error}
use ha_runtime_auto_off.Controller.Sync.{observed, sync_cycles}
use ha_runtime_auto_off.Controller.Sync.Cycles.{Tracks}
use ha_runtime_auto_off.Controller.Sync.Clock.{IsOff, GoesOn, sync_cycles-GoesOn}
use ha_runtime_auto_off.Controller.Rearm.{rearm_cycle, rearm_interrupted}
use ha_runtime_auto_off.Controller.Reconcile.{claim, reconcile}
use ha_runtime_auto_off.Controller.Reconcile.Claims.{Claims, reconcile-Claims}
use ha_runtime_auto_off.Controller.Save.{save}
use ha_runtime_auto_off.Controller.Handlers.{Reading, async_started}

get-rearm_interrupted :
    (now interval : ℕ) (c : Controller) (k : String)
    → c.config.retry_interval_seconds ≡ interval
    → interval ≢ 0
    → get k (rearm_interrupted now c).controller.cycles
      ≡ Option.map (rearm_cycle (now + interval)) (get k c.cycles)
unfolding rearm_interrupted
get-rearm_interrupted now interval c k same positive =
    ground (arith, get-map_values (rearm_cycle (now + c.config.retry_interval_seconds)) k c.cycles)

-- The cycle of the entity `e` goes on from its start; if it was claimed, it is tried again at `at`,
-- and else when it was to be tried before.
pub record Survives (at : ℕ) (e : String) (old new : RuntimeCycle) : Type 0 where
  pub started_at : new.started_at ≡ old.started_at
  pub stable_key : new.stable_key ≡ old.stable_key
  pub entity_id : new.entity_id ≡ e
  pub retry_at : new.retry_at ≡ (if old.handled then some at else old.retry_at)

-- The same, of what a dictionary has under a key.
abbrev pub IsThere : ℕ → String → RuntimeCycle → Option RuntimeCycle → Type 0
IsThere at e old none = ⊥
IsThere at e old (some new) = Survives at e old new

rearmed-IsThere :
    (at : ℕ) (e : String) (old : RuntimeCycle) (o : Option RuntimeCycle)
    → GoesOn e old o
    → IsThere at e old (Option.map (rearm_cycle at) o)
rearmed-IsThere at e old none h = h
rearmed-IsThere at e old (some mid) (started, handled, retry, key, named) = ground arith

claimed-IsThere :
    (at : ℕ) (e : String) (old : RuntimeCycle) (o : Option RuntimeCycle)
    → IsThere at e old o
    → IsThere at e old (Option.map claim o)
claimed-IsThere at e old none h = h
claimed-IsThere at e old (some x) h = record {
  started_at = h.started_at;
  stable_key = h.stable_key;
  entity_id = h.entity_id;
  retry_at = h.retry_at;
}

Claims-IsThere :
    (at : ℕ) (e k : String) (old : RuntimeCycle) (d d' : Dict RuntimeCycle)
    → Claims d d'
    → IsThere at e old (get k d)
    → IsThere at e old (get k d')
Claims-IsThere at e k old d d' (inl same) h = subst (λ d. IsThere at e old (get k d)) (sym same) h
Claims-IsThere at e k old d d' (inr same) h =
    subst (IsThere at e old) (sym (ap (get k) same ∙ get-map_values claim k d))
      (claimed-IsThere at e old (get k d) h)

save-cycles :
    (dt : DatetimeText) (force ok : Bool) (c : Controller)
    → (save dt force ok c).controller.cycles ≡ c.cycles
unfolding save
save-cycles dt force ok c = ground arith

-- `_async_started` before the states are read.
abbrev pub begun : Controller → Controller
begun c = record c { unsub_started = false; starting = false }

module _ (dt : DatetimeText) (w : Reading) (c : Controller) where
  abbrev armed : Controller
  armed = (rearm_interrupted w.now (sync_cycles w.hass w.sync_now none (begun c))).controller

  async_started-cycles :
      c.starting ≡ true
      → c.unloaded ≡ false
      → (async_started dt w c).controller.cycles
        ≡ (reconcile w.hass w.now w.stamp armed).controller.cycles
  unfolding async_started
  async_started-cycles starting loaded =
      let saved =
        save-cycles dt true w.store_ok (reconcile w.hass w.now w.stamp armed).controller in
      ground (arith, saved)

  sync-config : (sync_cycles w.hass w.sync_now none (begun c)).config ≡ c.config
  unfolding sync_cycles
  sync-config = refl

  -- When Home Assistant has started, the clock of an entity of the rule that is tracked under its
  -- key, passes the identity checks and is not reported `off` goes on from its start, and has a retry
  -- one interval later if an execution had claimed it.
  pub async_started-IsThere :
      (k e : String) (old : RuntimeCycle)
      → c.starting ≡ true
      → c.unloaded ≡ false
      → c.config.retry_interval_seconds ≢ 0
      → Tracks (begun c) k e
      → get k c.cycles ≡ some old
      → identity_or_area_error (begun c) w.hass e ≡ none
      → ¬ IsOff (observed w.hass none e)
      → IsThere
          (w.now + c.config.retry_interval_seconds)
          e
          old
          (get k (async_started dt w c).controller.cycles)
  async_started-IsThere k e old starting loaded positive track here ok on =
      let at = w.now + c.config.retry_interval_seconds in
      let synced = sync_cycles w.hass w.sync_now none (begun c) in
      let goes = sync_cycles-GoesOn w.hass w.sync_now none (begun c) k e old track here ok on in
      let there = rearmed-IsThere at e old (get k synced.cycles) goes in
      let rearmed =
        get-rearm_interrupted w.now c.config.retry_interval_seconds synced k
          (ap RuleConfig.retry_interval_seconds sync-config) positive in
      let after =
        Claims-IsThere at e k old armed.cycles
          (reconcile w.hass w.now w.stamp armed).controller.cycles
          (reconcile-Claims w.hass w.now w.stamp armed)
          (subst (IsThere at e old) (sym rearmed) there) in
      subst (λ d. IsThere at e old (get k d)) (sym (async_started-cycles starting loaded)) after
