-- ===== src/Controller/Framed.antt =====
-- What the methods of controller.py under the lock leave alone: whether the rule is enabled,
-- inhibited, unloaded and set up, and its subscriptions.
use ha_runtime_auto_off.Prelude.{ℕ, ◌≡◌, ◌∙◌, Bool, none, Option, List, [], ◌∷◌, arith}
use ha_runtime_auto_off.Hass.{Hass}
use ha_runtime_auto_off.Models.{RuntimeCycle}
use ha_runtime_auto_off.Models.Values.{DatetimeText}
use ha_runtime_auto_off.Controller.{Controller}
use ha_runtime_auto_off.Controller.Deadline.{cancel_deadline, schedule_deadline}
use ha_runtime_auto_off.Controller.Sync.{StateEvent, sync_cycles}
use ha_runtime_auto_off.Controller.Rearm.{rearm_interrupted}
use ha_runtime_auto_off.Controller.Reconcile.{
  pending, trigger_of, count_down, claim_due, reconcile_pending, reconcile,
}
use ha_runtime_auto_off.Controller.Save.{save}
use ha_runtime_auto_off.Controller.Handlers.{resume_armed}

-- What the methods under the lock leave alone.
pub record IsFramed (c d : Controller) : Type 0 where
  pub enabled : d.enabled ≡ c.enabled
  pub inhibited : d.action_inhibited ≡ c.action_inhibited
  pub unloaded : d.unloaded ≡ c.unloaded
  pub state : d.unsub_state ≡ c.unsub_state
  pub started : d.unsub_started ≡ c.unsub_started
  pub complete : d.setup_complete ≡ c.setup_complete

count_down-IsFramed :
    (stamp : ℕ) (t : RuntimeCycle) (c : Controller) → IsFramed c (count_down stamp t c).controller
unfolding count_down schedule_deadline cancel_deadline
count_down-IsFramed stamp t c = ground arith

reconcile_pending-IsFramed :
    (now stamp : ℕ) (ps : List RuntimeCycle) (c : Controller)
    → IsFramed c (reconcile_pending now stamp ps c).controller
unfolding reconcile_pending claim_due cancel_deadline
reconcile_pending-IsFramed now stamp [] c = ground arith
reconcile_pending-IsFramed now stamp (p ∷ ps) c =
    ground (arith, count_down-IsFramed stamp (trigger_of c.config p ps) c)

pub reconcile-IsFramed :
    (hass : Hass) (now stamp : ℕ) (c : Controller)
    → IsFramed c (reconcile hass now stamp c).controller
unfolding reconcile cancel_deadline
reconcile-IsFramed hass now stamp c =
    ground (arith, reconcile_pending-IsFramed now stamp (pending c) c)

pub sync_cycles-IsFramed :
    (hass : Hass) (now : ℕ) (event : Option StateEvent) (c : Controller)
    → IsFramed c (sync_cycles hass now event c)
unfolding sync_cycles
sync_cycles-IsFramed hass now event c = ground arith

pub rearm_interrupted-IsFramed :
    (now : ℕ) (c : Controller) → IsFramed c (rearm_interrupted now c).controller
unfolding rearm_interrupted
rearm_interrupted-IsFramed now c = ground arith

pub armed-IsFramed :
    (now at : ℕ) (hass : Hass) (c : Controller)
    → IsFramed c (resume_armed now (sync_cycles hass at none c))
unfolding resume_armed sync_cycles rearm_interrupted
armed-IsFramed now at hass c = ground arith

pub IsFramed-trans : {c d e : Controller} → IsFramed c d → IsFramed d e → IsFramed c e
IsFramed-trans h g = record {
  enabled = g.enabled ∙ h.enabled;
  inhibited = g.inhibited ∙ h.inhibited;
  unloaded = g.unloaded ∙ h.unloaded;
  state = g.state ∙ h.state;
  started = g.started ∙ h.started;
  complete = g.complete ∙ h.complete;
}

pub save-IsFramed :
    (dt : DatetimeText) (force store_ok : Bool) (c : Controller)
    → IsFramed c (save dt force store_ok c).controller
unfolding save
save-IsFramed dt force store_ok c = ground arith
