-- ===== src/Sensors/Notified.antt =====
-- The entities of a rule follow its controller: what they show does not change without their being
-- told.
use mathlib.Core.List.{Memᴰ}
use ha_runtime_auto_off.Prelude.{
  ℕ, String, ◌≡◌, ◌⊎◌, refl, subst, Bool, true, false, Option, List, [], ◌∷◌, ◌++◌, arith, str_eq,
  Bool-cases, inl, inr,
}
use ha_runtime_auto_off.Models.Values.{DatetimeText, Fields}
use ha_runtime_auto_off.Controller.{Controller, ExecutionPlan}
use ha_runtime_auto_off.Controller.Sync.{StateEvent}
use ha_runtime_auto_off.Controller.Execute.{Tally}
use ha_runtime_auto_off.Controller.Finish.{finish_execution}
use ha_runtime_auto_off.Controller.Handlers.{
  Effect, notify, publish, store, Outcome, Reading, setup_end, setup_running, setup_starting,
  setup_until_execution, async_started, resume_begin, resume_end, resume_until_execution,
}
use ha_runtime_auto_off.Controller.Events.{
  inhibit, set_enabled_locked, async_set_enabled, state_changed_starting, state_changed_running,
  async_state_changed, async_deadline_reached,
}
use ha_runtime_auto_off.Sensors.{shown, async_turn_on, async_turn_off}
use ha_runtime_auto_off.Sensors.Listeners.{
  Subscribers, wrote, controller_updated, notify_state_listeners, publish_activity, deliver,
}

-- The state listeners are called.
abbrev is_told : List Effect → Bool
is_told [] = false
is_told (notify ∷ es) = true
is_told (e ∷ es) = is_told es

-- The method raises, or leaves what is shown, or calls the state listeners.
abbrev Tells : Controller → Outcome → Type 0
Tells c o = (o.raised ≡ true) ⊎ (shown o.controller ≡ shown c) ⊎ (is_told o.effects ≡ true)

module _ (dt : DatetimeText) (w : Reading) (c : Controller) where
  state_changed-Tells : (event : StateEvent) → Tells c (async_state_changed dt w event c)
  unfolding async_state_changed state_changed_starting state_changed_running
  state_changed-Tells event = ground arith

  deadline_reached-Tells : (generation : ℕ) → Tells c (async_deadline_reached dt generation w c)
  unfolding async_deadline_reached
  deadline_reached-Tells generation = ground arith

  turned_on-Tells : Tells c (async_turn_on dt w c)
  unfolding async_turn_on async_set_enabled set_enabled_locked inhibit shown
  turned_on-Tells = ground arith

  turned_off-Tells : Tells c (async_turn_off dt w c)
  unfolding async_turn_off async_set_enabled set_enabled_locked inhibit shown
  turned_off-Tells = ground arith

  started-Tells : Tells c (async_started dt w c)
  unfolding async_started shown
  started-Tells = ground arith

  resume-Tells : (at : ℕ) → Tells c (resume_until_execution dt at w c)
  unfolding resume_until_execution resume_begin resume_end shown
  resume-Tells at = ground arith

  setup-Tells :
      (at : ℕ) (stored : Option (Option Fields)) → Tells c (setup_until_execution dt stored at w c)
  unfolding setup_until_execution setup_running setup_starting setup_end
  setup-Tells at stored = ground arith

  finish-Tells :
      (stamp : ℕ) (plan : ExecutionPlan) (t : Tally)
      → Tells c (finish_execution dt w stamp plan t c)
  unfolding finish_execution
  finish-Tells stamp plan t = ground arith

mem_left : {A : Type 0} (x : A) (xs ys : List A) → Memᴰ x xs → Memᴰ x (xs ++ ys)
mem_left x [] ys m = elim m [ ]
mem_left x (z ∷ zs) ys (Memᴰ.head same) = Memᴰ.head same
mem_left x (z ∷ zs) ys (Memᴰ.tail m) = Memᴰ.tail (mem_left x zs ys m)

mem_right : {A : Type 0} (x : A) (xs ys : List A) → Memᴰ x ys → Memᴰ x (xs ++ ys)
mem_right x [] ys m = m
mem_right x (z ∷ zs) ys m = Memᴰ.tail (mem_right x zs ys m)

-- The entity `l` listens to the controller, raises no exception, and is not the activity entity.
pub record Listens (broken : String → Bool) (s : Subscribers) (l : String) : Type 0 where
  pub registered : Memᴰ l s.state_listeners
  pub works : broken l ≡ false
  pub writes : str_eq l "activity" ≡ false

notified_wrote :
    (broken : String → Bool) (l : String) (ls : List String)
    → broken l ≡ false
    → str_eq l "activity" ≡ false
    → Memᴰ l ls
    → Memᴰ (wrote l) (notify_state_listeners broken ls)
unfolding notify_state_listeners
notified_wrote broken l [] works writes m = elim m [ ]
notified_wrote broken l (x ∷ xs) works writes (Memᴰ.head same) =
    subst (λ y. Memᴰ (wrote l) (notify_state_listeners broken (y ∷ xs))) same
      (rw (works, writes) (Memᴰ.head refl))
notified_wrote broken l (x ∷ xs) works writes (Memᴰ.tail m) = elim (Bool-cases (broken x)) [
  | inl fails ↦ rw fails (notified_wrote broken l xs works writes m)
  | inr fine ↦ rw fine (
      mem_right (wrote l) (controller_updated x) (notify_state_listeners broken xs)
        (notified_wrote broken l xs works writes m))
]

module _ (dt : DatetimeText) (broken : String → Bool) (s : Subscribers) (l : String) where
  -- The method raises, or leaves what is shown, or the entity writes its state.
  abbrev pub Follows : Controller → Outcome → Type 0
  Follows c o =
      (o.raised ≡ true)
      ⊎ (shown o.controller ≡ shown c)
      ⊎ Memᴰ (wrote l) (deliver dt broken o.controller s o.effects)

module _ (dt : DatetimeText) (broken : String → Bool) (s : Subscribers) (l : String)
    (listens : Listens broken s l) where
  delivered_wrote :
      (c : Controller) (es : List Effect)
      → is_told es ≡ true
      → Memᴰ (wrote l) (deliver dt broken c s es)
  unfolding deliver
  delivered_wrote c [] h = absurd (ground arith)
  delivered_wrote c (notify ∷ es) h =
      mem_left (wrote l) (notify_state_listeners broken s.state_listeners)
        (deliver dt broken c s es)
        (notified_wrote broken l s.state_listeners listens.works listens.writes listens.registered)
  delivered_wrote c (publish a ∷ es) h =
      mem_right (wrote l) (publish_activity dt broken c a s.activity_listeners)
        (deliver dt broken c s es) (delivered_wrote c es h)
  delivered_wrote c (store v ∷ es) h = delivered_wrote c es h

  Tells-Follows : (c : Controller) (o : Outcome) → Tells c o → Follows dt broken s l c o
  Tells-Follows c o (inl raised) = inl raised
  Tells-Follows c o (inr (inl same)) = inr (inl same)
  Tells-Follows c o (inr (inr told)) = inr (inr (delivered_wrote o.controller o.effects told))

  -- What the entities show is up to date. Whatever a method does (the setup, the start of Home
  -- Assistant, a change of a state, the timer, the switch, a resumption, or the end of an
  -- execution): if it raises no exception and changes what the sensors, the binary sensor and the
  -- switch show, then an entity that listens writes its state, also where the listeners of other
  -- entities raise exceptions.
  pub entities_follow :
      (w : Reading) (c : Controller) (stored : Option (Option Fields)) (event : StateEvent)
      (generation at stamp : ℕ) (plan : ExecutionPlan) (t : Tally)
      → Follows dt broken s l c (setup_until_execution dt stored at w c)
        × Follows dt broken s l c (async_started dt w c)
        × Follows dt broken s l c (async_state_changed dt w event c)
        × Follows dt broken s l c (async_deadline_reached dt generation w c)
        × Follows dt broken s l c (async_turn_on dt w c)
        × Follows dt broken s l c (async_turn_off dt w c)
        × Follows dt broken s l c (resume_until_execution dt at w c)
        × Follows dt broken s l c (finish_execution dt w stamp plan t c)
  entities_follow w c stored event generation at stamp plan t = (
    Tells-Follows c (setup_until_execution dt stored at w c) (setup-Tells dt w c at stored),
    Tells-Follows c (async_started dt w c) (started-Tells dt w c),
    Tells-Follows c (async_state_changed dt w event c) (state_changed-Tells dt w c event),
    Tells-Follows c (async_deadline_reached dt generation w c)
        (deadline_reached-Tells dt w c generation),
    Tells-Follows c (async_turn_on dt w c) (turned_on-Tells dt w c),
    Tells-Follows c (async_turn_off dt w c) (turned_off-Tells dt w c),
    Tells-Follows c (resume_until_execution dt at w c) (resume-Tells dt w c at),
    Tells-Follows c (finish_execution dt w stamp plan t c) (finish-Tells dt w c stamp plan t),
  )
