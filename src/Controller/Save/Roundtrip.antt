-- ===== src/Controller/Save/Roundtrip.antt =====
-- What is saved is restored by the next start.
use ha_runtime_auto_off.Prelude.{
  ℕ, String, ◌≡◌, refl, ap, ◌∙◌, true, false, Option, none, some, List, [], ◌∷◌, All, Dict, get,
  put, get-put, values, str_eq, str_eq_iff, str_lt, str_le, str_le_refl, arith, if◌then◌else◌,
  Bool-cases, inl, inr,
}
use ha_runtime_auto_off.Models.{RuntimeCycle, LastExecution}
use ha_runtime_auto_off.Models.Values.{Value, object, get_field, DatetimeText}
use ha_runtime_auto_off.Models.Cycle.{IsClean, ReadsBack, cycle_from_dict-cycle_as_dict}
use ha_runtime_auto_off.Models.Execution.Roundtrip.{IsTidy, execution_from_dict-execution_as_dict}
use ha_runtime_auto_off.Controller.{Controller}
use ha_runtime_auto_off.Controller.Sync.Keys.{IsKeyed}
use ha_runtime_auto_off.Controller.Save.{
  insert_cycle, sort_cycles, cycle_items, execution_value, payload, add_cycle, restored_items,
  restored_execution, restore,
}

-- The last cycle of the list with the key `k`, or else `found`.
unfoldable last_of : String → List RuntimeCycle → Option RuntimeCycle → Option RuntimeCycle
last_of k [] found = found
last_of k (c ∷ cs) found = last_of k cs (if str_eq c.stable_key k then some c else found)

lt-apart : (s t : String) → str_lt s t ≡ true → str_eq s t ≡ false
lt-apart s t h = elim (Bool-cases (str_eq s t)) [
  | inl same ↦
      absurd
        (let e = ap (λ x. str_le x s) ((str_eq_iff s t).0 same) in ground (arith, e, str_le_refl s))
  | inr apart ↦ apart
]

swapped :
    (k : String) (c d : RuntimeCycle) (found : Option RuntimeCycle)
    → str_eq d.stable_key c.stable_key ≡ false
    → (if str_eq c.stable_key k then some c else if str_eq d.stable_key k then some d else found)
      ≡ (if str_eq d.stable_key k then some d else if str_eq c.stable_key k then some c else found)
swapped k c d found apart = ground (
  arith,
  str_eq_iff c.stable_key k,
  str_eq_iff d.stable_key k,
  str_eq_iff d.stable_key c.stable_key,
)

-- Inserting changes the order of cycles with different keys only.
last_of-insert :
    (k : String) (c : RuntimeCycle) (cs : List RuntimeCycle) (found : Option RuntimeCycle)
    → last_of k (insert_cycle c cs) found ≡ last_of k (c ∷ cs) found
unfolding last_of insert_cycle
last_of-insert k c [] found = refl
last_of-insert k c (d ∷ ds) found = elim (Bool-cases (str_lt d.stable_key c.stable_key)) [
  | inl less ↦ rw less (
      last_of-insert k c ds (if str_eq d.stable_key k then some d else found)
      ∙ ap (last_of k ds) (swapped k c d found (lt-apart d.stable_key c.stable_key less)))
  | inr more ↦ rw more refl
]

last_of-sort :
    (k : String) (cs : List RuntimeCycle) (found : Option RuntimeCycle)
    → last_of k (sort_cycles cs) found ≡ last_of k cs found
unfolding sort_cycles last_of
last_of-sort k [] found = refl
last_of-sort k (c ∷ cs) found =
    last_of-insert k c (sort_cycles cs) found
    ∙ last_of-sort k cs (if str_eq c.stable_key k then some c else found)

last_of_absent :
    (k : String) (d : Dict RuntimeCycle) (found : Option RuntimeCycle)
    → IsKeyed d
    → get k d ≡ none
    → last_of k (values d) found ≡ found
unfolding last_of values get
last_of_absent k [] found h gone = refl
last_of_absent k ((j, c) ∷ d) found (same, new, rest) gone =
    ground (arith, last_of_absent k d found rest)

last_of-values :
    (k : String) (d : Dict RuntimeCycle) → IsKeyed d → last_of k (values d) none ≡ get k d
unfolding last_of values get
last_of-values k [] h = refl
last_of-values k ((j, c) ∷ d) (same, new, rest) = elim (Bool-cases (str_eq j k)) [
  | inl here ↦ ground (arith, str_eq_iff j k, last_of_absent k d (some c) rest)
  | inr other ↦ ground (arith, last_of-values k d rest)
]

-- The texts of a cycle are clean.
abbrev pub IsCleanCycle : RuntimeCycle → Type 0
IsCleanCycle c = IsClean c.stable_key × IsClean c.entity_id

insert-All :
    (P : RuntimeCycle → Type 0) (c : RuntimeCycle) (cs : List RuntimeCycle)
    → P c
    → All P cs
    → All P (insert_cycle c cs)
unfolding insert_cycle
insert-All P c [] h hs = (h, tt)
insert-All P c (d ∷ ds) h (hd, hs) = elim (Bool-cases (str_lt d.stable_key c.stable_key)) [
  | inl less ↦ rw less (hd, insert-All P c ds h hs)
  | inr more ↦ rw more (h, (hd, hs))
]

sort-All : (P : RuntimeCycle → Type 0) (cs : List RuntimeCycle) → All P cs → All P (sort_cycles cs)
unfolding sort_cycles
sort-All P [] h = tt
sort-All P (c ∷ cs) (h, hs) = insert-All P c (sort_cycles cs) h (sort-All P cs hs)

abbrev pub IsTidyOption : Option LastExecution → Type 0
IsTidyOption none = Unit
IsTidyOption (some e) = IsTidy e

module _ (dt : DatetimeText) (reads : (t : ℕ) → ReadsBack dt t) where
  get-restored_items :
      (k : String) (cs : List RuntimeCycle) (d : Dict RuntimeCycle)
      → All IsCleanCycle cs
      → get k (restored_items dt (cycle_items dt cs) d) ≡ last_of k cs (get k d)
  unfolding restored_items cycle_items last_of
  get-restored_items k [] d h = refl
  get-restored_items k (c ∷ cs) d ((key, entity), hs) =
      ap (λ o. get k (restored_items dt (cycle_items dt cs) (add_cycle dt o d)))
        (cycle_from_dict-cycle_as_dict dt reads c key entity)
      ∙ get-restored_items k cs (put c.stable_key c d) hs
      ∙ ap (last_of k cs) (get-put c.stable_key k c d)

  restored-cycles :
      (k : String) (d : Dict RuntimeCycle)
      → IsKeyed d
      → All IsCleanCycle (values d)
      → get k (restored_items dt (cycle_items dt (sort_cycles (values d))) []) ≡ get k d
  unfolding get
  restored-cycles k d h clean =
      get-restored_items k (sort_cycles (values d)) [] (sort-All IsCleanCycle (values d) clean)
      ∙ last_of-sort k (values d) none
      ∙ last_of-values k d h

  restored-execution :
      (e : Option LastExecution)
      → IsTidyOption e
      → restored_execution dt (execution_value dt e) none ≡ e
  restored-execution none h = refl
  restored-execution (some x) h = execution_from_dict-execution_as_dict dt x reads h

-- The texts of the saved parts are clean, and the cycles are keyed by their own keys.
pub record IsStorable (c : Controller) : Type 0 where
  pub keyed : IsKeyed c.cycles
  pub cycles : All IsCleanCycle (values c.cycles)
  pub execution : IsTidyOption c.last_execution

-- `restore` on a payload.
abbrev pub restore_value : DatetimeText → Value → Controller → Controller
restore_value dt (object fs) c = restore dt (some fs) c
restore_value dt _ c = c

-- What a controller saves, a controller with no cycles and no last execution restores: whether
-- the rule is enabled, its retry interval, the last execution, and under every key the same
-- cycle, claims and retries included. The cycles saved are keyed by their own keys, their texts
-- and those of the execution are clean, and times are read back as they are written.
pub restore-payload :
    (dt : DatetimeText) (c fresh : Controller) (k : String)
    → ((t : ℕ) → ReadsBack dt t)
    → IsStorable c
    → fresh.cycles ≡ []
    → fresh.last_execution ≡ none
    → ((restore_value dt (payload dt c) fresh).enabled ≡ c.enabled)
      × ((restore_value dt (payload dt c) fresh).stored_retry_interval
          ≡ some c.config.retry_interval_seconds)
      × ((restore_value dt (payload dt c) fresh).last_execution ≡ c.last_execution)
      × (get k (restore_value dt (payload dt c) fresh).cycles ≡ get k c.cycles)
unfolding restore payload get_field
restore-payload dt c fresh k reads h no_cycles no_execution = (
  refl,
  refl,
  ap (restored_execution dt (execution_value dt c.last_execution)) no_execution
      ∙ restored-execution dt reads c.last_execution h.execution,
  ap (λ d. get k (restored_items dt (cycle_items dt (sort_cycles (values c.cycles))) d)) no_cycles
      ∙ restored-cycles dt reads k c.cycles h.keyed h.cycles,
)
