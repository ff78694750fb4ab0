-- ===== src/Controller/Reconcile/Trigger.antt =====
-- Which cycle `_reconcile_locked` takes for its trigger.
use mathlib.Core.List.{Memᴰ}
use ha_runtime_auto_off.Prelude.{
  ℕ, ◌≤◌, ◌≡◌, refl, sym, Bool, true, false, List, [], ◌∷◌, arith, All, filter, mem-filter,
  filter-mem, All_at, subst, str_le_refl, str_le_total, str_le_trans, if◌then◌else◌,
}
use ha_runtime_auto_off.Models.{RuntimeCycle, RuleConfig, TriggerPolicy, deadline}
use ha_runtime_auto_off.Controller.Reconcile.{
  before, min_cycle, max_cycle, is_retry_pending, choose_trigger, trigger_of,
}

before_trans :
    (delay : ℕ) (a b c : RuntimeCycle)
    → before delay b a ≡ false
    → before delay c b ≡ false
    → before delay c a ≡ false
unfolding before
before_trans delay a b c h k = ground (
  arith,
  str_le_trans a.stable_key b.stable_key c.stable_key,
  str_le_total a.stable_key b.stable_key,
  str_le_total b.stable_key c.stable_key,
)

before_asym : (delay : ℕ) (a b : RuntimeCycle) → before delay a b ≡ true → before delay b a ≡ false
unfolding before
before_asym delay a b h = ground (arith, str_le_total a.stable_key b.stable_key)

before_irrefl : (delay : ℕ) (a : RuntimeCycle) → before delay a a ≡ false
unfolding before
before_irrefl delay a = ground (arith, str_le_refl a.stable_key)

-- Nothing in the list stands before `t`; nothing stands behind it.
abbrev pub NoneBefore : ℕ → RuntimeCycle → List RuntimeCycle → Type 0
NoneBefore delay t = All (λ c. before delay c t ≡ false)

abbrev pub NoneAfter : ℕ → RuntimeCycle → List RuntimeCycle → Type 0
NoneAfter delay t = All (λ c. before delay t c ≡ false)

-- `m` is `best` or in the list, and neither `best` nor a cycle of the list beats it.
abbrev pub IsMin : ℕ → RuntimeCycle → List RuntimeCycle → RuntimeCycle → Type 0
IsMin delay best cs m = Memᴰ m (best ∷ cs) × (before delay best m ≡ false) × NoneBefore delay m cs

abbrev pub IsMax : ℕ → RuntimeCycle → List RuntimeCycle → RuntimeCycle → Type 0
IsMax delay best cs m = Memᴰ m (best ∷ cs) × (before delay m best ≡ false) × NoneAfter delay m cs

mem_skip : (m x y : RuntimeCycle) (cs : List RuntimeCycle) → Memᴰ m (x ∷ cs) → Memᴰ m (x ∷ y ∷ cs)
mem_skip m x y cs (Memᴰ.head e) = Memᴰ.head e
mem_skip m x y cs (Memᴰ.tail t) = Memᴰ.tail (Memᴰ.tail t)

module _ (delay : ℕ) (best c : RuntimeCycle) (cs : List RuntimeCycle) where
  min_cycle-step :
      (b : Bool)
      → before delay c best ≡ b
      → ((x : RuntimeCycle) → IsMin delay x cs (min_cycle delay x cs))
      → IsMin delay best (c ∷ cs) (min_cycle delay (if b then c else best) cs)
  min_cycle-step true less ih =
      let (m, first, rest) = ih c in
      (
        Memᴰ.tail m,
        before_trans delay (min_cycle delay c cs) c best first (before_asym delay c best less),
        (first, rest),
      )
  min_cycle-step false more ih =
      let (m, first, rest) = ih best in
      (
        mem_skip (min_cycle delay best cs) best c cs m,
        first,
        (before_trans delay (min_cycle delay best cs) best c first more, rest),
      )

  max_cycle-step :
      (b : Bool)
      → before delay best c ≡ b
      → ((x : RuntimeCycle) → IsMax delay x cs (max_cycle delay x cs))
      → IsMax delay best (c ∷ cs) (max_cycle delay (if b then c else best) cs)
  max_cycle-step true less ih =
      let (m, first, rest) = ih c in
      (
        Memᴰ.tail m,
        before_trans delay best c (max_cycle delay c cs) (before_asym delay best c less) first,
        (first, rest),
      )
  max_cycle-step false more ih =
      let (m, first, rest) = ih best in
      (
        mem_skip (max_cycle delay best cs) best c cs m,
        first,
        (before_trans delay c best (max_cycle delay best cs) more first, rest),
      )

min_cycle-IsMin :
    (delay : ℕ) (best : RuntimeCycle) (cs : List RuntimeCycle)
    → IsMin delay best cs (min_cycle delay best cs)
unfolding min_cycle
min_cycle-IsMin delay best [] = (Memᴰ.head refl, before_irrefl delay best, tt)
min_cycle-IsMin delay best (c ∷ cs) =
    min_cycle-step delay best c cs (before delay c best) refl (λ x. min_cycle-IsMin delay x cs)

max_cycle-IsMax :
    (delay : ℕ) (best : RuntimeCycle) (cs : List RuntimeCycle)
    → IsMax delay best cs (max_cycle delay best cs)
unfolding max_cycle
max_cycle-IsMax delay best [] = (Memᴰ.head refl, before_irrefl delay best, tt)
max_cycle-IsMax delay best (c ∷ cs) =
    max_cycle-step delay best c cs (before delay best c) refl (λ x. max_cycle-IsMax delay x cs)

-- `t` comes no later than `c` under the policy FIRST, and no earlier under LAST.
abbrev pub InOrder : TriggerPolicy → ℕ → RuntimeCycle → RuntimeCycle → Type 0
InOrder TriggerPolicy.first delay t c = before delay c t ≡ false
InOrder TriggerPolicy.last delay t c = before delay t c ≡ false

-- What a trigger `t` of the pending cycles is. While a retry is pending, `t` is a retry and no
-- other retry comes before it; otherwise it is the first or the last by the rule's policy.
pub record IsTrigger (config : RuleConfig) (pending : List RuntimeCycle) (t : RuntimeCycle)
    : Type 0 where
  pub member : Memᴰ t pending
  pub retries_first :
      (c : RuntimeCycle)
      → Memᴰ c pending
      → is_retry_pending c ≡ true
      → (is_retry_pending t ≡ true) × (before config.delay_seconds c t ≡ false)
  pub by_policy :
      (c : RuntimeCycle)
      → Memᴰ c pending
      → is_retry_pending t ≡ false
      → InOrder config.trigger_policy config.delay_seconds t c

module _ (config : RuleConfig) (p : RuntimeCycle) (ps : List RuntimeCycle) where
  retry-IsTrigger :
      (r : RuntimeCycle) (rs : List RuntimeCycle)
      → r ∷ rs ≡ filter is_retry_pending (p ∷ ps)
      → IsTrigger config (p ∷ ps) (min_cycle config.delay_seconds r rs)
  retry-IsTrigger r rs same =
      let t = min_cycle config.delay_seconds r rs in
      let (m, first, rest) = min_cycle-IsMin config.delay_seconds r rs in
      let (retry, member) = mem-filter is_retry_pending t (p ∷ ps) (subst (Memᴰ t) same m) in
      record {
        member = member;
        retries_first = λ c m' e. (
          retry,
          All_at (λ x. before config.delay_seconds x t ≡ false) c (r ∷ rs) (first, rest)
              (subst (Memᴰ c) (sym same) (filter-mem is_retry_pending c (p ∷ ps) e m')),
        );
        by_policy = λ c m' e. absurd (cc (retry, e));
      }

  no_retry :
      (c t : RuntimeCycle)
      → [] ≡ filter is_retry_pending (p ∷ ps)
      → Memᴰ c (p ∷ ps)
      → is_retry_pending c ≡ true
      → (is_retry_pending t ≡ true) × (before config.delay_seconds c t ≡ false)
  no_retry c t none_left m e =
      elim (subst (Memᴰ c) (sym none_left) (filter-mem is_retry_pending c (p ∷ ps) e m)) [ ]

  choose_trigger-IsTrigger :
      (policy : TriggerPolicy) (rs : List RuntimeCycle)
      → policy ≡ config.trigger_policy
      → rs ≡ filter is_retry_pending (p ∷ ps)
      → IsTrigger config (p ∷ ps) (choose_trigger config.delay_seconds policy rs p ps)
  choose_trigger-IsTrigger TriggerPolicy.first (r ∷ rs) same rest = retry-IsTrigger r rs rest
  choose_trigger-IsTrigger TriggerPolicy.last (r ∷ rs) same rest = retry-IsTrigger r rs rest
  choose_trigger-IsTrigger TriggerPolicy.first [] same rest =
      let t = min_cycle config.delay_seconds p ps in
      let (m, least, others) = min_cycle-IsMin config.delay_seconds p ps in
      record {
        member = m;
        retries_first = λ c m' e. no_retry c t rest m' e;
        by_policy = λ c m' e.
            subst (λ q. InOrder q config.delay_seconds t c) same
              (All_at (λ x. before config.delay_seconds x t ≡ false) c (p ∷ ps) (least, others) m');
      }
  choose_trigger-IsTrigger TriggerPolicy.last [] same rest =
      let t = max_cycle config.delay_seconds p ps in
      let (m, greatest, others) = max_cycle-IsMax config.delay_seconds p ps in
      record {
        member = m;
        retries_first = λ c m' e. no_retry c t rest m' e;
        by_policy = λ c m' e.
            subst (λ q. InOrder q config.delay_seconds t c) same
              (All_at (λ x. before config.delay_seconds t x ≡ false) c (p ∷ ps) (greatest, others)
                m');
      }

  -- Among the pending cycles the trigger is a retry that no other retry precedes, if any retry is
  -- pending, and else the first or the last by deadline and key, as the policy says.
  pub trigger_of-IsTrigger : IsTrigger config (p ∷ ps) (trigger_of config p ps)
  unfolding trigger_of
  trigger_of-IsTrigger =
      choose_trigger-IsTrigger config.trigger_policy (filter is_retry_pending (p ∷ ps)) refl refl

-- The order of cycles is first of all the order of their deadlines.
pub before-le :
    (delay : ℕ) (c t : RuntimeCycle)
    → before delay c t ≡ false
    → deadline delay t ≤ deadline delay c
unfolding before
before-le delay c t h = ground arith
