-- ===== src/Core/Conditions/Laws.antt =====
-- One condition for each type, and what a reader finds after a write.
use environments.Common.{
  ℕ, String, ◌≡◌, refl, false, Option, none, some, List, [], ◌∷◌, ◌==◌, if◌then◌else◌, arith,
  eq_iff, length, ◌≤◌,
}
use environments.Core.Conditions.{
  Condition, set_condition, get_condition, has_condition, merge_condition, remove_condition,
}

-- No two conditions have one type.
abbrev pub Unique : List Condition → Type 0
Unique [] = Unit
Unique (c ∷ cs) = (get_condition cs c.kind ≡ none) × Unique cs

get_condition-nil : (kind : String) → get_condition [] kind ≡ none
unfolding get_condition
get_condition-nil kind = refl

module _ (kind status reason message : String) (now : ℕ) where
  -- the condition that a reader of `kind` finds after SetCondition
  abbrev pub written : Option Condition → Condition
  written none = record {
    kind = kind;
    status = status;
    observed_generation = 0;
    last_transition_time = now;
    reason = reason;
    message = message;
  }
  written (some c) = record c {
    status = status;
    reason = reason;
    message = message;
    last_transition_time = now;
  }

  pub get-set_condition :
      (cs : List Condition) (k : String)
      → get_condition (set_condition kind status reason message now cs) k
        ≡ (if kind == k then some (written (get_condition cs kind)) else get_condition cs k)
  unfolding get_condition set_condition
  get-set_condition [] k = refl
  get-set_condition (c ∷ cs) k =
      ground (arith, eq_iff c.kind kind, eq_iff c.kind k, eq_iff kind k, get-set_condition cs k)

  set_condition-Unique :
      (cs : List Condition) → Unique cs → Unique (set_condition kind status reason message now cs)
  unfolding set_condition
  set_condition-Unique [] u = (get_condition-nil kind, tt)
  set_condition-Unique (c ∷ cs) u = ground (
    arith,
    eq_iff kind c.kind,
    eq_iff c.kind kind,
    get-set_condition cs c.kind,
    set_condition-Unique cs,
  )

pub get-merge_condition :
    (cs : List Condition) (new : Condition) (k : String)
    → get_condition (merge_condition cs new) k
      ≡ (if new.kind == k then some new else get_condition cs k)
unfolding get_condition merge_condition
get-merge_condition [] new k = refl
get-merge_condition (c ∷ cs) new k = ground (
  arith,
  eq_iff c.kind new.kind,
  eq_iff c.kind k,
  eq_iff new.kind k,
  get-merge_condition cs new k,
)

pub get-remove_condition :
    (cs : List Condition) (kind k : String)
    → get_condition (remove_condition cs kind) k ≡ (if kind == k then none else get_condition cs k)
unfolding get_condition remove_condition
get-remove_condition [] kind k = ground arith
get-remove_condition (c ∷ cs) kind k =
    ground
      (arith, eq_iff c.kind kind, eq_iff c.kind k, eq_iff kind k, get-remove_condition cs kind k)

pub merge_condition-Unique :
    (cs : List Condition) (new : Condition) → Unique cs → Unique (merge_condition cs new)
unfolding merge_condition
merge_condition-Unique [] new u = (get_condition-nil new.kind, tt)
merge_condition-Unique (c ∷ cs) new u = ground (
  arith,
  eq_iff new.kind c.kind,
  eq_iff c.kind new.kind,
  get-merge_condition cs new c.kind,
  merge_condition-Unique cs new,
)

-- With one condition for each type, `has` asks for the status of the one that `get` finds.
has-get_condition :
    (cs : List Condition) (kind status : String)
    → Unique cs
    → has_condition cs kind status
      ≡ (elim (get_condition cs kind) [ none ↦ false | some c ↦ c.status == status ])
unfolding has_condition get_condition
has-get_condition [] kind status u = refl
has-get_condition (c ∷ cs) kind status u =
    ground (arith, eq_iff c.kind kind, has-get_condition cs kind status u.1, u.0)

pub remove_condition-Unique :
    (cs : List Condition) (kind : String) → Unique cs → Unique (remove_condition cs kind)
unfolding remove_condition
remove_condition-Unique [] kind u = tt
remove_condition-Unique (c ∷ cs) kind u = ground (
  arith,
  eq_iff kind c.kind,
  eq_iff c.kind kind,
  get-remove_condition cs kind c.kind,
  remove_condition-Unique cs kind,
)

length-remove_condition :
    (cs : List Condition) (kind : String) → length (remove_condition cs kind) ≤ length cs
unfolding remove_condition
length-remove_condition [] kind = omega arith
length-remove_condition (c ∷ cs) kind = ground (arith, length-remove_condition cs kind)

-- Nothing was removed if the length is the same.
pub remove_condition-same :
    (cs : List Condition) (kind : String)
    → length (remove_condition cs kind) ≡ length cs
    → remove_condition cs kind ≡ cs
unfolding remove_condition
remove_condition-same [] kind h = refl
remove_condition-same (c ∷ cs) kind h =
    ground (arith, length-remove_condition cs kind, remove_condition-same cs kind)

written-status :
    (kind status reason message : String) (now : ℕ) (o : Option Condition)
    → (written kind status reason message now o).status ≡ status
written-status kind status reason message now none = refl
written-status kind status reason message now (some c) = refl

has-set :
    (kind status reason message : String) (now : ℕ) (cs : List Condition) (k st : String)
    → Unique cs
    → Unique (set_condition kind status reason message now cs)
    → has_condition (set_condition kind status reason message now cs) k st
      ≡ (if kind == k then status == st else has_condition cs k st)
has-set kind status reason message now cs k st u v = ground (
  arith,
  has-get_condition (set_condition kind status reason message now cs) k st v,
  get-set_condition kind status reason message now cs k,
  has-get_condition cs k st u,
  written-status kind status reason message now (get_condition cs kind),
)

-- SetCondition on conditions with no type twice: no type stands twice afterwards. The type that was
-- set reads as written, keeping the observed generation of an earlier condition, and has exactly the
-- status that was set; every other type reads as before, by type and by status.
pub set_condition_lem :
    (kind status reason message : String) (now : ℕ) (cs : List Condition) (k st : String)
    → Unique cs
    → let after = set_condition kind status reason message now cs in
      Unique after
      × (get_condition after k ≡ (
          if kind == k
          then some (written kind status reason message now (get_condition cs kind))
          else get_condition cs k))
      × (has_condition after k st ≡ (if kind == k then status == st else has_condition cs k st))
set_condition_lem kind status reason message now cs k st u =
    let unique = set_condition-Unique kind status reason message now cs u in
    let reads = get-set_condition kind status reason message now cs k in
    (unique, reads, has-set kind status reason message now cs k st u unique)
