-- ===== src/Store/Resources.antt =====
-- `recordKubernetesResource` and `markKubernetesResourceDeleted` of
-- apps/worker/src/workflow/db-adapter.ts: what is known of the objects that a run made in the cluster.
use code_host.Prelude.{
  ℕ, String, Bool, true, false, [], ◌∷◌, ◌++◌, Option, none, some, find?, any, update, str_eq,
  eq_refl, ◌==◌, ==-refl, ◌&&◌, if◌then◌else◌, ◌≡◌, ◌∙◌, refl, ap, arith, Option-cases, inl, inr,
  find?-update, find?-append, find?-none-any, find?-some-any, find?-holds,
}
use mathlib.Core.Option
use code_host.Database.Tables.{ResourcePhase, deleted, ResourceRow, World}
use code_host.Database.Effects.{Effect, pure, modify}
use code_host.Guard.Leases.{find?-update_self}

pub record ResourceKey : Type 0 where
  pub run_id : String
  pub attempt : ℕ
  pub step_key : String
  pub kind : String
  pub name : String

pub record ResourceInput : Type 0 where
  pub key : ResourceKey
  pub namespace : String
  pub uid : Option String
  pub phase : ResourcePhase

abbrev pub is_deleted : ResourcePhase → Bool
is_deleted deleted = true
is_deleted _ = false

abbrev pub is_resource : ResourceKey → ResourceRow → Bool
is_resource k r =
    str_eq r.run_id k.run_id
    && (r.attempt == k.attempt
        && (str_eq r.step_key k.step_key && (str_eq r.kind k.kind && str_eq r.name k.name)))

abbrev pub find_resource : ResourceKey → World → Option ResourceRow
find_resource k w = find? (is_resource k) w.k8s_resources

abbrev pub has_uid : String → Option String → Bool
has_uid uid none = false
has_uid uid (some u) = str_eq u uid

abbrev pub uid_of : Option String → Option String → Option String
uid_of none old = old
uid_of (some uid) old = some uid

abbrev pub deletion_of : ResourcePhase → ℕ → Option ℕ
deletion_of phase now = if is_deleted phase then some now else none

-- The columns that the update on a conflict sets.
unfoldable pub recorded : ResourceInput → ℕ → ResourceRow → ResourceRow
recorded input now r = record r {
  namespace = input.namespace;
  uid = uid_of input.uid r.uid;
  phase = input.phase;
  deleted_at = deletion_of input.phase now;
}

unfoldable pub new_resource : ResourceInput → ℕ → ResourceRow
new_resource input now = record {
  run_id = input.key.run_id;
  attempt = input.key.attempt;
  step_key = input.key.step_key;
  namespace = input.namespace;
  kind = input.key.kind;
  name = input.key.name;
  uid = input.uid;
  phase = input.phase;
  deleted_at = deletion_of input.phase now;
}

unfoldable pub record_kubernetes_resource : ResourceInput → Effect (Unit {0})
unfolding recorded new_resource
record_kubernetes_resource input w =
    if any (is_resource input.key) w.k8s_resources
    then pure tt (record w {
      k8s_resources = update (is_resource input.key) (recorded input w.now) w.k8s_resources;
    })
    else pure tt (record w { k8s_resources = w.k8s_resources ++ new_resource input w.now ∷ [] })

unfoldable pub mark_kubernetes_resource_deleted : ResourceKey → String → Effect (Unit {0})
mark_kubernetes_resource_deleted key uid = modify λ w. record w {
  k8s_resources =
      update (λ r. is_resource key r && has_uid uid r.uid)
        (λ r. record r { phase = deleted; deleted_at = some w.now }) w.k8s_resources;
}

is_resource-new :
    (input : ResourceInput) (now : ℕ) → is_resource input.key (new_resource input now) ≡ true
unfolding new_resource
is_resource-new input now = ground (
  arith,
  eq_refl input.key.run_id,
  ==-refl input.key.attempt,
  eq_refl input.key.step_key,
  eq_refl input.key.kind,
  eq_refl input.key.name,
)

-- What is recorded is found again, whether the object was known before or not.
recorded-row :
    (input : ResourceInput) (uid : String) (w : World)
    → input.uid ≡ some uid
    → (row : ResourceRow) × (find_resource input.key (record_kubernetes_resource input w).1
        ≡ some row)
      × (row.uid ≡ some uid)
      × (row.phase ≡ input.phase)
      × (row.deleted_at ≡ deletion_of input.phase w.now)
unfolding record_kubernetes_resource recorded new_resource
recorded-row input uid w named = elim (Option-cases (find_resource input.key w)) [
  | inl absent ↦ (
    new_resource input w.now,
    rw (find?-none-any (is_resource input.key) w.k8s_resources absent) (
        find?-append (is_resource input.key) w.k8s_resources (new_resource input w.now ∷ []) absent
        ∙ (rw (is_resource-new input w.now) refl)),
    named,
    refl,
    refl,
  )
  | inr (row, found) ↦ (
    recorded input w.now row,
    rw (find?-some-any (is_resource input.key) w.k8s_resources found) (
        find?-update_self (is_resource input.key) (recorded input w.now) (λ a. refl) w.k8s_resources
          found),
    ap (λ u. uid_of u row.uid) named,
    refl,
    refl,
  )
]

-- The row after a confirmation for an object of another or of the same uid.
marked_row : ResourceKey → String → ℕ → ResourceRow → ResourceRow
marked_row key uid now r =
    if is_resource key r && has_uid uid r.uid
    then record r { phase = deleted; deleted_at = some now }
    else r

find-marked :
    (key : ResourceKey) (uid : String) (w : World) (row : ResourceRow)
    → find_resource key w ≡ some row
    → find_resource key (mark_kubernetes_resource_deleted key uid w).1
      ≡ some (marked_row key uid w.now row)
unfolding mark_kubernetes_resource_deleted marked_row
find-marked key uid w row found =
    find?-update (is_resource key) (λ r. is_resource key r && has_uid uid r.uid)
      (λ r. record r { phase = deleted; deleted_at = some w.now }) (λ a _. refl) w.k8s_resources
    ∙ ap (Option.map (marked_row key uid w.now)) found

marked_row-phase :
    (key : ResourceKey) (uid other : String) (now : ℕ) (row : ResourceRow)
    → is_resource key row ≡ true
    → row.uid ≡ some uid
    → (marked_row key other now row).phase ≡ (if str_eq uid other then deleted else row.phase)
unfolding marked_row
marked_row-phase key uid other now row mine named =
    rw mine (rw (ap (has_uid other) named) (by_uid (str_eq uid other)))
  where
    by_uid :
        (b : Bool)
        → (if b then record row { phase = deleted; deleted_at = some now } else row).phase
          ≡ (if b then deleted else row.phase)
    by_uid true = refl
    by_uid false = refl

abbrev pub phase_in : ResourceKey → World → Option ResourcePhase
phase_in key w = Option.map (λ r. r.phase) (find_resource key w)

-- A confirmation that an object was deleted, after an object with a uid was recorded under the same key,
-- sets the phase DELETED if it names that uid; if it names another, as of an object that was replaced since,
-- the recorded phase stays.
pub marked-recorded :
    (input : ResourceInput) (uid other : String) (w : World)
    → input.uid ≡ some uid
    → phase_in input.key
        (mark_kubernetes_resource_deleted input.key other (record_kubernetes_resource input w).1).1
      ≡ some (if str_eq uid other then deleted else input.phase)
marked-recorded input uid other w named =
    let (row, found, row_uid, row_phase, row_time) = recorded-row input uid w named in
    let w' = (record_kubernetes_resource input w).1 in
    ap (Option.map (λ r. r.phase)) (find-marked input.key other w' row found)
    ∙ ap some (
        marked_row-phase input.key uid other w'.now row
          (find?-holds (is_resource input.key) w'.k8s_resources found) row_uid
        ∙ ap (λ p. if str_eq uid other then deleted else p) row_phase)
