-- ===== src/Retention/Namespaces.antt =====
-- `collectNamespaces` of apps/worker/src/retention.ts: the namespaces of the platform whose run is not known are
-- deleted. `client` answers the requests to the cluster, with its state `G`.
use code_host.Prelude.{
  ℕ, suc, String, Bool, true, false, List, [], ◌∷◌, ◌++◌, Option, none, some, str_eq, ◌&&◌, ◌||◌,
  not, is_some, if◌then◌else◌, ◌≡◌, ◌⊎◌, inl, inr, refl, arith,
}
use code_host.Prelude.Result.{Result, ok, err}
use code_host.Json.{Value, text, object, Fields, get}
use code_host.Database.Tables.{RunRow, World}
use code_host.Database.Effects.{Fault}
use code_host.Store.{find_run}
use code_host.Gitea.{Remote, proceed, ◌>=◌}
use code_host.Retention.{is_past, namespace_may_be_collected}

pub record NamespaceClient (G : Type 0) : Type 0 where
  pub list_managed : Remote G (List Fields)
  pub delete_namespace : String → String → Remote G (Unit {0})
  pub get_namespace : String → Remote G (Option Fields)
  -- An API error with the status 400 or 404.
  pub is_pending : Fault → Bool

abbrev as_fields : Option Value → Option Fields
as_fields (some (object fields)) = some fields
as_fields _ = none

abbrev as_text : Option Value → Option String
as_text (some (text s)) = some s
as_text _ = none

abbrev field_in : String → Option Fields → Option Value
field_in key none = none
field_in key (some fields) = get key fields

abbrev metadata : Fields → Option Fields
metadata resource = as_fields (get "metadata" resource)

abbrev labels : Fields → Option Fields
labels resource = as_fields (field_in "labels" (metadata resource))

unfoldable pub run_id_from_labels : Fields → Option String
run_id_from_labels resource = as_text (field_in "platform.io/run-id" (labels resource))

-- What is asked of an object before its run is looked for: a run, a name and an id.
pub record Named : Type 0 where
  pub run_id : String
  pub name : String
  pub uid : String

abbrev named_from : Option String → Option String → Option String → Option Named
named_from (some run_id) (some name) (some uid) =
    if str_eq run_id "" then none else some (record { run_id = run_id; name = name; uid = uid })
named_from _ _ _ = none

unfoldable pub named : Fields → Option Named
unfolding run_id_from_labels
named resource =
    named_from (run_id_from_labels resource) (as_text (field_in "name" (metadata resource)))
      (as_text (field_in "uid" (metadata resource)))

unfoldable pub is_managed : Fields → Bool
is_managed resource = elim (as_text (field_in "platform.io/managed" (labels resource))) [
  | none ↦ false
  | some value ↦ str_eq value "true"
]

abbrev is_due : ℕ → Option RunRow → Bool
is_due now none = true
is_due now (some run) = is_past now run.preview_expires_at || is_past now run.finished_at

module _ {G : Type 0} (client : NamespaceClient G) where
  -- `try { … } catch`: an error that is pending counts as not deleted, any other goes on.
  unless_pending : Result Fault Bool → G → Result Fault Bool × G
  unless_pending (ok b) g = (ok b, g)
  unless_pending (err e) g = if client.is_pending e then (ok false, g) else (err e, g)

  unfoldable pub confirm_deletion : String → Remote G Bool
  unfolding unless_pending
  confirm_deletion name g =
      let asked = (client.get_namespace name >= λ left. λ h. (ok (not (is_some left)), h)) g in
      unless_pending asked.0 asked.1

  after_deletion : String → Result Fault (Unit {0}) → Remote G Bool
  unfolding confirm_deletion unless_pending
  after_deletion name (ok _) = confirm_deletion name
  after_deletion name (err e) = unless_pending (err e)

  unfoldable pub collect_named : World → Fields → Option Named → Remote G Bool
  unfolding after_deletion namespace_may_be_collected is_managed
  collect_named w resource none g = (ok false, g)
  collect_named w resource (some n) g =
      let run = find_run n.run_id w in
      if not (namespace_may_be_collected (is_some run) (is_due w.now run))
        || not (is_managed resource)
      then (ok false, g)
      else (let deletion = client.delete_namespace n.name n.uid g in
          after_deletion n.name deletion.0 deletion.1)

  unfoldable pub collect_all : World → List Fields → ℕ → Remote G ℕ
  unfolding collect_named named
  collect_all w [] deleted g = (ok deleted, g)
  collect_all w (resource ∷ rest) deleted g =
      (collect_named w resource (named resource) >= λ gone.
      collect_all w rest (if gone then suc deleted else deleted))
        g

  unfoldable pub collect_namespaces : World → Remote G ℕ
  unfolding collect_all
  collect_namespaces w = client.list_managed >= λ resources. collect_all w resources 0

  -- The object has a run that the platform knows, or does not say which run it is of.
  abbrev pub IsKnown : World → Fields → Type 0
  IsKnown w resource =
      (named resource ≡ none)
      ⊎ ((n : Named) × (run : RunRow) × (named resource ≡ some n)
          × (find_run n.run_id w ≡ some run))

  not_collected : (due managed : Bool) → (not (due && false) || not managed) ≡ true
  not_collected due managed = ground arith

  collect_named-known :
      (w : World) (resource : Fields) (g : G)
      → IsKnown w resource
      → collect_named w resource (named resource) g ≡ (ok false, g)
  unfolding collect_named namespace_may_be_collected
  collect_named-known w resource g (inl unnamed) = rw unnamed refl
  collect_named-known w resource g (inr (n, run, is_named, known)) =
      rw is_named
        (rw known (rw (not_collected (is_due w.now (some run)) (is_managed resource)) refl))

  proceed-same :
      {A B : Type 0} (r : Result Fault A) (f h : A → Remote G B) (g : G)
      → ((a : A) (k : G) → f a k ≡ h a k)
      → proceed r f g ≡ proceed r h g
  proceed-same (ok a) f h g same = same a g
  proceed-same (err e) f h g same = refl

  -- No namespace of a run that is in the database is touched, whatever the run's status and however long it is
  -- past: a sweep over the listed objects does the same requests, and counts the same deletions, as a sweep
  -- over the list without such an object. This also holds of objects that do not say which run they are of.
  pub collect_all-known :
      (w : World) (others : List Fields) (resource : Fields) (rest : List Fields) (deleted : ℕ)
      (g : G)
      → IsKnown w resource
      → collect_all w (others ++ resource ∷ rest) deleted g
        ≡ collect_all w (others ++ rest) deleted g
  unfolding collect_all
  collect_all-known w [] resource rest deleted g known =
      rw (collect_named-known w resource g known) refl
  collect_all-known w (x ∷ xs) resource rest deleted g known =
      proceed-same (collect_named w x (named x) g).0
        (λ gone. collect_all w (xs ++ resource ∷ rest) (if gone then suc deleted else deleted))
        (λ gone. collect_all w (xs ++ rest) (if gone then suc deleted else deleted))
        (collect_named w x (named x) g).1
        (λ gone k.
          collect_all-known w xs resource rest (if gone then suc deleted else deleted) k known)
