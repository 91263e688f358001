-- ===== src/Kubernetes/Reconcile.antt =====
-- packages/k8s/src/reconcile.ts: an object of the cluster is created, adopted or updated, but never
-- taken from another run. `client` answers the requests to the API, with the cluster's state `G`.
use code_host.Prelude.{
  String, Bool, true, false, List, [], ◌∷◌, ◌++◌, Option, none, some, find?, str_eq, ◌&&◌, ◌||◌,
  not, if◌then◌else◌,
}
use code_host.Prelude.Result.{Result, ok, err}
use code_host.Json.{Value, text, object, Fields, end, field, get, put}
use code_host.Json.Print.{sort_keys, stringify}
use code_host.Database.Effects.{Fault, conflict}
use code_host.Gitea.{Remote, ◌>=◌}
use code_host.Kubernetes.{
  Labels, no_label, label, Resource, managed_label, run_id_label, attempt_label, step_key_label,
  resource_label,
}

-- The argument of `get`.
pub record Lookup : Type 0 where
  pub api_version : String
  pub kind : String
  pub namespace : Option String
  pub name : String

-- `KubernetesResourceClient`
pub record ResourceClient (G : Type 0) : Type 0 where
  pub get : Lookup → Remote G (Option Resource)
  pub create : Resource → Remote G Resource
  pub update : Resource → Remote G Resource

pub data ReconcileAction : Type 0 where
  created updated unchanged : ReconcileAction

pub record ReconcileResult : Type 0 where
  pub action : ReconcileAction
  pub desired : Resource
  pub resource : Resource

-- `labels[key]`
unfoldable pub label_in : String → Labels → Option String
label_in key no_label = none
label_in key (label k v rest) = if str_eq k key then some v else label_in key rest

abbrev pub label_of : String → Resource → Option String
label_of key r = elim r.metadata.labels [ none ↦ none | some labels ↦ label_in key labels ]

abbrev pub same_label : Option String → Option String → Bool
same_label (some a) (some b) = str_eq a b
same_label none none = true
same_label none (some b) = false
same_label (some a) none = false

abbrev pub is_defined : Option String → Bool
is_defined none = false
is_defined (some v) = true

unfoldable pub required_labels : Resource → List String
required_labels desired =
    managed_label ∷ run_id_label ∷ []
    ++ (if str_eq desired.kind "Namespace" then [] else resource_label ∷ attempt_label ∷ [])
    ++ (if is_defined (label_of step_key_label desired) then step_key_label ∷ [] else [])

abbrev pub mismatches : Resource → Resource → String → Bool
mismatches desired existing key =
    not (is_defined (label_of key desired))
    || not (same_label (label_of key existing) (label_of key desired))

-- `assertSameIdentity`
unfoldable pub assert_same_identity : Resource → Resource → Result Fault (Unit {0})
unfolding required_labels
assert_same_identity desired existing =
    if not (str_eq desired.api_version existing.api_version && str_eq desired.kind existing.kind)
    then err (conflict "resource identity mismatch")
    else if not (
        str_eq desired.metadata.name existing.metadata.name
        && same_label desired.metadata.namespace existing.metadata.namespace)
    then err (conflict "resource metadata identity mismatch")
    else elim (find? (mismatches desired existing) (required_labels desired)) [
      | some mismatch ↦ err (conflict mismatch)
      | none ↦ ok tt
    ]

-- `delete object[key]`
unfoldable pub delete : String → Fields → Fields
delete key end = end
delete key (field k v rest) =
    let others = delete key rest in if str_eq k key then others else field k v others

-- `{ ...object, ...others }` with the metadata's own keys first.
abbrev namespace_field : Option String → Fields → Fields
namespace_field none rest = rest
namespace_field (some namespace) rest = field "namespace" (text namespace) rest

labels_object : Labels → Fields
labels_object no_label = end
labels_object (label k v rest) = field k (text v) (labels_object rest)

labels_field : Option Labels → Fields → Fields
unfolding labels_object
labels_field none rest = rest
labels_field (some labels) rest = field "labels" (object (labels_object labels)) rest

-- `stripServerFields`
unfoldable pub strip_server_fields : Resource → Value
unfolding delete labels_field
strip_server_fields r =
    let others = delete "managedFields" (
      delete "generation" (
        delete "deletionTimestamp" (
          delete "creationTimestamp"
            (delete "resourceVersion" (delete "uid" r.metadata.others))))) in
    object (
      field "apiVersion" (text r.api_version) (
        field "kind" (text r.kind) (
          field "metadata"
            (object (
              field "name" (text r.metadata.name)
                (namespace_field r.metadata.namespace (labels_field r.metadata.labels others))))
            (delete "status" r.body))))

unfoldable pub stable_json : Value → String
unfolding sort_keys stringify
stable_json value = stringify (sort_keys value)

unfoldable pub same_spec_and_managed_metadata : Resource → Resource → Bool
unfolding strip_server_fields stable_json
same_spec_and_managed_metadata desired existing =
    str_eq (stable_json (strip_server_fields desired)) (stable_json (strip_server_fields existing))

unfoldable pub with_resource_version : Resource → Option Value → Resource
with_resource_version desired none = desired
with_resource_version desired (some version) = record desired {
  metadata = record (desired.metadata) {
    others = put "resourceVersion" version desired.metadata.others;
  };
}

abbrev pub is_adopted_kind : String → Bool
is_adopted_kind kind = str_eq kind "Job" || str_eq kind "PersistentVolumeClaim"

abbrev pub lookup_of : Resource → Lookup
lookup_of desired = record {
  api_version = desired.api_version;
  kind = desired.kind;
  namespace = desired.metadata.namespace;
  name = desired.metadata.name;
}

abbrev pub result : ReconcileAction → Resource → Resource → ReconcileResult
result action desired resource = record { action = action; desired = desired; resource = resource }

module _ {G : Type 0} (client : ResourceClient G) where
  unfoldable pub reconcile_owned :
      Resource → Resource → Result Fault (Unit {0}) → Remote G ReconcileResult
  unfolding same_spec_and_managed_metadata with_resource_version
  reconcile_owned desired existing (err e) g = (err e, g)
  reconcile_owned desired existing (ok _) g =
      if is_adopted_kind desired.kind || same_spec_and_managed_metadata desired existing
      then (ok (result unchanged desired existing), g)
      else (client.update
              (with_resource_version desired (get "resourceVersion" existing.metadata.others))
            >= λ resource. λ h. (ok (result updated desired resource), h))
          g

  unfoldable pub reconcile_found : Resource → Option Resource → Remote G ReconcileResult
  unfolding reconcile_owned assert_same_identity
  reconcile_found desired none =
      client.create desired >= λ resource. λ h. (ok (result created desired resource), h)
  reconcile_found desired (some existing) =
      reconcile_owned desired existing (assert_same_identity desired existing)

  unfoldable pub reconcile_resource : Resource → Remote G ReconcileResult
  unfolding reconcile_found
  reconcile_resource desired = client.get (lookup_of desired) >= reconcile_found desired

  unfoldable pub reconcile_resources : List Resource → Remote G (List ReconcileResult)
  unfolding reconcile_resource
  reconcile_resources [] g = (ok [], g)
  reconcile_resources (desired ∷ rest) g =
      (reconcile_resource desired >= λ first.
      reconcile_resources rest >= λ others. λ h. (ok (first ∷ others), h))
        g
