-- ===== src/Kubernetes.antt =====
-- packages/k8s/src: the objects of the cluster that belong to runs (types.ts), and the labels that say so
-- (constants.ts).
pub mod Reconcile
pub mod Ownership
pub mod Validation
pub mod Images
pub mod Registries
pub mod Profiles
pub mod Detection
use code_host.Prelude.{String, List, Option, none, some}
use code_host.Json.{Value, Fields}

-- `K8S_LABELS`
abbrev pub managed_label : String
managed_label = "platform.io/managed"

abbrev pub run_id_label : String
run_id_label = "platform.io/run-id"

abbrev pub attempt_label : String
attempt_label = "platform.io/attempt"

abbrev pub step_key_label : String
step_key_label = "platform.io/step-key"

abbrev pub resource_label : String
resource_label = "platform.io/resource"

-- Keys with their texts.
pub data Labels : Type 0 where
  no_label : Labels
  label : String → String → Labels → Labels

-- `ObjectMeta`; `others` has the annotations and what the server sets: uid, resourceVersion, generation.
pub record Metadata : Type 0 where
  pub name : String
  pub namespace : Option String
  pub labels : Option Labels
  pub others : Fields

-- `KubernetesObject`; `body` has the spec or the data, and the status that the server sets.
pub record Resource : Type 0 where
  pub api_version : String
  pub kind : String
  pub metadata : Metadata
  pub body : Fields
