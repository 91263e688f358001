-- ===== src/Scenarios/Clusters.antt =====
-- Objects, repositories and namespaces of packages/k8s/src and apps/worker/src/retention.ts.
use code_host.Prelude.{
  ◌≢◌, ℕ, ◌+◌, ◌<◌, String, Bool, true, false, List, [], ◌∷◌, ◌++◌, Option, none, some, any, ◌≡◌,
  ◌⊎◌, inl, inr, refl, arith,
}
use code_host.Prelude.Text.{◌++◌ as append}
use code_host.Prelude.Result.{ok}
use code_host.Json.{Value, text, object, null, Fields, end, field}
use code_host.RunStatus.{passed}
use code_host.Workflow.{cleanup}
use code_host.Database.Tables.{RunRow, OutboxRow, published, World}
use code_host.Outbox.{find_outbox}
use code_host.Outbox.Publication.{is_claimable}
use code_host.Api.{new_outbox}
use code_host.Api.Cancel.{renewed}
use code_host.Kubernetes.{label, no_label, Resource}
use code_host.Kubernetes.Reconcile.{
  ResourceClient, same_spec_and_managed_metadata, reconcile_resource,
}
use code_host.Kubernetes.Ownership.{IsOwned, served, reconcile_resource-IsOwned}
use code_host.Kubernetes.Profiles.{node_plan, is_safe_tree_path, files_of, detect_project_profile}
use code_host.Kubernetes.Detection.{SameFiles, IsEntrypoint, detect_project_profile-IsEntrypoint}
use code_host.Retention.{cleanup_key, queue_cleanup, queue_expired_cleanup}
use code_host.Retention.Cleanups.{queue_expired_cleanup-spent, queue_cleanup-renews}
use code_host.Retention.Namespaces.{NamespaceClient, named, collect_all, collect_all-known}
use code_host.Scenarios.Data.{world_with, run_row}

abbrev service_of : String → Resource
service_of run_id = record {
  api_version = "v1";
  kind = "Service";
  metadata = record {
    name = "preview";
    namespace = some "pr-run-1";
    labels = some (
        label "platform.io/managed" "true" (
          label "platform.io/run-id" run_id
            (label "platform.io/resource" "preview" (label "platform.io/attempt" "1" no_label))));
    others = end;
  };
  body = field "spec" (object end) end;
}

-- The cluster has one object, which the updates replace.
abbrev cluster_client : ResourceClient Resource
cluster_client = record {
  get = λ lookup g. (ok (some g), g);
  create = λ r g. (ok r, r);
  update = λ r g. (ok r, r);
}

reconcile_resource-IsOwned_example :
    ((reconcile_resource cluster_client (service_of "r1") (service_of "r2")).1 ≡ service_of "r2")
    ⊎ (IsOwned (service_of "r1") (service_of "r2")
        × ((service_of "r1").kind ≢ "Job")
        × ((service_of "r1").kind ≢ "PersistentVolumeClaim")
        × (same_spec_and_managed_metadata (service_of "r1") (service_of "r2") ≡ false))
reconcile_resource-IsOwned_example =
    reconcile_resource-IsOwned cluster_client (service_of "r1") (service_of "r2") (service_of "r2")
      refl

abbrev served_service : Resource
served_service = served (text "u1") (text "7") (object end) (service_of "r1")

abbrev listed : List String
listed = "server.js" ∷ "package.json" ∷ []

abbrev listed_again : List String
listed_again = "package.json" ∷ "server.js" ∷ "../x" ∷ "server.js" ∷ []

is_safe_server : is_safe_tree_path "server.js" ≡ true
unfolding is_safe_tree_path append
is_safe_server = refl

is_safe_package : is_safe_tree_path "package.json" ≡ true
unfolding is_safe_tree_path append
is_safe_package = refl

is_unsafe_parent : is_safe_tree_path "../x" ≡ false
unfolding is_safe_tree_path append
is_unsafe_parent = refl

same_listed : SameFiles (files_of listed) (files_of listed_again)
same_listed name = ground (arith, is_safe_server, is_safe_package, is_unsafe_parent)

detect_project_profile-IsEntrypoint_example : IsEntrypoint listed (node_plan "server.js")
unfolding detect_project_profile append
detect_project_profile-IsEntrypoint_example =
    detect_project_profile-IsEntrypoint listed (node_plan "server.js") refl

abbrev ended_run : RunRow
ended_run = record (run_row "r1" passed) { finished_at = some 50 }

abbrev taken_up : ℕ → OutboxRow
taken_up attempts = record (new_outbox ended_run 1 cleanup 60) {
  status = published;
  attempts = attempts;
}

abbrev with_cleanup : ℕ → World
with_cleanup attempts = record (world_with (ended_run ∷ []) []) { outbox = taken_up attempts ∷ [] }

queue_expired_cleanup-spent_example :
    find_outbox (cleanup_key ended_run) (queue_expired_cleanup (with_cleanup 3)).1
    ≡ some (taken_up 3)
unfolding new_outbox code_host.Api.create_workflow_outbox_dedupe_key code_host.Prelude.Text.◌++◌
    code_host.Prelude.Text.decimal
queue_expired_cleanup-spent_example =
    queue_expired_cleanup-spent (cleanup_key ended_run) (with_cleanup 3) (taken_up 3) refl
      (omega arith)

queue_cleanup-renews_example :
    (find_outbox (cleanup_key ended_run) (queue_cleanup ended_run (with_cleanup 1)).1
      ≡ some (renewed 100 (taken_up 1)))
    × (is_claimable 100 (renewed 100 (taken_up 1)) ≡ true)
    × ((renewed 100 (taken_up 1)).attempts ≡ (taken_up 1).attempts)
unfolding new_outbox code_host.Api.create_workflow_outbox_dedupe_key code_host.Prelude.Text.◌++◌
    code_host.Prelude.Text.decimal
queue_cleanup-renews_example =
    queue_cleanup-renews ended_run (with_cleanup 1) (taken_up 1) refl (omega arith) refl

abbrev namespace_of : String → Fields
namespace_of run_id =
    field "metadata"
      (object (
        field "name" (text "pr-run-1") (
          field "uid" (text "u1") (
            field "labels"
              (object (
                field "platform.io/run-id" (text run_id)
                  (field "platform.io/managed" (text "true") end)))
              end))))
      end

-- The cluster counts its deletions.
abbrev counting_client : NamespaceClient ℕ
counting_client = record {
  list_managed = λ g. (ok [], g);
  delete_namespace = λ name uid g. (ok tt, g + 1);
  get_namespace = λ name g. (ok none, g);
  is_pending = λ e. false;
}

collect_all-known_example :
    collect_all counting_client
      (with_cleanup 1)
      (namespace_of "r9" ∷ [] ++ namespace_of "r1" ∷ [])
      0
      0
    ≡ collect_all counting_client (with_cleanup 1) (namespace_of "r9" ∷ [] ++ []) 0 0
unfolding named code_host.Json.get
collect_all-known_example =
    collect_all-known counting_client (with_cleanup 1) (namespace_of "r9" ∷ []) (namespace_of "r1")
      [] 0 0 (inr (record { run_id = "r1"; name = "pr-run-1"; uid = "u1" }, ended_run, refl, refl))
