-- ===== src/Kubernetes/Ownership.antt =====
-- Which objects `reconcileResource` of packages/k8s/src/reconcile.ts writes.
use code_host.Prelude.{
  String, Bool, true, false, Option, none, some, str_eq, eq_iff, eq_refl, ◌||◌, ◌≡◌, ◌≢◌, ◌⊎◌, inl,
  inr, refl, sym, subst, ap, arith, Bool-cases,
}
use code_host.Prelude.Result.{Result, ok, err}
use code_host.Json.{Value, Fields, end, field, put}
use code_host.Database.Effects.{Fault}
use code_host.Kubernetes.{Resource, run_id_label, managed_label}
use code_host.Kubernetes.Reconcile.{
  ResourceClient, result, unchanged, label_of, same_label, required_labels, mismatches,
  assert_same_identity, is_adopted_kind, lookup_of, delete, strip_server_fields, stable_json,
  same_spec_and_managed_metadata, reconcile_owned, reconcile_found, reconcile_resource,
}

same_label-path : (a b : Option String) → same_label a b ≡ true → a ≡ b
same_label-path (some a) (some b) h = ap some ((eq_iff a b).0 h)
same_label-path none none h = refl
same_label-path none (some b) h = ground arith
same_label-path (some a) none h = ground arith

-- Two objects of one run: they agree on the labels that make them the platform's and the run's.
pub record IsOwned (desired existing : Resource) : Type 0 where
  pub managed : label_of managed_label existing ≡ label_of managed_label desired
  pub run_id : label_of run_id_label existing ≡ label_of run_id_label desired

agrees :
    (key : String) (desired existing : Resource)
    → mismatches desired existing key ≡ false
    → label_of key existing ≡ label_of key desired
agrees key desired existing h =
    same_label-path (label_of key existing) (label_of key desired) (ground arith)

-- What an object that passes the test has.
assert-IsOwned :
    (desired existing : Resource)
    → assert_same_identity desired existing ≡ ok tt
    → IsOwned desired existing
unfolding assert_same_identity required_labels
assert-IsOwned desired existing h =
    let managed_agrees : mismatches desired existing managed_label ≡ false = ground arith in
    let run_agrees : mismatches desired existing run_id_label ≡ false = ground arith in
    record {
      managed = agrees managed_label desired existing managed_agrees;
      run_id = agrees run_id_label desired existing run_agrees;
    }

plain_kind :
    (kind : String)
    → is_adopted_kind kind ≡ false
    → (kind ≢ "Job") × (kind ≢ "PersistentVolumeClaim")
plain_kind kind h =
    (ground (arith, eq_iff kind "Job"), ground (arith, eq_iff kind "PersistentVolumeClaim"))

written-kind {ℓ} :
    {Unchanged : Type ℓ} (desired existing : Resource)
    → Unchanged
      ⊎ (IsOwned desired existing
          × (is_adopted_kind desired.kind ≡ false)
          × (same_spec_and_managed_metadata desired existing ≡ false))
    → Unchanged
      ⊎ (IsOwned desired existing
          × (desired.kind ≢ "Job")
          × (desired.kind ≢ "PersistentVolumeClaim")
          × (same_spec_and_managed_metadata desired existing ≡ false))
written-kind desired existing (inl kept) = inl kept
written-kind desired existing (inr (owned, plain, differs)) =
    let kinds = plain_kind desired.kind plain in inr (owned, kinds.0, kinds.1, differs)

module _ {G : Type 0} (client : ResourceClient G) where
  reconcile_owned-state :
      (desired existing : Resource) (g : G) (identity : Result Fault (Unit {0}))
      → assert_same_identity desired existing ≡ identity
      → ((reconcile_owned client desired existing identity g).1 ≡ g)
        ⊎ (IsOwned desired existing
            × (is_adopted_kind desired.kind ≡ false)
            × (same_spec_and_managed_metadata desired existing ≡ false))
  unfolding reconcile_owned
  reconcile_owned-state desired existing g (err e) same = inl refl
  reconcile_owned-state desired existing g (ok _) same =
      let owned = assert-IsOwned desired existing same in
      elim (Bool-cases (is_adopted_kind desired.kind)) [
        | inl adopted ↦ inl (rw adopted refl)
        | inr plain ↦ elim (Bool-cases (same_spec_and_managed_metadata desired existing)) [
          | inl equal ↦ inl (rw plain (rw equal refl))
          | inr differs ↦ inr (owned, plain, differs)
        ]
      ]

  -- An object that is there already is never taken from another run: if reconciling changes the cluster, the
  -- object has the labels of the desired one's platform and run, is neither a Job nor a volume claim, and
  -- differs from what is desired in more than the fields that the server sets. To read the object changes nothing.
  pub reconcile_resource-IsOwned :
      (desired existing : Resource) (g : G)
      → client.get (lookup_of desired) g ≡ (ok (some existing), g)
      → ((reconcile_resource client desired g).1 ≡ g)
        ⊎ (IsOwned desired existing
            × (desired.kind ≢ "Job")
            × (desired.kind ≢ "PersistentVolumeClaim")
            × (same_spec_and_managed_metadata desired existing ≡ false))
  unfolding reconcile_resource reconcile_found
  reconcile_resource-IsOwned desired existing g found =
      rw (found, reconcile_found)
        (written-kind desired existing
          (reconcile_owned-state desired existing g (assert_same_identity desired existing) refl))

delete-put :
    (key : String) (v : Value) (fields : Fields) → delete key (put key v fields) ≡ delete key fields
unfolding delete put
delete-put key v end = ground (arith, eq_refl key)
delete-put key v (field k u rest) = ground (arith, eq_refl key, delete-put key v rest)

delete-put_other :
    (key other : String) (v : Value) (fields : Fields)
    → str_eq other key ≡ false
    → delete key (put other v fields) ≡ put other v (delete key fields)
unfolding delete put
delete-put_other key other v end differ = ground arith
delete-put_other key other v (field k u rest) differ =
    ground
      (arith, eq_iff k key, eq_iff k other, eq_iff other key, delete-put_other key other v rest)

-- What the server makes of an object: it gives it an id, a version and a status.
unfoldable pub served : Value → Value → Value → Resource → Resource
served uid version status r = record r {
  metadata = record (r.metadata) {
    others = put "resourceVersion" version (put "uid" uid r.metadata.others);
  };
  body = put "status" status r.body;
}

strip-served :
    (uid version status : Value) (r : Resource)
    → strip_server_fields (served uid version status r) ≡ strip_server_fields r
unfolding strip_server_fields served
strip-served uid version status r =
    let moved =
      delete-put_other "uid" "resourceVersion" version (put "uid" uid r.metadata.others) refl in
    rw moved (
      rw (delete-put "uid" uid r.metadata.others) (
        rw (delete-put "resourceVersion" version (delete "uid" r.metadata.others))
          (rw (delete-put "status" status r.body) refl)))

same-served :
    (desired : Resource) (uid version status : Value)
    → same_spec_and_managed_metadata desired (served uid version status desired) ≡ true
unfolding same_spec_and_managed_metadata
same-served desired uid version status =
    subst (λ v. str_eq (stable_json (strip_server_fields desired)) (stable_json v) ≡ true)
      (sym (strip-served uid version status desired))
      (eq_refl (stable_json (strip_server_fields desired)))

or-true : (b : Bool) → (b || true) ≡ true
or-true b = ground arith

-- An object that is as desired, but for what the server sets, is left unchanged: reconciling it again sends
-- nothing, whatever its id, its version and its status are. The desired object has the labels that are
-- required of it.
pub reconcile_resource-unchanged :
    {G : Type 0} (client : ResourceClient G) (desired : Resource) (uid version status : Value)
    (g : G)
    → assert_same_identity desired desired ≡ ok tt
    → client.get (lookup_of desired) g ≡ (ok (some (served uid version status desired)), g)
    → reconcile_resource client desired g
      ≡ (ok (result unchanged desired (served uid version status desired)), g)
unfolding reconcile_resource reconcile_found reconcile_owned same_spec_and_managed_metadata
    assert_same_identity served
reconcile_resource-unchanged client desired uid version status g labelled found =
    rw (found, reconcile_found)
      (rw labelled (
        rw (same-served desired uid version status)
          (rw (or-true (is_adopted_kind desired.kind)) refl)))
