-- ===== src/Kubernetes/Detection.antt =====
-- What `detectProjectProfile` of packages/k8s/src/profiles.ts finds.
use code_host.Prelude.{
  String, Bool, true, false, List, [], ◌∷◌, Option, none, some, find?, keep, eq_iff, eq_refl, ◌≡◌,
  refl, subst, ap, arith, find?-holds,
}
use code_host.Kubernetes.Profiles.{
  node, python, ProjectProfilePlan, supported, Detection, node_entrypoints, python_entrypoints,
  is_safe_tree_path, files_of, has_root_file, first_entrypoint, is_node_candidate,
  is_python_candidate, node_plan, python_plan, plan_for, unsupported, detect_in,
  detect_project_profile,
}

-- The two lists name the same files.
abbrev pub SameFiles : List String → List String → Type 0
SameFiles xs ys = (name : String) → has_root_file xs name ≡ has_root_file ys name

find?-same {ℓ} :
    {A : Type ℓ} (p q : A → Bool) → ((a : A) → p a ≡ q a) → (xs : List A) → find? p xs ≡ find? q xs
find?-same p q same [] = refl
find?-same p q same (x ∷ xs) = ground (arith, same x, find?-same p q same xs)

module _ (xs ys : List String) (same : SameFiles xs ys) where
  first_entrypoint-same :
      (candidates : List String) → first_entrypoint xs candidates ≡ first_entrypoint ys candidates
  unfolding first_entrypoint
  first_entrypoint-same candidates =
      find?-same (has_root_file xs) (has_root_file ys) same candidates

  is_node_candidate-same : is_node_candidate xs ≡ is_node_candidate ys
  unfolding is_node_candidate
  is_node_candidate-same =
      ground (arith, same "package.json", first_entrypoint-same node_entrypoints)

  is_python_candidate-same : is_python_candidate xs ≡ is_python_candidate ys
  unfolding is_python_candidate
  is_python_candidate-same = ground (
    arith,
    same "pyproject.toml",
    same "requirements.txt",
    first_entrypoint-same python_entrypoints,
  )

  detect_in-same : (b c : Bool) → detect_in b c xs ≡ detect_in b c ys
  unfolding detect_in
  detect_in-same false false = refl
  detect_in-same true true = refl
  detect_in-same true false = rw (first_entrypoint-same node_entrypoints) refl
  detect_in-same false true = rw (first_entrypoint-same python_entrypoints) refl

-- The result depends on which safe paths there are, and neither on their order nor on how often one is listed.
pub detect_project_profile-same :
    (xs ys : List String)
    → SameFiles (files_of xs) (files_of ys)
    → detect_project_profile xs ≡ detect_project_profile ys
unfolding detect_project_profile
detect_project_profile-same xs ys same =
    rw (is_node_candidate-same (files_of xs) (files_of ys) same) (
      rw (is_python_candidate-same (files_of xs) (files_of ys) same) (
        detect_in-same (files_of xs) (files_of ys) same (is_node_candidate (files_of ys))
          (is_python_candidate (files_of ys))))

-- A plan's entrypoint is one of the listed names, and is a file of the repository at its root.
pub data IsEntrypoint (paths : List String) (plan : ProjectProfilePlan) : Type 0 where
  node_entry :
      plan ≡ node_plan plan.entrypoint
      → has_root_file node_entrypoints plan.entrypoint ≡ true
      → has_root_file paths plan.entrypoint ≡ true
      → is_python_candidate (files_of paths) ≡ false
      → IsEntrypoint paths plan
  python_entry :
      plan ≡ python_plan plan.entrypoint
      → has_root_file python_entrypoints plan.entrypoint ≡ true
      → has_root_file paths plan.entrypoint ≡ true
      → is_node_candidate (files_of paths) ≡ false
      → IsEntrypoint paths plan

find?-member :
    (p : String → Bool) (xs : List String) {a : String}
    → find? p xs ≡ some a
    → has_root_file xs a ≡ true
find?-member p [] h = ground arith
find?-member p (x ∷ xs) {a} h = ground (arith, eq_refl a, eq_iff x a, find?-member p xs {a = a})

has_root_file-keep :
    (p : String → Bool) (xs : List String) (name : String)
    → has_root_file (keep p xs) name ≡ true
    → has_root_file xs name ≡ true
has_root_file-keep p [] name h = ground arith
has_root_file-keep p (x ∷ xs) name h = ground (arith, has_root_file-keep p xs name)

plan_of : Detection → ProjectProfilePlan → ProjectProfilePlan
plan_of (supported plan) other = plan
plan_of (unsupported error candidates) other = other

module _ (paths : List String) (plan : ProjectProfilePlan) where
  found-node :
      (entry : Option String)
      → first_entrypoint (files_of paths) node_entrypoints ≡ entry
      → is_python_candidate (files_of paths) ≡ false
      → plan_for node node_plan entry ≡ supported plan
      → IsEntrypoint paths plan
  unfolding first_entrypoint plan_of
  found-node none found other h = ground arith
  found-node (some e) found other h =
      let there = find?-holds (has_root_file (files_of paths)) node_entrypoints found in
      subst (IsEntrypoint paths) (ap (λ d. plan_of d plan) h) (
        node_entry refl (find?-member (has_root_file (files_of paths)) node_entrypoints found)
          (has_root_file-keep is_safe_tree_path paths e there) other)

  found-python :
      (entry : Option String)
      → first_entrypoint (files_of paths) python_entrypoints ≡ entry
      → is_node_candidate (files_of paths) ≡ false
      → plan_for python python_plan entry ≡ supported plan
      → IsEntrypoint paths plan
  unfolding first_entrypoint plan_of
  found-python none found other h = ground arith
  found-python (some e) found other h =
      let there = find?-holds (has_root_file (files_of paths)) python_entrypoints found in
      subst (IsEntrypoint paths) (ap (λ d. plan_of d plan) h) (
        python_entry refl (find?-member (has_root_file (files_of paths)) python_entrypoints found)
          (has_root_file-keep is_safe_tree_path paths e there) other)

  choose :
      (b c : Bool)
      → is_node_candidate (files_of paths) ≡ b
      → is_python_candidate (files_of paths) ≡ c
      → detect_in b c (files_of paths) ≡ supported plan
      → IsEntrypoint paths plan
  unfolding detect_in
  choose false false node_is python_is h = ground arith
  choose true true node_is python_is h = ground arith
  choose true false node_is python_is h =
      found-node (first_entrypoint (files_of paths) node_entrypoints) refl python_is h
  choose false true node_is python_is h =
      found-python (first_entrypoint (files_of paths) python_entrypoints) refl node_is h

  -- The plan of a repository is for node or for python, and not for both: its entrypoint is one of the names
  -- that are listed for its kind and a file at the repository's root, and the repository has no file that
  -- makes it a candidate for the other kind.
  pub detect_project_profile-IsEntrypoint :
      detect_project_profile paths ≡ supported plan → IsEntrypoint paths plan
  unfolding detect_project_profile
  detect_project_profile-IsEntrypoint h =
      choose (is_node_candidate (files_of paths)) (is_python_candidate (files_of paths)) refl refl h
