-- ===== src/Kubernetes/Profiles.antt =====
-- packages/k8s/src/profiles.ts: which kind of project a repository's files make, and the image that is
-- built of it.
use code_host.Prelude.{
  ℕ, String, Bool, true, false, List, [], ◌∷◌, Option, none, some, find?, any, keep, is_some,
  str_eq, ltb, ◌==◌, ◌||◌, not, if◌then◌else◌,
}
use Prim.Native.Char.{code}
use code_host.Prelude.Text.{◌++◌ as append, decimal, join_lines, size}

pub data ProjectType : Type 0 where
  node python : ProjectType

pub record ProjectProfilePlan : Type 0 where
  pub project_type : ProjectType
  pub profile : String
  pub port : ℕ
  pub health_path : String
  pub test_profile : String
  pub entrypoint : String
  pub base_image : String

pub data DetectionError : Type 0 where
  unsupported_profile ambiguous_profile unsupported_entrypoint : DetectionError

-- `ProfileDetectionResult`
pub data Detection : Type 0 where
  supported : ProjectProfilePlan → Detection
  unsupported : DetectionError → List ProjectType → Detection

abbrev pub node_entrypoints : List String
node_entrypoints =
    "server.js" ∷ "index.js" ∷ "main.js" ∷ "server.mjs" ∷ "index.mjs" ∷ "main.mjs" ∷ "server.cjs"
    ∷ "index.cjs" ∷ "main.cjs" ∷ []

abbrev pub python_entrypoints : List String
python_entrypoints = "app.py" ∷ "server.py" ∷ "main.py" ∷ []

-- `value.startsWith('/')`
starts_at_root : String → Bool
starts_at_root String.[] = false
starts_at_root (String.◌∷◌ c s) = code c == 47

-- `/[^\x20-\x7e]/.test(value) || value.includes('\\')`
has_strange_char : String → Bool
has_strange_char String.[] = false
has_strange_char (String.◌∷◌ c s) =
    ltb (code c) 32 || (ltb 126 (code c) || (code c == 92 || has_strange_char s))

-- A character before the first of the segments.
abbrev onto_first : String → List String → List String
onto_first c [] = c ∷ []
onto_first c (segment ∷ rest) = append c segment ∷ rest

-- `value.split('/')`
segments : String → List String
segments String.[] = "" ∷ []
segments (String.◌∷◌ c s) =
    let rest = segments s in if code c == 47 then "" ∷ rest else onto_first (String.◌∷◌ c "") rest

unfoldable pub is_safe_tree_path : String → Bool
unfolding starts_at_root has_strange_char segments
is_safe_tree_path value =
    if str_eq value ""
      || (ltb 1024 (size value) || (starts_at_root value || has_strange_char value))
    then false
    else not (any (λ s. str_eq s "" || (str_eq s "." || str_eq s "..")) (segments value))

-- The set of the safe paths, as a list.
abbrev pub files_of : List String → List String
files_of paths = keep is_safe_tree_path paths

abbrev pub has_root_file : List String → String → Bool
has_root_file files name = any (λ f. str_eq f name) files

unfoldable pub first_entrypoint : List String → List String → Option String
first_entrypoint files candidates = find? (has_root_file files) candidates

unfoldable pub is_node_candidate : List String → Bool
is_node_candidate files =
    has_root_file files "package.json" || is_some (first_entrypoint files node_entrypoints)

unfoldable pub is_python_candidate : List String → Bool
is_python_candidate files =
    has_root_file files "pyproject.toml"
    || (has_root_file files "requirements.txt"
        || is_some (first_entrypoint files python_entrypoints))

abbrev pub node_plan : String → ProjectProfilePlan
node_plan entrypoint = record {
  project_type = node;
  profile = "node-http";
  port = 3000;
  health_path = "/health";
  test_profile = "node-basic";
  entrypoint = entrypoint;
  base_image = "node:22-bookworm-slim";
}

abbrev pub python_plan : String → ProjectProfilePlan
python_plan entrypoint = record {
  project_type = python;
  profile = "python-http";
  port = 8000;
  health_path = "/health";
  test_profile = "python-basic";
  entrypoint = entrypoint;
  base_image = "python:3.12-slim";
}

abbrev pub plan_for : ProjectType → (String → ProjectProfilePlan) → Option String → Detection
plan_for candidate plan none = unsupported unsupported_entrypoint (candidate ∷ [])
plan_for candidate plan (some entrypoint) = supported (plan entrypoint)

-- The choice among the candidates.
unfoldable pub detect_in : Bool → Bool → List String → Detection
unfolding first_entrypoint
detect_in false false files = unsupported unsupported_profile []
detect_in true true files = unsupported ambiguous_profile (node ∷ python ∷ [])
detect_in true false files = plan_for node node_plan (first_entrypoint files node_entrypoints)
detect_in false true files = plan_for python python_plan (first_entrypoint files python_entrypoints)

unfoldable pub detect_project_profile : List String → Detection
unfolding detect_in is_node_candidate is_python_candidate is_safe_tree_path
detect_project_profile paths =
    let files = files_of paths in
    detect_in (is_node_candidate files) (is_python_candidate files) files

abbrev command : ProjectType → String → String
command node entrypoint = append "[\"node\", \"/app/" (append entrypoint "\"]")
command python entrypoint = append "[\"python3\", \"/app/" (append entrypoint "\"]")

unfoldable pub build_controlled_dockerfile : ProjectProfilePlan → String
build_controlled_dockerfile plan = join_lines (
    append "FROM " plan.base_image
    ∷ "WORKDIR /app"
    ∷ "COPY . /app"
    ∷ "USER 1000:1000"
    ∷ append "EXPOSE " (decimal plan.port)
    ∷ append "CMD " (command plan.project_type plan.entrypoint)
    ∷ ""
    ∷ [])
