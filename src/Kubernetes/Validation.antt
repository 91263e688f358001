-- ===== src/Kubernetes/Validation.antt =====
-- packages/k8s/src/validation.ts: the tests of the names, attempts and ports that the objects of a run
-- are made of, and how they fit the test of names in packages/config/src/index.ts.
use code_host.Prelude.{
  ℕ, zero, suc, String, Bool, true, false, ◌≡◌, ◌↔◌, refl, leb, ltb, ◌==◌, ◌&&◌, ◌||◌, not,
  if◌then◌else◌, arith,
}
use Prim.Native.Char.{Char, code}
use code_host.Prelude.Text.{◌++◌, decimal, size}
use code_host.Prelude.Result.{Result, ok, err}
use code_host.Config.Preview.{is_alphanumeric, is_name_end, is_kubernetes_name}

abbrev pub max_run_short_id_length : ℕ
max_run_short_id_length = 32

abbrev pub max_run_id_label_length : ℕ
max_run_id_label_length = 63

-- `[a-z0-9-]*[a-z0-9]`
unfoldable pub is_dns_label_end : String → Bool
is_dns_label_end String.[] = false
is_dns_label_end (String.◌∷◌ c String.[]) = is_alphanumeric c
is_dns_label_end (String.◌∷◌ c (String.◌∷◌ d s)) =
    let rest = is_dns_label_end (String.◌∷◌ d s) in (is_alphanumeric c || code c == 45) && rest

-- `DNS_LABEL`: `/^[a-z0-9](?:[a-z0-9-]*[a-z0-9])?$/`
unfoldable pub is_dns_label : String → Bool
is_dns_label String.[] = false
is_dns_label (String.◌∷◌ c String.[]) = is_alphanumeric c
is_dns_label (String.◌∷◌ c (String.◌∷◌ d s)) =
    is_alphanumeric c && is_dns_label_end (String.◌∷◌ d s)

-- `[A-Za-z0-9]`
abbrev pub is_alphanumeric_or_capital : Char → Bool
is_alphanumeric_or_capital c = is_alphanumeric c || (leb 65 (code c) && leb (code c) 90)

-- `[-A-Za-z0-9_.]*[A-Za-z0-9]`
unfoldable pub is_label_value_end : String → Bool
is_label_value_end String.[] = false
is_label_value_end (String.◌∷◌ c String.[]) = is_alphanumeric_or_capital c
is_label_value_end (String.◌∷◌ c (String.◌∷◌ d s)) =
    let rest = is_label_value_end (String.◌∷◌ d s) in
    (is_alphanumeric_or_capital c || (code c == 45 || (code c == 95 || code c == 46))) && rest

-- `LABEL_VALUE`: `/^[A-Za-z0-9](?:[-A-Za-z0-9_.]*[A-Za-z0-9])?$/`
unfoldable pub is_label_value : String → Bool
is_label_value String.[] = false
is_label_value (String.◌∷◌ c String.[]) = is_alphanumeric_or_capital c
is_label_value (String.◌∷◌ c (String.◌∷◌ d s)) =
    is_alphanumeric_or_capital c && is_label_value_end (String.◌∷◌ d s)

unfoldable pub assert_safe_slug : String → String → ℕ → Result String String
assert_safe_slug value field maximum_length =
    if size value == 0 || (ltb maximum_length (size value) || not (is_dns_label value))
    then err (
        field
        ++ (" must be a lowercase DNS label of at most "
            ++ (decimal maximum_length ++ " characters")))
    else ok value

unfoldable pub assert_label_value : String → String → Result String String
assert_label_value value field =
    if size value == 0 || (ltb max_run_id_label_length (size value) || not (is_label_value value))
    then err (field ++ " must be a valid Kubernetes label value")
    else ok value

unfoldable pub assert_attempt : ℕ → Result String ℕ
assert_attempt attempt =
    if ltb attempt 1 || ltb 99 attempt
    then err "attempt must be an integer between 1 and 99"
    else ok attempt

unfoldable pub assert_namespace : String → Result String String
assert_namespace value = assert_safe_slug value "namespace" 63

unfoldable pub assert_step_key : String → Result String String
assert_step_key value = assert_safe_slug value "stepKey" 32

unfoldable pub assert_container_port : ℕ → Result String ℕ
assert_container_port value =
    if ltb value 1 || ltb 65535 value
    then err "containerPort must be between 1 and 65535"
    else ok value

name_end-label :
    (n : ℕ) (s : String) → is_name_end n s ≡ (is_dns_label_end s && leb (size s) (suc n))
unfolding is_name_end is_dns_label_end
name_end-label n String.[] = refl
name_end-label n (String.◌∷◌ c String.[]) = ground arith
name_end-label zero (String.◌∷◌ c (String.◌∷◌ d s)) = ground arith
name_end-label (suc n) (String.◌∷◌ c (String.◌∷◌ d s)) =
    ground (arith, name_end-label n (String.◌∷◌ d s))

name-label : (s : String) → is_kubernetes_name s ≡ (is_dns_label s && leb (size s) 63)
unfolding is_kubernetes_name is_dns_label
name-label String.[] = refl
name-label (String.◌∷◌ c String.[]) = ground arith
name-label (String.◌∷◌ c (String.◌∷◌ d s)) = ground (arith, name_end-label 61 (String.◌∷◌ d s))

label-size : (s : String) → is_dns_label s ≡ true → (size s == 0) ≡ false
unfolding is_dns_label
label-size String.[] h = ground arith
label-size (String.◌∷◌ c s) h = ground arith

-- The namespaces that the objects of a run may be made in are exactly the names that a preview's
-- reference accepts: the two packages' tests of a name, one by a length and an unbounded pattern, the
-- other by a bounded one, agree on every text.
pub assert_namespace_iff :
    (value : String) → (assert_namespace value ≡ ok value) ↔ (is_kubernetes_name value ≡ true)
unfolding assert_namespace assert_safe_slug
assert_namespace_iff value =
    (λ h. ground (arith, name-label value), λ h. ground (arith, name-label value, label-size value))

label_end-value : (s : String) → is_dns_label_end s ≡ true → is_label_value_end s ≡ true
unfolding is_dns_label_end is_label_value_end
label_end-value String.[] h = ground arith
label_end-value (String.◌∷◌ c String.[]) h = ground arith
label_end-value (String.◌∷◌ c (String.◌∷◌ d s)) h = ground (arith, label_end-value (String.◌∷◌ d s))

label-value : (s : String) → is_dns_label s ≡ true → is_label_value s ≡ true
unfolding is_dns_label is_label_value
label-value String.[] h = ground arith
label-value (String.◌∷◌ c String.[]) h = ground arith
label-value (String.◌∷◌ c (String.◌∷◌ d s)) h = ground (arith, label_end-value (String.◌∷◌ d s))

-- A key of a step that passes its test is also accepted as the value of a label, of any field.
pub assert_step_key-label_value :
    (value field : String)
    → assert_step_key value ≡ ok value
    → assert_label_value value field ≡ ok value
unfolding assert_step_key assert_safe_slug assert_label_value
assert_step_key-label_value value field h = ground (arith, label-value value, label-size value)
