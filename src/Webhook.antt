-- ===== src/Webhook.antt =====
-- packages/contracts/src/webhook.ts: what is read of Gitea's event on a pull request, and when an event
-- is fresh. `to_date` stands for the platform's `Date`, which a parsed date is made with.
pub mod Rows
pub mod Service
pub mod Acceptance
pub mod Capacity
pub mod Deliveries
pub mod Runs
use code_host.Prelude.{
  ℕ, zero, suc, ◌+◌, ◌-◌, String, Bool, true, false, List, [], ◌∷◌, Option, none, some, any, str_eq,
  ltb, leb, ◌==◌, ◌&&◌, ◌||◌, not, or_else, if◌then◌else◌,
}
use Prim.Native.Char.{Char, code}
use Prim.Native.String
use code_host.Json.{Value, text, natural, object, get}

-- A time of a `Date`: milliseconds since 1970, or one more than these before.
pub data Instant : Type 0 where
  at before : ℕ → Instant

-- `isWebhookEventFresh`
unfoldable pub is_webhook_event_fresh : Instant → ℕ → ℕ → Bool
is_webhook_event_fresh (at created) now max_age = leb created now && leb (now - created) max_age
is_webhook_event_fresh (before n) now max_age = leb (now + suc n) max_age

-- The characters that `trim` takes away.
abbrev is_space : ℕ → Bool
is_space c =
    (leb 9 c && leb c 13)
    || (leb 8192 c && leb c 8202
        || any (λ d. c == d) (32 ∷ 160 ∷ 5760 ∷ 8232 ∷ 8233 ∷ 8239 ∷ 8287 ∷ 12288 ∷ 65279 ∷ []))

trim_start : String → String
trim_start String.[] = ""
trim_start (String.◌∷◌ c s) =
    let rest = trim_start s in if is_space (code c) then rest else String.◌∷◌ c s

trim_end : String → String
trim_end String.[] = ""
trim_end (String.◌∷◌ c s) =
    let rest = trim_end s in if is_space (code c) && str_eq rest "" then "" else String.◌∷◌ c rest

unfoldable pub trim : String → String
unfolding trim_start trim_end
trim s = trim_end (trim_start s)

abbrev pub size : String → ℕ
size String.[] = 0
size (String.◌∷◌ c s) = suc (size s)

-- `z.string().trim().min(1).max(n)`
unfoldable pub is_label : ℕ → String → Bool
is_label n s = leb 1 (size (trim s)) && leb (size (trim s)) n

abbrev is_hex_digit : ℕ → Bool
is_hex_digit c =
    (leb b'0' c && leb c b'9') || ((leb b'a' c && leb c b'f') || (leb b'A' c && leb c b'F'))

is_hex : String → Bool
is_hex String.[] = true
is_hex (String.◌∷◌ c s) = is_hex_digit (code c) && is_hex s

-- `/^[0-9a-f]{7,64}$/i`
unfoldable pub is_sha : String → Bool
unfolding is_hex
is_sha s = is_hex s && (leb 7 (size s) && leb (size s) 64)

infixl 5 ◌>>=◌
abbrev ◌>>=◌ : {A B : Type 0} → Option A → (A → Option B) → Option B
none >>= f = none
some a >>= f = f a

-- A property of a value; `none` is `undefined`.
unfoldable pub member : String → Value → Option Value
member key (object fields) = get key fields
member key _ = none

as_positive : Option Value → Option ℕ
as_positive (some (natural n)) = if leb 1 n then some n else none
as_positive _ = none

as_label : ℕ → Option Value → Option String
as_label n (some (text s)) = if is_label n s then some s else none
as_label n _ = none

as_sha : Option Value → Option String
as_sha (some (text s)) = if is_sha s then some s else none
as_sha _ = none

as_object : Option Value → Option Value
as_object (some (object fields)) = some (object fields)
as_object _ = none

pub data EventType : Type 0 where
  opened reopened synchronize : EventType

-- `normalizeGiteaAction`, on the actions that the schema admits.
unfoldable pub normalize_gitea_action : String → Option EventType
normalize_gitea_action action =
    if str_eq action "opened"
    then some opened
    else if str_eq action "reopened"
    then some reopened
    else if str_eq action "synchronize" || str_eq action "synchronized"
    then some synchronize
    else none

as_action : Option Value → Option EventType
unfolding normalize_gitea_action
as_action (some (text s)) = normalize_gitea_action s
as_action _ = none

-- `WebhookEventInput`, with the delivery's id kept apart, and the repository's full name as it was sent.
pub record WebhookEvent : Type 0 where
  pub event_type : EventType
  pub repository_id : ℕ
  pub pull_request_id : ℕ
  pub external_number : ℕ
  pub head_sha : String
  pub created_at : Instant
  pub full_name : String

module _ (to_date : Value → Option Instant) where
  -- A date that may be missing, but not be wrong.
  optional_date : Option Value → Option (Option Instant)
  optional_date none = some none
  optional_date (some v) = to_date v >>= λ date. some (some date)

  required_date : Option Value → Option Instant
  required_date none = none
  required_date (some v) = to_date v

  abbrev first_date : Option Instant → Option Instant → Instant → Instant
  first_date (some a) b c = a
  first_date none (some b) c = b
  first_date none none c = c

  -- `GiteaPullRequestWebhookPayloadSchema` and the fields that `normalizeGiteaPullRequestWebhook` takes.
  unfoldable pub parse_payload : Value → Option WebhookEvent
  unfolding as_positive as_label as_sha as_object as_action optional_date required_date member
  parse_payload payload = do
    action ← as_action (member "action" payload)
    created ← optional_date (member "created_at" payload)
    repository ← as_object (member "repository" payload)
    repository_id ← as_positive (member "id" repository)
    full_name ← as_label 512 (member "full_name" repository)
    pull_request ← as_object (member "pull_request" payload)
    pull_request_id ← as_positive (member "id" pull_request)
    number ← as_positive (member "number" pull_request)
    pull_request_created ← required_date (member "created_at" pull_request)
    updated ← optional_date (member "updated_at" pull_request)
    head ← as_object (member "head" pull_request)
    sha ← as_sha (member "sha" head)
    some (record {
      event_type = action;
      repository_id = repository_id;
      pull_request_id = pull_request_id;
      external_number = number;
      head_sha = sha;
      created_at = first_date created updated pull_request_created;
      full_name = full_name;
    })
