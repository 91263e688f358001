-- ===== src/Json.antt =====
-- Values of unknown type, as `typeof` and property reads in the source see them: payloads of jobs
-- and webhooks, the `details` of a step, a run's execution plan.
pub mod Print
use code_host.Prelude.{ℕ, String, Bool, Option, none, some, str_eq, if◌then◌else◌}

mutual
  pub data Value : Type 0 where
    null : Value
    boolean : Bool → Value
    natural : ℕ → Value
    other_number : String → Value  -- a number that is no integer, or is negative, by its text
    text : String → Value
    array : Items → Value
    object : Fields → Value

  pub data Items : Type 0 where
    nil : Items
    cons : Value → Items → Items

  pub data Fields : Type 0 where
    end : Fields
    field : String → Value → Fields → Fields

-- `object.key`; `none` is `undefined`.
unfoldable pub get : String → Fields → Option Value
get key end = none
get key (field k v rest) = if str_eq k key then some v else get key rest

-- `object[key] = value`
unfoldable pub put : String → Value → Fields → Fields
put key value end = field key value end
put key value (field k v rest) =
    if str_eq k key then field k value rest else field k v (put key value rest)

-- `{ ...left, ...right }`
unfoldable pub spread : Fields → Fields → Fields
unfolding put
spread left end = left
spread left (field k v rest) = spread (put k v left) rest
