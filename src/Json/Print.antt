-- ===== src/Json/Print.antt =====
-- `JSON.stringify`, and the sorting of keys as `sortKeys` of packages/k8s/src/reconcile.ts does it.
use code_host.Prelude.{String, true, false, if◌then◌else◌}
use Prim.Native.String.{compare}
use package.text.Mathlib.Text.{is_lt}
use code_host.Prelude.Text.{◌++◌ as append, decimal, quote}
use code_host.Json.{
  Value, null, boolean, natural, other_number, text, array, object, Items, nil, cons, Fields, end,
  field,
}

pub insert_sorted : String → Value → Fields → Fields
insert_sorted key value end = field key value end
insert_sorted key value (field k v rest) =
    let later = insert_sorted key value rest in
    if is_lt (compare key k) then field key value (field k v rest) else field k v later

unfoldable mutual
  pub sort_keys : Value → Value
  sort_keys (array items) = array (sort_items items)
  sort_keys (object fields) = object (sort_fields fields)
  sort_keys null = null
  sort_keys (boolean b) = boolean b
  sort_keys (natural n) = natural n
  sort_keys (other_number s) = other_number s
  sort_keys (text s) = text s

  pub sort_items : Items → Items
  sort_items nil = nil
  sort_items (cons v rest) = cons (sort_keys v) (sort_items rest)

  pub sort_fields : Fields → Fields
  sort_fields end = end
  sort_fields (field k v rest) = insert_sorted k (sort_keys v) (sort_fields rest)

unfoldable mutual
  pub stringify : Value → String
  stringify null = "null"
  stringify (boolean true) = "true"
  stringify (boolean false) = "false"
  stringify (natural n) = decimal n
  stringify (other_number s) = s
  stringify (text s) = quote s
  stringify (array nil) = "[]"
  stringify (array (cons v rest)) = append "[" (append (stringify v) (stringify_items rest))
  stringify (object end) = "{}"
  stringify (object (field k v rest)) =
      append "{" (append (quote k) (append ":" (append (stringify v) (stringify_fields rest))))

  pub stringify_items : Items → String
  stringify_items nil = "]"
  stringify_items (cons v rest) = append "," (append (stringify v) (stringify_items rest))

  pub stringify_fields : Fields → String
  stringify_fields end = "}"
  stringify_fields (field k v rest) =
      append "," (append (quote k) (append ":" (append (stringify v) (stringify_fields rest))))
