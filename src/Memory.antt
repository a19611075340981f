-- ===== src/Memory.antt =====
-- src/modules/tenant-memory: tenant-memory.service.ts over its repository. A memory is a JSON
-- object. A read of a property sees what the value holds itself, so a key is not the name of a
-- member that Object.prototype has; the order of the keys of an object is not kept by the
-- database's `jsonb` and means nothing here.
pub mod Paths
pub mod Service
use f_chat_backend.Prelude.{
  ℕ, zero, suc, Text, text, ◌==◌, Option, none, some, List, [], ◌∷◌, Bool, true, false,
}
use mathlib.Core.List.{reverse}
use f_chat_backend.Prelude.{if◌then◌else◌, nat_eq}

-- A number is kept as its literal.
mutual
  pub data Value : Type 0 where
    null : Value
    flag : Bool → Value
    number : Text → Value
    string : Text → Value
    array : Items → Value
    object : Fields → Value

  pub data Items : Type 0 where
    nil : Items
    item : Value → Items → Items

  pub data Fields : Type 0 where
    end : Fields
    field : Text → Value → Fields → Fields

-- o[k]
unfoldable pub get_field : Fields → Text → Option Value
get_field end k = none
get_field (field j v fs) k = if j == k then some v else get_field fs k

-- {...o, [k]: v}
unfoldable pub put_field : Fields → Text → Value → Fields
put_field end k v = field k v end
put_field (field j w fs) k v = if j == k then field j v fs else field j w (put_field fs k v)

-- delete o[k]
unfoldable pub remove_field : Fields → Text → Fields
remove_field end k = end
remove_field (field j v fs) k =
    let rest = remove_field fs k in if j == k then rest else field j v rest

-- The decimal digits of an index, the last one first: those of the index after it.
unfoldable pub next_index : List ℕ → List ℕ
next_index [] = 49 ∷ []
next_index (d ∷ ds) = let rest = next_index ds in if nat_eq d 57 then 48 ∷ rest else suc d ∷ ds

-- The entries of an array, and the code units of a string, under their indices.
unfoldable pub items_from : List ℕ → Items → Fields
unfolding next_index
items_from i nil = end
items_from i (item v vs) = field (reverse i) v (items_from (next_index i) vs)

unfoldable pub units_from : List ℕ → Text → Fields
unfolding next_index
units_from i [] = end
units_from i (c ∷ s) = field (reverse i) (string (c ∷ [])) (units_from (next_index i) s)

-- What `...(o ?? {})` copies: a value that is not an object is spread as JavaScript does it.
unfoldable pub spread : Option Value → Fields
unfolding items_from units_from
spread none = end
spread (some null) = end
spread (some (flag b)) = end
spread (some (number n)) = end
spread (some (string s)) = units_from (48 ∷ []) s
spread (some (array vs)) = items_from (48 ∷ []) vs
spread (some (object fs)) = fs

-- setNestedValue; with no segment at all the key is that of `undefined`.
unfoldable pub set_nested_value : Fields → List Text → Value → Fields
unfolding put_field get_field spread
set_nested_value obj [] value = put_field obj (text "undefined") value
set_nested_value obj (head ∷ []) value = put_field obj head value
set_nested_value obj (head ∷ next ∷ rest) value =
    put_field obj head (object (set_nested_value (spread (get_field obj head)) (next ∷ rest) value))

-- s.split('/')
unfoldable pub add_unit : ℕ → List Text → List Text
add_unit c [] = (c ∷ []) ∷ []
add_unit c (s ∷ ss) = (c ∷ s) ∷ ss

unfoldable pub split_slash : Text → List Text
unfolding add_unit
split_slash [] = [] ∷ []
split_slash (c ∷ s) = let rest = split_slash s in if nat_eq c 47 then [] ∷ rest else add_unit c rest

-- .filter(Boolean)
unfoldable pub filled : List Text → List Text
filled [] = []
filled ([] ∷ ss) = filled ss
filled ((c ∷ s) ∷ ss) = (c ∷ s) ∷ filled ss

unfoldable pub segments : Text → List Text
unfolding split_slash filled
segments raw = filled (split_slash raw)
