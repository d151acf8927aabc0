-- ===== src/Value.antt =====
-- The values of type `interface{}` that a configuration or a JSON document holds.
use hasura_secret_refresh.Base.{
  ℕ, suc, map, Option, none, some, Bool, List, [], ◌∷◌, ◌++◌, if◌then◌else◌,
}
use hasura_secret_refresh.Strings.{Text, codes, str_lt, join, decimal}
use hasura_secret_refresh.Assoc.{Assoc}

-- `negsuc n` is -(n + 1).
pub data ℤ : Type 0 where
  pos : ℕ → ℤ
  negsuc : ℕ → ℤ

-- `int` is a Go int (the YAML reader's integers); `num` is a float64, by the text that `%v` prints.
mutual
  pub data Value : Type 0 where
    null : Value
    bool : Bool → Value
    int : ℤ → Value
    num : Text → Value
    str : Text → Value
    arr : Items → Value
    obj : Fields → Value

  pub data Items : Type 0 where
    nil : Items
    cons : Value → Items → Items

  pub data Fields : Type 0 where
    end : Fields
    field : Text → Value → Fields → Fields

-- map[string]interface{}
abbrev pub Object : Type 0
Object = Assoc Value

unfoldable pub entries : Fields → Object
entries end = []
entries (field k v fs) = (k, v) ∷ entries fs

unfoldable pub of_entries : Object → Fields
of_entries [] = end
of_entries ((k, v) ∷ m) = field k v (of_entries m)

unfoldable pub elements : Items → List Value
elements nil = []
elements (cons v vs) = v ∷ elements vs

-- v.(string), v.(bool), v.(int), v.(map[string]interface{}), v.([]interface{})
abbrev pub as_str : Value → Option Text
as_str (str s) = some s
as_str _ = none

abbrev pub as_bool : Value → Option Bool
as_bool (bool b) = some b
as_bool _ = none

abbrev pub as_int : Value → Option ℤ
as_int (int i) = some i
as_int _ = none

unfoldable pub as_object : Value → Option Object
unfolding entries
as_object (obj fs) = some (entries fs)
as_object _ = none

unfoldable pub as_list : Value → Option (List Value)
unfolding elements
as_list (arr vs) = some (elements vs)
as_list _ = none

-- fmt's `%d` of an int.
abbrev pub show_int : ℤ → Text
show_int (pos n) = decimal n
show_int (negsuc n) = codes "-" ++ decimal (suc n)

-- Entries sorted by their keys.
insert_sorted : Text × Text → Assoc Text → Assoc Text
insert_sorted e [] = e ∷ []
insert_sorted e (f ∷ m) =
    let later = insert_sorted e m in if str_lt f.0 e.0 then f ∷ later else e ∷ f ∷ m

sort_entries : Assoc Text → Assoc Text
sort_entries [] = []
sort_entries (e ∷ m) = insert_sorted e (sort_entries m)

show_entry : Text × Text → Text
show_entry (k, v) = k ++ (codes ":" ++ v)

-- fmt's `%v`: a list in brackets, a map with its entries sorted by key.
unfoldable mutual
  unfolding insert_sorted sort_entries show_entry

  pub show : Value → Text
  show null = codes "<nil>"
  show (bool b) = if b then codes "true" else codes "false"
  show (int i) = show_int i
  show (num t) = t
  show (str s) = s
  show (arr vs) = codes "[" ++ (join (show_items vs) (codes " ") ++ codes "]")
  show (obj fs) =
      codes "map["
      ++ (join (map show_entry (sort_entries (show_fields fs))) (codes " ") ++ codes "]")

  show_items : Items → List Text
  show_items nil = []
  show_items (cons v vs) = show v ∷ show_items vs

  show_fields : Fields → Assoc Text
  show_fields end = []
  show_fields (field k v fs) = (k, show v) ∷ show_fields fs
