-- ===== src/Base/Json.antt =====
-- `tao::json::value` as data, and the accessors that the code calls. The accessors throw on a value
-- of another type; a number that is negative or not whole is `other_number`, whose value no code
-- that is modelled reads.
use strfry_http.Base.Results.{Result, ok, err, bad_json_type, missing_key}
use strfry_http.Base.ByteStrings.{Bytes, bytes_eq}
use strfry_http.Base.Tests.{if◌then◌else◌}
use Prim.Native.Nat.{ℕ}
use mathlib.Core.Bool.{Bool, true, false}
use mathlib.Core.List.{List, [], ◌∷◌}

mutual
  pub data Json : Type 0 where
    null : Json
    boolean : Bool → Json
    unsigned : ℕ → Json
    other_number : Json
    string : Bytes → Json
    array : Items → Json
    object : Members → Json

  pub data Items : Type 0 where
    nil : Items
    cons : Json → Items → Items

  -- The members of an object in the order of its map.
  pub data Members : Type 0 where
    done : Members
    member : Bytes → Json → Members → Members

abbrev pub to_list : Items → List Json
to_list nil = []
to_list (cons v vs) = v ∷ to_list vs

abbrev pub to_items : List Json → Items
to_items [] = nil
to_items (v ∷ vs) = cons v (to_items vs)

abbrev pub to_members : Members → List (Bytes × Json)
to_members done = []
to_members (member k v ms) = (k, v) ∷ to_members ms

abbrev pub get_array : Json → Result (List Json)
get_array (array vs) = ok (to_list vs)
get_array _ = err bad_json_type

abbrev pub get_string : Json → Result Bytes
get_string (string s) = ok s
get_string _ = err bad_json_type

abbrev pub get_unsigned : Json → Result ℕ
get_unsigned (unsigned n) = ok n
get_unsigned _ = err bad_json_type

-- `v.is_array() && v.get_array().size() == 0`
abbrev pub is_empty_array : Json → Bool
is_empty_array (array nil) = true
is_empty_array _ = false

abbrev pub find_member : Bytes → Members → Result Json
find_member k done = err missing_key
find_member k (member j v ms) = let rest = find_member k ms in if bytes_eq j k then ok v else rest

-- `v.at(key)` of an object
abbrev pub at : Json → Bytes → Result Json
at (object ms) k = find_member k ms
at _ k = err bad_json_type
