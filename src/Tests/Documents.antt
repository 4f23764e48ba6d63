-- ===== src/Tests/Documents.antt =====
-- A reader of JSON documents as the documentation of `nlohmann::json` describes it, to instantiate
-- the platform of the examples.
use client_server_architectu.Prelude.Int.{pos, to_int32, ℤ}
use client_server_architectu.Prelude.{
  if◌then◌else◌, ◌≡◌, ◌==◌, true, some, none, false, eq_iff, arith, String, Option, Bool, refl,
}
use client_server_architectu.Json.{
  Json, is_object, null, boolean, integer, float, array, string, object, Members, end, member,
}

unfoldable pub find : String → Members → Option Json
find k end = none
find k (member j v m) = if j == k then some v else find k m

unfoldable pub assign : String → Json → Members → Members
assign k v end = member k v end
assign k v (member j u m) = if j == k then member k v m else member j u (assign k v m)

-- `j.at(k)`: throws on a missing key and on what is no object
unfoldable pub at : String → Json → Option Json
at k (object m) = find k m
at k _ = none

-- `j.contains(k)`: false on what is no object
unfoldable pub contains : String → Json → Bool
contains k (object m) = elim (find k m) [ none ↦ false | some v ↦ true ]
contains k _ = false

-- the conversion to `std::string`
unfoldable pub get_string : Json → Option String
get_string (string s) = some s
get_string _ = none

-- every number and Boolean is accepted, and cut to 32 bits
unfoldable pub get_int : Json → Option ℤ
get_int (integer z) = some (to_int32 z)
get_int (float s z) = some (to_int32 z)
get_int (boolean b) = some (if b then pos 1 else pos 0)
get_int _ = none

-- `j.value(k, d)`: throws on what is no object, and where the member is no string
unfoldable pub value : String → String → Json → Option String
value k d (object m) = elim (find k m) [ none ↦ some d | some v ↦ get_string v ]
value k d _ = none

pub value-is_object : (k d : String) (j : Json) → is_object j ≡ false → value k d j ≡ none
unfolding value
value-is_object k d null e = refl
value-is_object k d (boolean b) e = refl
value-is_object k d (integer z) e = refl
value-is_object k d (float t z) e = refl
value-is_object k d (string t) e = refl
value-is_object k d (array xs) e = refl
value-is_object k d (object m) e = cc

-- `j[k] = v`: a null becomes an object; throws on any other value that is no object
unfoldable pub set_member : String → Json → Json → Option Json
set_member k v (object m) = some (object (assign k v m))
set_member k v null = some (object (member k v end))
set_member k v _ = none

pub find-assign :
    (k j : String) (v : Json) (m : Members)
    → find j (assign k v m) ≡ (if k == j then some v else find j m)
unfolding find assign
find-assign k j v end = refl
find-assign k j v (member i w m) =
    ground (arith, eq_iff k j, eq_iff i k, eq_iff i j, find-assign k j v m)

pub at-set_member :
    (k i : String) (v j j' : Json)
    → set_member k v j ≡ some j'
    → at i j' ≡ (if k == i then some v else at i j)
unfolding set_member at find assign
at-set_member k i v (object m) j' e =
    let q : object (assign k v m) ≡ j' = cc in rw (← q) (find-assign k i v m)
at-set_member k i v null j' e =
    let q : object (member k v end) ≡ j' = cc in rw (← q) (find-assign k i v end)
at-set_member k i v (boolean b) j' e = cc
at-set_member k i v (integer z) j' e = cc
at-set_member k i v (float s z) j' e = cc
at-set_member k i v (string s) j' e = cc
at-set_member k i v (array es) j' e = cc

pub contains-at : (k : String) (j v : Json) → at k j ≡ some v → contains k j ≡ true
unfolding at contains
contains-at k (object m) v e = rw (contains, e) refl
contains-at k null v e = cc
contains-at k (boolean b) v e = cc
contains-at k (integer z) v e = cc
contains-at k (float s z) v e = cc
contains-at k (string s) v e = cc
contains-at k (array es) v e = cc
