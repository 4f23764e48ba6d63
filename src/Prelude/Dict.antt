-- ===== src/Prelude/Dict.antt =====
-- Maps with text keys as association lists: `std::map` and `std::unordered_map` with `std::string`
-- keys, and tables with a text primary key. The order of the entries is not modelled.
use native.Mathlib.Omega.{arith}
use client_server_architectu.Prelude.Tests.{if◌then◌else◌}
use mathlib.Core.List.{List, [], ◌∷◌}
use mathlib.Core.Bool.{Bool, true, false}
use text.Mathlib.TextEquality.{eq_iff}
use mathlib.Core.Option.{Option, none, some}
use mathlib.Core.Option
use Prim.Native.String.{String}
use mathlib.Core.Path.{◌≡◌, refl}
use text.Mathlib.Text.{◌==◌}
use Prim.Native.Nat.{ℕ, ◌+◌}

abbrev pub Dict {ℓ} : Type ℓ → Type ℓ
Dict V = List (String × V)

abbrev pub is_some {ℓ} : {A : Type ℓ} → Option A → Bool
is_some none = false
is_some (some a) = true

module _ {ℓ} {V : Type ℓ} where
  unfoldable pub lookup : String → Dict V → Option V
  lookup key [] = none
  lookup key ((name, value) ∷ entries) = if name == key then some value else lookup key entries

  -- `m[key] = value`
  unfoldable pub insert : String → V → Dict V → Dict V
  insert key value [] = (key, value) ∷ []
  insert key value ((name, old) ∷ entries) =
      if name == key then (key, value) ∷ entries else (name, old) ∷ insert key value entries

  -- `m.erase(k)`
  unfoldable pub erase : String → Dict V → Dict V
  erase k [] = []
  erase k ((j, w) ∷ m) = let rest = erase k m in if j == k then rest else (j, w) ∷ rest

  -- `UPDATE … WHERE key = k`: every row of the key is changed
  unfoldable pub update : String → (V → V) → Dict V → Dict V
  update k f [] = []
  update k f ((j, w) ∷ m) = let rest = update k f m in (j, if j == k then f w else w) ∷ rest

  -- `COUNT(*) … WHERE key = k`
  unfoldable pub count : String → Dict V → ℕ
  count k [] = 0
  count k ((j, w) ∷ m) = (if j == k then 1 else 0) + count k m

  pub lookup-insert :
      (key other : String) (value : V) (entries : Dict V)
      → lookup other (insert key value entries)
        ≡ (if key == other then some value else lookup other entries)
  unfolding lookup insert
  lookup-insert key other value [] = refl
  lookup-insert key other value ((name, old) ∷ entries) =
      let tail = lookup-insert key other value entries in
      ground (arith, eq_iff name key, eq_iff name other, eq_iff key other, tail)

  pub lookup-erase :
      (k j : String) (m : Dict V) → lookup j (erase k m) ≡ (if k == j then none else lookup j m)
  unfolding lookup erase
  lookup-erase k j [] = ground arith
  lookup-erase k j ((i, w) ∷ m) =
      ground (arith, eq_iff k j, eq_iff i k, eq_iff i j, lookup-erase k j m)

  pub lookup-update :
      (k j : String) (f : V → V) (m : Dict V)
      → lookup j (update k f m) ≡ (if k == j then Option.map f (lookup j m) else lookup j m)
  unfolding lookup update
  lookup-update k j f [] = ground arith
  lookup-update k j f ((i, w) ∷ m) =
      ground (arith, eq_iff k j, eq_iff i k, eq_iff i j, lookup-update k j f m)

  -- No key stands twice.
  abbrev pub NodupKeys : Dict V → Type ℓ
  NodupKeys [] = Unit
  NodupKeys ((k, _) ∷ m) = (lookup k m ≡ none) × NodupKeys m

  pub insert-NodupKeys : (k : String) (v : V) (m : Dict V) → NodupKeys m → NodupKeys (insert k v m)
  unfolding insert lookup
  insert-NodupKeys k v [] h = (refl, tt)
  insert-NodupKeys k v ((j, w) ∷ m) h =
      ground (arith, eq_iff j k, eq_iff k j, insert-NodupKeys k v m h.1, lookup-insert k j v m)

  pub update-NodupKeys :
      (k : String) (f : V → V) (m : Dict V) → NodupKeys m → NodupKeys (update k f m)
  unfolding update
  update-NodupKeys k f [] h = tt
  update-NodupKeys k f ((j, w) ∷ m) h =
      ground (arith, update-NodupKeys k f m h.1, lookup-update k j f m)

  count_absent : (k : String) (m : Dict V) → lookup k m ≡ none → count k m ≡ 0
  unfolding lookup count
  count_absent k [] h = refl
  count_absent k ((j, w) ∷ m) h = ground (arith, count_absent k m)

  -- With distinct keys a key is counted once or not at all.
  pub count-lookup :
      (k : String) (m : Dict V) → NodupKeys m → count k m ≡ (if is_some (lookup k m) then 1 else 0)
  unfolding lookup count
  count-lookup k [] h = refl
  count-lookup k ((j, w) ∷ m) h = ground (arith, eq_iff j k, count-lookup k m h.1, count_absent k m)

pub ruleset dict_laws = (lookup-insert, lookup-erase, lookup-update)
