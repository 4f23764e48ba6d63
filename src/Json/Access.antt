-- ===== src/Json/Access.antt =====
-- Accessors of JSON documents as actions that may throw.
use client_server_architectu.Prelude.Int.{ℤ}
use client_server_architectu.Prelude.{◌≡◌, some, refl, none, Option, String}
use client_server_architectu.Json.{Json}
use client_server_architectu.Platform.{Platform}
use client_server_architectu.World.{World, Exec, json_or_throw, ◌>>=◌}

module _ ⦃p : Platform⦄ where
  -- `const std::string s = j.at(key)`
  abbrev pub string_at : String → Json → Exec String
  string_at key j = do v ← json_or_throw (p.at key j); json_or_throw (p.get_string v)

  abbrev pub text_in : Option Json → Option String
  text_in none = none
  text_in (some v) = p.get_string v

  -- the text of a member, if there is one
  abbrev pub text_at : String → Json → Option String
  text_at key j = text_in (p.at key j)

  pub string_at-text_at :
      (key : String) (j : Json) (w : World) → string_at key j w ≡ json_or_throw (text_at key j) w
  string_at-text_at key j w = go (p.at key j)
    where
      go :
          (o : Option Json)
          → (json_or_throw o >>= λ v. json_or_throw (p.get_string v)) w
            ≡ json_or_throw (text_in o) w
      go none = refl
      go (some v) = refl

  abbrev pub int_in : Option Json → Option ℤ
  int_in none = none
  int_in (some v) = p.get_int v

  -- the `int` of a member, if there is one
  abbrev pub int_at : String → Json → Option ℤ
  int_at key j = int_in (p.at key j)

  pub at-get_int :
      {A : Type 0} (o : Option Json) (f : ℤ → Exec A) {z : ℤ}
      → int_in o ≡ some z
      → (w : World) → (json_or_throw o >>= λ v. json_or_throw (p.get_int v) >>= f) w ≡ f z w
  at-get_int none f e w = cc
  at-get_int (some v) f e w = rw (e) refl
