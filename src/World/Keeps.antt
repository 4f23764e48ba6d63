-- ===== src/World/Keeps.antt =====
-- Actions that keep a property of the state, whatever they return or throw, with a rule for each way
-- to compose actions.
use client_server_architectu.World.{
  World, Exec, Result, ok, err, json_exception, std_exception, undefined_behaviour, pure, gets,
  modify, json_or_throw, continue, on_json, on_std, catch_json, catch_std, ◌>>=◌,
}
use client_server_architectu.Prelude.{Bool, true, false, Option, some, none, if◌then◌else◌}

pub record Keeps {A : Type 0} (P : World → Type 0) (m : Exec A) : Type 0 where
  pub at : (w : World) → P w → P (m w).1

module _ {P : World → Type 0} {A : Type 0} where
  pub Keeps-pure : (a : A) → Keeps P (pure a)
  Keeps-pure a = record { at = λ w h. h }

  pub Keeps-gets : (f : World → A) → Keeps P (gets f)
  Keeps-gets f = record { at = λ w h. h }

  pub Keeps-json_or_throw : (o : Option A) → Keeps P (json_or_throw o)
  Keeps-json_or_throw none = record { at = λ w h. h }
  Keeps-json_or_throw (some a) = record { at = λ w h. h }

  pub Keeps-if : (b : Bool) (m k : Exec A) → Keeps P m → Keeps P k → Keeps P (if b then m else k)
  Keeps-if true m k a b = a
  Keeps-if false m k a b = b

  pub Keeps-catch_json :
      (handler m : Exec A) → Keeps P handler → Keeps P m → Keeps P (catch_json handler m)
  Keeps-catch_json handler m a b = record { at = λ w h. go (m w) (b.at w h) }
    where
      go : (r : Result A × World) → P r.1 → P (on_json handler r).1
      go (ok x, v) h = h
      go (err json_exception, v) h = a.at v h
      go (err std_exception, v) h = h
      go (err undefined_behaviour, v) h = h

  pub Keeps-catch_std :
      (handler m : Exec A) → Keeps P handler → Keeps P m → Keeps P (catch_std handler m)
  Keeps-catch_std handler m a b = record { at = λ w h. go (m w) (b.at w h) }
    where
      go : (r : Result A × World) → P r.1 → P (on_std handler r).1
      go (ok x, v) h = h
      go (err json_exception, v) h = a.at v h
      go (err std_exception, v) h = a.at v h
      go (err undefined_behaviour, v) h = h

module _ {P : World → Type 0} where
  pub Keeps-modify : (f : World → World) → ((w : World) → P w → P (f w)) → Keeps P (modify f)
  Keeps-modify f k = record { at = k }

  -- a test of the state, and an action that is chosen by the state
  pub Keeps-test :
      {A : Type 0} (t : World → Bool) (m k : Exec A)
      → Keeps P m
      → Keeps P k
      → Keeps P (λ w. if◌then◌else◌ {A = Result A × World} (t w) (m w) (k w))
  Keeps-test {A} t m k a b = record { at = λ w h. go (t w) w h }
    where
      go : (c : Bool) (w : World) → P w → P (if◌then◌else◌ {A = Result A × World} c (m w) (k w)).1
      go true w h = a.at w h
      go false w h = b.at w h

  pub Keeps-chosen :
      {A : Type 0} (f : World → Exec A) → ((w : World) → Keeps P (f w)) → Keeps P (λ w. f w w)
  Keeps-chosen f k = record { at = λ w. (k w).at w }

  pub Keeps-bind :
      {A B : Type 0} (m : Exec A) (f : A → Exec B)
      → Keeps P m
      → ((a : A) → Keeps P (f a))
      → Keeps P (m >>= f)
  Keeps-bind {A} {B} m f first second = record { at = λ w h. go (m w) (first.at w h) }
    where
      go : (r : Result A × World) → P r.1 → P (continue f r).1
      go (ok a, v) h = (second a).at v h
      go (err x, v) h = h

pub ruleset keeps_rules = (
  Keeps-pure, Keeps-gets, Keeps-json_or_throw, Keeps-if, Keeps-catch_json, Keeps-catch_std,
  Keeps-modify, Keeps-bind,
)
