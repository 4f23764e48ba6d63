-- ===== src/World/Stable.antt =====
-- Actions that keep a relation between the state before and after, whatever they return or throw.
use client_server_architectu.World.{
  json_exception, std_exception, undefined_behaviour, err, ok, continue, on_json, Result, ◌>>=◌,
  catch_json, json_or_throw, Exec, World,
}
use client_server_architectu.Prelude.{some, none, Option}

module _ (R : World → World → Type 0) where
  abbrev pub Stable : {A : Type 0} → Exec A → Type 0
  Stable m = (w : World) → R w (m w).1

  pub json_or_throw-Stable :
      {A : Type 0} (o : Option A) → ((w : World) → R w w) → Stable (json_or_throw o)
  json_or_throw-Stable none same w = same w
  json_or_throw-Stable (some a) same w = same w

  pub >>=-Stable :
      {A B : Type 0} (m : Exec A) (f : A → Exec B)
      → ((u v w : World) → R u v → R v w → R u w)
      → Stable m
      → ((a : A) → Stable (f a))
      → Stable (m >>= f)
  >>=-Stable {A} {B} m f trans first second w = go (m w) (first w)
    where
      go : (r : Result A × World) → R w r.1 → R w (continue f r).1
      go (ok a, v) h = trans w v _ h (second a v)
      go (err x, v) h = h

  pub catch_json-Stable :
      {A : Type 0} (handler m : Exec A)
      → ((u v w : World) → R u v → R v w → R u w)
      → Stable handler
      → Stable m
      → Stable (catch_json handler m)
  catch_json-Stable {A} handler m trans handled body w = go (m w) (body w)
    where
      go : (r : Result A × World) → R w r.1 → R w (on_json handler r).1
      go (ok a, v) h = h
      go (err json_exception, v) h = trans w v _ h (handled v)
      go (err std_exception, v) h = h
      go (err undefined_behaviour, v) h = h
