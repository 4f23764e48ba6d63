-- ===== src/Tests/Terminal.antt =====
-- A JSON library for the client, and a server's reader that agrees with it, to instantiate the
-- client of the examples.
use client_server_architectu.Tests.{test_platform}
use client_server_architectu.Prelude.Int.{pos}
use client_server_architectu.Client.{Library}
use client_server_architectu.Json.Access.{text_in, text_at}
use client_server_architectu.Client.Login.{welcome}
use client_server_architectu.Platform.{Platform}
use client_server_architectu.Client.Members.{IsRead}
use client_server_architectu.Prelude.{
  ◌≡◌, ◌==◌, some, refl, none, false, eq_refl, ap, [], String, Option,
}
use client_server_architectu.Tests.Documents
use client_server_architectu.Json.{
  Json, object, member, end, string, integer, null, boolean, float, array,
}

abbrev add_member : Json → String → Json → Json
add_member (object m) k v = object (member k v m)
add_member _ k v = object (member k v end)

-- the reply of a login of "Ship1"
abbrev pub welcome_reply : Json
welcome_reply = welcome "Ship1"

instance abbrev pub test_library : Library
test_library = record {
  create_object = some (object end);
  add_string = λ o k s. add_member o k (string s);
  add_number = λ o k z. add_member o k (integer z);
  add_item = add_member;
  print = λ j. "request";
  print_indented = λ j. "request";
  parse = λ s. some welcome_reply;
  get_item = λ j k. Documents.at k j;
  string_value = Documents.get_string;
  int_value = λ j. pos 0;
  is_array = λ j. false;
  children = λ j. [];
  strtol = λ s. some (pos 5);
  atoi = λ s. pos 8080;
  getenv = λ s. none;
}

-- a server that reads every text as one document
abbrev pub reader : Json → Platform
reader j = record test_platform { parse = λ s. some j }

at-add_member : (o : Json) (k : String) (v : Json) → Documents.at k (add_member o k v) ≡ some v
unfolding Documents.at Documents.find
at-add_member (object m) k v = rw (eq_refl k) refl
at-add_member null k v = rw (eq_refl k) refl
at-add_member (boolean b) k v = rw (eq_refl k) refl
at-add_member (integer z) k v = rw (eq_refl k) refl
at-add_member (float s z) k v = rw (eq_refl k) refl
at-add_member (string s) k v = rw (eq_refl k) refl
at-add_member (array is) k v = rw (eq_refl k) refl

kept-add_member :
    (o : Json) (k i : String) (v : Json)
    → (k == i) ≡ false
    → Documents.at i (add_member o k v) ≡ Documents.at i o
unfolding Documents.at Documents.find
kept-add_member (object m) k i v e = rw (e) refl
kept-add_member null k i v e = rw (e) refl
kept-add_member (boolean b) k i v e = rw (e) refl
kept-add_member (integer z) k i v e = rw (e) refl
kept-add_member (float s z) k i v e = rw (e) refl
kept-add_member (string s) k i v e = rw (e) refl
kept-add_member (array is) k i v e = rw (e) refl

text_at-found :
    (k s : String) (j : Json) → text_at k j ≡ some s → (v : Json) × (Documents.at k j ≡ some v)
text_at-found k s j e = go (Documents.at k j) e
  where
    go : (o : Option Json) → text_in o ≡ some s → (v : Json) × (o ≡ some v)
    go none h = cc
    go (some v) h = (v, refl)

value-at : (k d s : String) (j : Json) → text_at k j ≡ some s → Documents.value k d j ≡ some s
unfolding Documents.value Documents.at
value-at k d s (object m) e = go (Documents.find k m) refl e
  where
    go :
        (o : Option Json)
        → Documents.find k m ≡ o
        → text_in o ≡ some s
        → Documents.value k d (object m) ≡ some s
    go none q h = cc
    go (some v) q h = rw (Documents.value, q) h
value-at k d s null e = cc
value-at k d s (boolean b) e = cc
value-at k d s (integer z) e = cc
value-at k d s (float t z) e = cc
value-at k d s (string t) e = cc
value-at k d s (array is) e = cc

pub agrees : (j : Json) → IsRead test_library (reader j)
unfolding Documents.get_string Documents.get_int
agrees j = record {
  text-add_string = λ o k s. rw (at-add_member o k (string s)) refl;
  int-add_number = λ o k z fits. rw (at-add_member o k (integer z)) (ap some fits);
  at-add_item = at-add_member;
  kept-add_string = λ o k i s e. kept-add_member o k i (string s) e;
  kept-add_number = λ o k i z e. kept-add_member o k i (integer z) e;
  kept-add_item = kept-add_member;
  value-at = value-at;
  contains-at = λ k s d e. let (v, h) = text_at-found k s d e in Documents.contains-at k d v h;
}
