-- ===== src/Resources.antt =====
-- What a process holds of the system and must give back: descriptors, the open log file, the message
-- queue, the list of `getaddrinfo`, and the name of a socket in the file system.
use client_server_architectu.Prelude.{
  ◌∷◌, ℕ, true, suc, some, none, false, eqb, [], Option, List, Bool, if◌then◌else◌,
}

pub data Resource : Type 0 where
  descriptor : ℕ → Resource
  log_file message_queue address_list socket_path : Resource

-- The resources held, the last one first, and how often one was given back that was not held.
pub record Resources : Type 0 where
  pub held : List Resource
  pub misuses : ℕ

abbrev pub no_resources : Resources
no_resources = record { held = []; misuses = 0 }

abbrev pub is_same : Resource → Resource → Bool
is_same (descriptor n) (descriptor k) = eqb n k
is_same log_file log_file = true
is_same message_queue message_queue = true
is_same address_list address_list = true
is_same socket_path socket_path = true
is_same _ _ = false

abbrev pub acquire : Resource → Resources → Resources
acquire r s = record s { held = r ∷ s.held }

-- the list without the first occurrence, or no value if there is none
abbrev pub remove : Resource → List Resource → Option (List Resource)
remove r [] = none
remove r (q ∷ qs) = if is_same q r then some qs else kept (remove r qs)
  where
    kept : Option (List Resource) → Option (List Resource)
    kept none = none
    kept (some rest) = some (q ∷ rest)

abbrev with_held : Resources → Option (List Resource) → Resources
with_held s none = record s { misuses = suc s.misuses }
with_held s (some rest) = record s { held = rest }

abbrev pub give_back : Resource → Resources → Resources
give_back r s = with_held s (remove r s.held)

-- `close` of a descriptor that is not -1
abbrev pub close_if_open : Option ℕ → Resources → Resources
close_if_open none s = s
close_if_open (some fd) s = give_back (descriptor fd) s
