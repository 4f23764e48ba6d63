-- ===== src/Traffic/Laws.antt =====
-- A counter goes up by one with each increment of its label, and with no other.
use client_server_architectu.Prelude.{
  suc, ◌≡◌, String, ◌&&◌, List, [], ◌∷◌, ◌==◌, arith, eq_iff, if◌then◌else◌,
}
use client_server_architectu.World.{Counter}
use client_server_architectu.Traffic.{increment, get_count}

-- After an increment the counter of the label (p, d) reads one more, every other what it read.
pub get_count-increment :
    (p d p' d' : String) (cs : List Counter)
    → get_count p' d' (increment p d cs)
      ≡ (if (p == p') && (d == d') then suc (get_count p' d' cs) else get_count p' d' cs)
unfolding get_count increment
get_count-increment p d p' d' [] = ground (arith, eq_iff p p', eq_iff d d')
get_count-increment p d p' d' (c ∷ cs) = ground (
  arith,
  get_count-increment p d p' d' cs,
  eq_iff p p',
  eq_iff d d',
  eq_iff c.protocol p,
  eq_iff c.protocol p',
  eq_iff c.direction d,
  eq_iff c.direction d',
)
