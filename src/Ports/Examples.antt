-- ===== src/Ports/Examples.antt =====
-- The theorems about port ranges at concrete names and ports.
use soa.Prelude.{ℕ, ◌≤◌, ◌≡◌, refl, ap, length, true, some, List, [], ◌∷◌, err, codes, ◌==◌, arith}
use soa.Ports.{PortRange, invalid_range, get_range, make_range, bind_port}
use soa.Ports.Ranges.{Apart, after_names, after_names-Apart, bind_port_lem}

abbrev names : List (List ℕ)
names = codes "a" ∷ codes "bb" ∷ codes "a" ∷ []

abbrev first_block : PortRange
first_block = record { first = 15000; last = 15100 }

abbrev second_block : PortRange
second_block = record { first = 15100; last = 15200 }

after_names-Apart_example : Apart first_block second_block
unfolding after_names get_range make_range
after_names-Apart_example =
    after_names-Apart 100 (omega arith) names (codes "a") (codes "bb") first_block second_block
      (λ e. omega (arith, ap length e)) refl refl

bind_port_lem_example :
    (k : ℕ) × (bind_port (λ p. p == 15003) first_block ≡ some k)
    × (15000 ≤ k)
    × (k ≤ 15003)
    × ((k == 15003) ≡ true)
bind_port_lem_example =
    bind_port_lem (λ p. p == 15003) first_block 15003 (omega arith) (omega arith) refl

-- With ranges of 1000000000 ports the third call throws, for a name that has a range too.
no_ports_left :
    get_range (codes "a") (after_names 1000000000 (codes "b" ∷ codes "a" ∷ [])) ≡ err invalid_range
unfolding after_names get_range make_range
no_ports_left = refl
