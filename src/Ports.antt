-- ===== src/Ports.antt =====
-- service/port_range_service.h, service/port_range_service.cc: ranges of ports, and the service that
-- gives one to each name. An int is its bit pattern of 32 bits, and the port of the service an unsigned
-- number of 32 bits. In bindPort no port is below zero.
pub mod Ranges
mod Examples
use soa.Prelude.{
  ℕ, zero, suc, ◌+◌, ◌-◌, ◌%◌, u32_mod, ltb_i32, Bool, Option, none, some, List, [], ◌∷◌, Outcome,
  ok, err, ◌>>=◌, check, same_bytes, if◌then◌else◌,
}

pub record PortRange : Type 0 where
  pub first : ℕ
  pub last : ℕ

abbrev pub default_range : PortRange
default_range = record { first = 15000; last = 16000 }

-- The range of one port, or of -1.
unfoldable pub one_port : Option ℕ → PortRange
one_port none = default_range
one_port (some port) = record { first = port; last = port + 1 }

pub data Fault : Type 0 where
  invalid_range : Fault

unfoldable pub make_range : ℕ → ℕ → Outcome Fault PortRange
make_range first last =
    check (ltb_i32 first last) invalid_range >>= λ _. ok (record { first = first; last = last })

-- `bindPort` from a port on: the first port that can be bound, where there is one.
unfoldable pub bind_from : (ℕ → Bool) → ℕ → ℕ → Option ℕ
bind_from operation zero i = none
bind_from operation (suc left) i = if operation i then some i else bind_from operation left (i + 1)

unfoldable pub bind_port : (ℕ → Bool) → PortRange → Option ℕ
unfolding bind_from
bind_port operation r = bind_from operation (r.last - r.first) r.first

pub record PortService : Type 0 where
  pub range_size : ℕ
  pub current_port : ℕ
  pub range_map : List (List ℕ × PortRange)

abbrev pub new_service : ℕ → PortService
new_service size = record { range_size = size; current_port = 15000; range_map = [] }

abbrev pub find_range : List ℕ → List (List ℕ × PortRange) → Option PortRange
find_range name [] = none
find_range name ((n, r) ∷ rest) = if same_bytes name n then some r else find_range name rest

-- `getRange` behind the constructor of the new range, with the map before the name is inserted.
abbrev pub insert_range :
    PortService → List ℕ → PortRange → Option PortRange → PortRange × PortService
insert_range s name fresh (some r) = (r, s)
insert_range s name fresh none = (
  fresh,
  record s {
    current_port = (s.current_port + s.range_size) % u32_mod;
    range_map = (name, fresh) ∷ s.range_map;
  },
)

unfoldable pub get_range : List ℕ → PortService → Outcome Fault (PortRange × PortService)
unfolding make_range
get_range name s =
    make_range s.current_port ((s.current_port + s.range_size) % u32_mod) >>= λ fresh.
    ok (insert_range s name fresh (find_range name s.range_map))
