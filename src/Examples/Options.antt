-- ===== src/Examples/Options.antt =====
-- The arguments `tcp -w 500 -s 7 h 9` and `tcp -w h 9`, with a library that reads decimal numbers.
use cs144_lab.Base.{List, [], length, some, ℕ, ◌*◌, ◌+◌, ◌-◌, ◌∷◌}
use cs144_lab.Options.{Library, dash_w, ipv4_config, udp_config}
use cs144_lab.Options.Bounds.{IsInside, config-IsInside}
use cs144_lab.Options.Reading.{Flag, Name}

decimal : ℕ → List ℕ → ℕ
decimal n [] = n
decimal n (c ∷ cs) = decimal (n * 10 + (c - 48)) cs

abbrev library : Library
library = record {
  strtol = decimal 0;
  loss_rate = decimal 0;
  resolve = λ host service. some (record { ipv4_numeric = length host; port = decimal 0 service });
}

abbrev program : List ℕ
program = 116 ∷ 99 ∷ 112 ∷ []

abbrev a_host : List ℕ
a_host = 104 ∷ []

abbrev nine : List ℕ
nine = 57 ∷ []

abbrev flags : List Flag
flags = Flag.valued Name.window (53 ∷ 48 ∷ 48 ∷ []) ∷ Flag.valued Name.source_port (55 ∷ []) ∷ []

config-IsInside_example :
    IsInside (ipv4_config library nine (program ∷ dash_w ∷ a_host ∷ nine ∷ []))
    × IsInside (udp_config library (program ∷ dash_w ∷ a_host ∷ nine ∷ []))
config-IsInside_example = config-IsInside library nine (program ∷ dash_w ∷ a_host ∷ nine ∷ [])
