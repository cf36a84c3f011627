-- ===== src/Options/Reading.antt =====
-- The options of tcp_ipv4, written out as arguments, are read as what they say.
use cs144_lab.Base.{List, [], some, true, ℕ, ◌%◌, ◌++◌, ◌^◌, ◌∷◌, ◌≡◌}
use cs144_lab.Options.{
  Library, Options, Outcome, dash_l, dash_a, dash_s, dash_w, dash_t, dash_d, dash_lu, dash_ld,
}

-- The options of the usage message that have a value, and their names.
pub data Name : Type 0 where
  source_address source_port window timeout device loss_up loss_down : Name

abbrev pub text : Name → List ℕ
text source_address = dash_a
text source_port = dash_s
text window = dash_w
text timeout = dash_t
text device = dash_d
text loss_up = dash_lu
text loss_down = dash_ld

-- What the message says that they set.
abbrev pub set : Library → Name → List ℕ → Options → Options
set lib source_address v o = record o { source_address = v }
set lib source_port v o = record o { source_port = v }
set lib window v o = record o { cfg = record o.cfg { recv_capacity = lib.strtol v } }
set lib timeout v o = record o { cfg = record o.cfg { rt_timeout = lib.strtol v % 2 ^ 16 } }
set lib device v o = record o { tundev = some v }
set lib loss_up v o = record o { loss_rate_up = lib.loss_rate v }
set lib loss_down v o = record o { loss_rate_dn = lib.loss_rate v }

pub data Flag : Type 0 where
  listens : Flag
  valued : Name → List ℕ → Flag

abbrev pub effect : Library → Flag → Options → Options
effect lib listens o = record o { listen = true }
effect lib (valued name v) o = set lib name v o

-- An option and its value, in front of the other arguments.
abbrev pub words : Flag → List (List ℕ) → List (List ℕ)
words listens rest = dash_l ∷ rest
words (valued name v) rest = text name ∷ v ∷ rest

-- The arguments from the options on.
pub all_words : List Flag → List (List ℕ) → List (List ℕ)
all_words [] rest = rest
all_words (f ∷ flags) rest = words f (all_words flags rest)

pub all_effects : Library → List Flag → Options → Options
all_effects lib [] o = o
all_effects lib (f ∷ flags) o = all_effects lib flags (effect lib f o)

-- A place among the arguments: those before it, and those from it on.
record IsAt (argv before rest : List (List ℕ)) : Type 0 where
  split : argv ≡ before ++ rest

module _ (lib : Library) (argv : List (List ℕ)) (finish : ℕ → Options → Outcome)
    (host service : List ℕ) where
  abbrev last_two : List (List ℕ)
  last_two = host ∷ service ∷ []
