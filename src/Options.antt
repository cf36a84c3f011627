-- ===== src/Options.antt =====
-- apps/tcp_ipv4.cc and apps/tcp_udp.cc: how the two programs read their arguments. The `argv[argc]` that
-- the standard puts behind them is a null pointer, so a read of it is out of bounds here.
pub mod Bounds
pub mod Reading
use cs144_lab.Base.{
  Bool, List, Option, [], false, if◌then◌else◌, leb, length, ltb, none, some, suc, true, zero, ℕ,
  ◌%◌, ◌&&◌, ◌+◌, ◌-◌, ◌==◌, ◌^◌, ◌∷◌,
}
use cs144_lab.Connection.{TcpConfig, default_config}
use cs144_lab.TcpOverIp.{Endpoint}

-- What the programs call: `strtol` with base 0, as a word of 64 bits; `strtof` and the scaling of its
-- result to 16 bits; and the constructor of an `Address` from two texts, which may throw.
pub record Library : Type 0 where
  pub strtol : List ℕ → ℕ
  pub loss_rate : List ℕ → ℕ
  pub resolve : List ℕ → List ℕ → Option Endpoint

-- `strncmp(a, b, n) == 0`, where a text is its characters without the 0 at its end.
unfoldable pub same_start : List ℕ → List ℕ → ℕ → Bool
same_start a b zero = true
same_start [] [] (suc n) = true
same_start [] (d ∷ ds) (suc n) = false
same_start (c ∷ cs) [] (suc n) = false
same_start (c ∷ cs) (d ∷ ds) (suc n) = c == d && same_start cs ds n

abbrev pub dash_l : List ℕ
dash_l = 45 ∷ 108 ∷ []

abbrev pub dash_a : List ℕ
dash_a = 45 ∷ 97 ∷ []

abbrev pub dash_s : List ℕ
dash_s = 45 ∷ 115 ∷ []

abbrev pub dash_w : List ℕ
dash_w = 45 ∷ 119 ∷ []

abbrev pub dash_t : List ℕ
dash_t = 45 ∷ 116 ∷ []

abbrev pub dash_d : List ℕ
dash_d = 45 ∷ 100 ∷ []

abbrev pub dash_lu : List ℕ
dash_lu = 45 ∷ 76 ∷ 117 ∷ []

abbrev pub dash_ld : List ℕ
dash_ld = 45 ∷ 76 ∷ 100 ∷ []

abbrev pub dash_h : List ℕ
dash_h = 45 ∷ 104 ∷ []

-- The variables of `get_config`.
pub record Options : Type 0 where
  pub cfg : TcpConfig
  pub listen : Bool
  pub source_address : List ℕ
  pub source_port : List ℕ
  pub loss_rate_up : ℕ
  pub loss_rate_dn : ℕ
  pub tundev : Option (List ℕ)

-- "169.254.144.9"
abbrev pub local_address_dflt : List ℕ
local_address_dflt = 49 ∷ 54 ∷ 57 ∷ 46 ∷ 50 ∷ 53 ∷ 52 ∷ 46 ∷ 49 ∷ 52 ∷ 52 ∷ 46 ∷ 57 ∷ []

-- Before the loop; `random` is the text of the random port.
abbrev pub no_options : List ℕ → Options
no_options random = record {
  cfg = default_config;
  listen = false;
  source_address = local_address_dflt;
  source_port = random;
  loss_rate_up = 0;
  loss_rate_dn = 0;
  tundev = none;
}

-- What the options set. `rt_timeout` has 16 bits.
abbrev pub set_window : Library → List ℕ → Options → Options
set_window lib value o = record o { cfg = record o.cfg { recv_capacity = lib.strtol value } }

abbrev pub set_timeout : Library → List ℕ → Options → Options
set_timeout lib value o = record o { cfg = record o.cfg { rt_timeout = lib.strtol value % 2 ^ 16 } }

-- A round of the loop goes on at another place, exits with a code, or reads beyond the arguments.
pub data Step : Type 0 where
  next : ℕ → Options → Step
  exits : ℕ → Step
  beyond : Step

-- `argv[i]`.
unfoldable pub argument : List (List ℕ) → ℕ → Option (List ℕ)
argument [] i = none
argument (a ∷ argv) zero = some a
argument (a ∷ argv) (suc i) = argument argv i

-- An option with a value, after `check_argc`.
unfoldable pub with_value : List (List ℕ) → ℕ → (List ℕ → Options) → Step
with_value argv curr set =
    if leb (length argv) (curr + 3) then exits 1 else (elim (argument argv (curr + 1)) [
      | none ↦ beyond
      | some value ↦ next (curr + 2) (set value)
    ])

module _ (lib : Library) (argv : List (List ℕ)) where
  -- The body of the loop of tcp_ipv4, where `arg` is `argv[curr]`.
  unfoldable pub ipv4_option : List ℕ → ℕ → Options → Step
  unfolding same_start with_value
  ipv4_option arg curr o =
      if same_start dash_l arg 3
      then next (curr + 1) (record o { listen = true })
      else if same_start dash_a arg 3
      then with_value argv curr (λ value. record o { source_address = value })
      else if same_start dash_s arg 3
      then with_value argv curr (λ value. record o { source_port = value })
      else if same_start dash_w arg 3
      then with_value argv curr (λ value. set_window lib value o)
      else if same_start dash_t arg 3
      then with_value argv curr (λ value. set_timeout lib value o)
      else if same_start dash_d arg 3
      then with_value argv curr (λ value. record o { tundev = some value })
      else if same_start dash_lu arg 3
      then with_value argv curr (λ value. record o { loss_rate_up = lib.loss_rate value })
      else if same_start dash_ld arg 3
      then with_value argv curr (λ value. record o { loss_rate_dn = lib.loss_rate value })
      else if same_start dash_h arg 3
      then exits 0
      else exits 1

  -- The body of that of tcp_udp.
  unfoldable pub udp_option : List ℕ → ℕ → Options → Step
  unfolding same_start with_value
  udp_option arg curr o =
      if same_start dash_l arg 3
      then next (curr + 1) (record o { listen = true })
      else if same_start dash_w arg 3
      then with_value argv curr (λ value. set_window lib value o)
      else if same_start dash_t arg 3
      then with_value argv curr (λ value. set_timeout lib value o)
      else if same_start dash_lu arg 3
      then with_value argv curr (λ value. record o { loss_rate_up = lib.loss_rate value })
      else if same_start dash_ld arg 3
      then with_value argv curr (λ value. record o { loss_rate_dn = lib.loss_rate value })
      else if same_start dash_h arg 3
      then exits 0
      else exits 1

-- What `get_config` returns.
pub record Settings : Type 0 where
  pub cfg : TcpConfig
  pub source : Endpoint
  pub destination : Endpoint
  pub loss_rate_up : ℕ
  pub loss_rate_dn : ℕ
  pub listen : Bool
  pub tundev : Option (List ℕ)

-- The program goes on with its settings, exits with a code, is left by the exception of an address,
-- reads beyond the arguments, or runs out of fuel.
pub data Outcome : Type 0 where
  configured : Settings → Outcome
  exited : ℕ → Outcome
  unresolved overrun unfinished : Outcome

-- The address of a default `FdAdapterConfig`.
abbrev pub unset : Endpoint
unset = record { ipv4_numeric = 0; port = 0 }

abbrev pub settings : Options → Endpoint → Endpoint → Settings
settings o source destination = record {
  cfg = o.cfg;
  source = source;
  destination = destination;
  loss_rate_up = o.loss_rate_up;
  loss_rate_dn = o.loss_rate_dn;
  listen = o.listen;
  tundev = o.tundev;
}

-- The text "0".
abbrev pub any_address : List ℕ
any_address = 48 ∷ []

module _ (lib : Library) where
  -- The end of `get_config` of tcp_ipv4: a server is bound to a port, a client has both ends.
  unfoldable pub ipv4_server : List ℕ → Options → Outcome
  ipv4_server service o = elim (lib.resolve any_address service) [
    | none ↦ unresolved
    | some source ↦ if source.port == 0 then exited 1 else configured (settings o source unset)
  ]

  unfoldable pub ipv4_client : List ℕ → List ℕ → Options → Outcome
  ipv4_client host service o = elim (lib.resolve host service) [
    | none ↦ unresolved
    | some destination ↦ elim (lib.resolve o.source_address o.source_port) [
      | none ↦ unresolved
      | some source ↦ configured (settings o source destination)
    ]
  ]

  -- The end of that of tcp_udp, which has no source for a client.
  unfoldable pub udp_server : List ℕ → Options → Outcome
  udp_server service o = elim (lib.resolve any_address service) [
    | none ↦ unresolved
    | some source ↦ configured (settings o source unset)
  ]

  unfoldable pub udp_client : List ℕ → List ℕ → Options → Outcome
  udp_client host service o = elim (lib.resolve host service) [
    | none ↦ unresolved
    | some destination ↦ configured (settings o unset destination)
  ]

-- The positional arguments, from `host` on.
unfoldable pub positional :
    List (List ℕ)
    → (List ℕ → Options → Outcome)
    → (List ℕ → List ℕ → Options → Outcome)
    → ℕ
    → Options
    → Outcome
positional argv server client host o = elim (argument argv (host + 1)) [
  | none ↦ overrun
  | some service ↦
      if o.listen
      then server service o
      else (elim (argument argv host) [ none ↦ overrun | some name ↦ client name service o ])
]

-- The loop of `get_config` on fuel, with its body and what follows it.
unfoldable pub scan :
    List (List ℕ)
    → (List ℕ → ℕ → Options → Step)
    → (ℕ → Options → Outcome)
    → ℕ
    → ℕ
    → Options
    → Outcome
scan argv option finish zero curr o = unfinished
scan argv option finish (suc fuel) curr o =
    let rest : Outcome = elim (argument argv curr) [
      | none ↦ overrun
      | some arg ↦ elim (option arg curr o) [
        | next curr' o' ↦ scan argv option finish fuel curr' o'
        | exits code ↦ exited code
        | beyond ↦ overrun
      ]
    ] in
    if ltb (curr + 2) (length argv) then rest else finish curr o

-- `get_config` of tcp_ipv4 behind the test of `main`; every round moves on by one or two arguments.
unfoldable pub ipv4_config : Library → List ℕ → List (List ℕ) → Outcome
ipv4_config lib random argv =
    if ltb (length argv) 3
    then exited 1
    else scan argv (ipv4_option lib argv) (positional argv (ipv4_server lib) (ipv4_client lib))
        (length argv) 1 (no_options random)

-- That of tcp_udp, which takes the last two arguments.
unfoldable pub udp_config : Library → List (List ℕ) → Outcome
udp_config lib argv =
    if ltb (length argv) 3
    then exited 1
    else scan argv (udp_option lib argv)
        (λ curr. positional argv (udp_server lib) (udp_client lib) (length argv - 2)) (length argv)
        1 (no_options [])
