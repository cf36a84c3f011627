-- ===== src/Options/Bounds.antt =====
-- Neither program reads beyond its arguments.
use cs144_lab.Base.{
  Bool, Bool-cases, List, Option, [], arith, false, if◌then◌else◌, inl, inr, leb, length, ltb, none,
  refl, some, subst, suc, sym, true, zero, ℕ, ◌+◌, ◌-◌, ◌<◌, ◌==◌, ◌∷◌, ◌≡◌, ◌≤◌,
}
use cs144_lab.TcpOverIp.{Endpoint}
use cs144_lab.Options.{
  any_address, settings, unset, no_options, Library, Options, Step, next, exits, beyond, Outcome,
  configured, exited, unresolved, overrun, unfinished, argument, with_value, ipv4_option,
  udp_option, ipv4_server, ipv4_client, udp_server, udp_client, positional, scan, ipv4_config,
  udp_config,
}

-- The program goes on, exits, or is left by the exception of an address.
abbrev pub IsInside : Outcome → Type 0
IsInside overrun = ⊥
IsInside unfinished = ⊥
IsInside _ = Unit {0}

within : (o o' : Outcome) → o ≡ o' → IsInside o' → IsInside o
within o o' e i = subst IsInside (sym e) i

argument_within :
    (argv : List (List ℕ)) (i : ℕ) → i < length argv → (a : List ℕ) × (argument argv i ≡ some a)
unfolding argument
argument_within [] i h = absurd (omega arith)
argument_within (a ∷ argv) zero h = (a, refl)
argument_within (a ∷ argv) (suc i) h = argument_within argv i (omega arith)

module _ (argv : List (List ℕ)) where
  -- A round moves on, and leaves the last two arguments.
  IsAdvance : ℕ → Step → Type 0
  IsAdvance curr (next curr' o) = (curr < curr') × (curr' + 2 ≤ length argv)
  IsAdvance curr (exits code) = Unit {0}
  IsAdvance curr beyond = ⊥

  exits-IsAdvance : (curr code : ℕ) → IsAdvance curr (exits code)
  unfolding IsAdvance
  exits-IsAdvance curr code = tt

  next-IsAdvance :
      (curr curr' : ℕ) (o : Options)
      → curr < curr'
      → curr' + 2 ≤ length argv
      → IsAdvance curr (next curr' o)
  unfolding IsAdvance
  next-IsAdvance curr curr' o further inside = (further, inside)

  with_value-IsAdvance :
      (curr : ℕ) (set : List ℕ → Options) → IsAdvance curr (with_value argv curr set)
  unfolding with_value
  with_value-IsAdvance curr set = elim (Bool-cases (leb (length argv) (curr + 3))) [
    | inl short ↦ rw short (exits-IsAdvance curr 1)
    | inr long ↦
        let (value, found) = argument_within argv (curr + 1) (ground arith) in
        rw (long, found) (next-IsAdvance curr (curr + 2) (set value) (omega arith) (ground arith))
  ]

  either :
      (curr : ℕ) (b : Bool) (s t : Step)
      → IsAdvance curr s
      → IsAdvance curr t
      → IsAdvance curr (if b then s else t)
  either curr true s t p q = p
  either curr false s t p q = q

  module _ (lib : Library) (arg : List ℕ) (curr : ℕ) (o : Options)
      (h : curr + 2 < length argv) where
    listens-IsAdvance : IsAdvance curr (next (curr + 1) (record o { listen = true }))
    listens-IsAdvance =
        next-IsAdvance curr (curr + 1) (record o { listen = true }) (omega arith) (omega arith)

    ipv4_option-IsAdvance : IsAdvance curr (ipv4_option lib argv arg curr o)
    unfolding ipv4_option
    ipv4_option-IsAdvance =
        search (either, with_value-IsAdvance, listens-IsAdvance, exits-IsAdvance) depth 14

    udp_option-IsAdvance : IsAdvance curr (udp_option lib argv arg curr o)
    unfolding udp_option
    udp_option-IsAdvance =
        search (either, with_value-IsAdvance, listens-IsAdvance, exits-IsAdvance) depth 14

  positional-IsInside :
      (server : List ℕ → Options → Outcome) (client : List ℕ → List ℕ → Options → Outcome)
      (host : ℕ) (o : Options)
      → host + 2 ≡ length argv
      → ((service : List ℕ) → IsInside (server service o))
      → ((name service : List ℕ) → IsInside (client name service o))
      → IsInside (positional argv server client host o)
  unfolding positional
  positional-IsInside server client host o e s c =
      let (service, last) = argument_within argv (host + 1) (omega arith) in
      let (name, before) = argument_within argv host (omega arith) in
      elim (Bool-cases o.listen) [
        | inl listens ↦
            within (positional argv server client host o) (server service o)
              (ground (arith, last, listens)) (s service)
        | inr connects ↦
            within (positional argv server client host o) (client name service o)
              (ground (arith, last, connects, before)) (c name service)
      ]

  -- A body that moves on and what follows it stay inside, and so does the loop.
  module _ (option : List ℕ → ℕ → Options → Step) (finish : ℕ → Options → Outcome)
      (a : (arg : List ℕ) (curr : ℕ) (o : Options)
        → curr + 2 < length argv
        → IsAdvance curr (option arg curr o))
      (f : (curr : ℕ) (o : Options) → curr + 2 ≡ length argv → IsInside (finish curr o)) where
    -- What a round leads to.
    followed : ℕ → Step → Outcome
    followed fuel (next curr' o') = scan argv option finish fuel curr' o'
    followed fuel (exits code) = exited code
    followed fuel beyond = overrun

    followed-IsInside :
        (fuel curr : ℕ) (s : Step)
        → length argv ≤ suc fuel + curr
        → IsAdvance curr s
        → ((curr' : ℕ) (o' : Options)
            → length argv ≤ fuel + curr'
            → curr' + 2 ≤ length argv
            → IsInside (scan argv option finish fuel curr' o'))
        → IsInside (followed fuel s)
    unfolding followed IsAdvance
    followed-IsInside fuel curr (next curr' o') enough p further =
        further curr' o' (omega arith) p.1
    followed-IsInside fuel curr (exits code) enough p further = tt
    followed-IsInside fuel curr beyond enough p further = p

    scan-IsInside :
        (fuel curr : ℕ) (o : Options)
        → length argv ≤ fuel + curr
        → curr + 2 ≤ length argv
        → IsInside (scan argv option finish fuel curr o)
    unfolding scan followed
    scan-IsInside zero curr o enough inside = absurd (omega arith)
    scan-IsInside (suc fuel) curr o enough inside =
        elim (Bool-cases (ltb (curr + 2) (length argv))) [
          | inr last ↦
              within (scan argv option finish (suc fuel) curr o) (finish curr o)
                (ground (arith, last)) (f curr o (ground arith))
          | inl more ↦
              let (arg, found) = argument_within argv curr (ground arith) in
              within (scan argv option finish (suc fuel) curr o) (followed fuel (option arg curr o))
                (ground (arith, more, found))
                (followed-IsInside fuel curr (option arg curr o) (omega arith)
                  (a arg curr o (ground arith)) (scan-IsInside fuel))
        ]

-- The ends of `get_config` only resolve addresses.
resolved :
    (r : Option Endpoint) (k : Endpoint → Outcome)
    → ((e : Endpoint) → IsInside (k e))
    → IsInside (elim r [ none ↦ unresolved | some e ↦ k e ])
resolved none k h = tt
resolved (some e) k h = h e

module _ (lib : Library) (o : Options) where
  ipv4_server-IsInside : (service : List ℕ) → IsInside (ipv4_server lib service o)
  unfolding ipv4_server
  ipv4_server-IsInside service =
      resolved (lib.resolve any_address service)
        (λ source. if source.port == 0 then exited 1 else configured (settings o source unset))
        (λ source. elim (Bool-cases (source.port == 0)) [
          | inl no_port ↦ rw no_port tt
          | inr port ↦ rw port tt
        ])

  ipv4_client-IsInside : (host service : List ℕ) → IsInside (ipv4_client lib host service o)
  unfolding ipv4_client
  ipv4_client-IsInside host service = resolved (lib.resolve host service) _ (λ destination.
      resolved (lib.resolve o.source_address o.source_port)
        (λ source. configured (settings o source destination)) (λ source. tt))

  udp_server-IsInside : (service : List ℕ) → IsInside (udp_server lib service o)
  unfolding udp_server
  udp_server-IsInside service =
      resolved (lib.resolve any_address service) (λ source. configured (settings o source unset))
        (λ source. tt)

  udp_client-IsInside : (host service : List ℕ) → IsInside (udp_client lib host service o)
  unfolding udp_client
  udp_client-IsInside host service =
      resolved (lib.resolve host service) (λ destination. configured (settings o unset destination))
        (λ destination. tt)

-- For any arguments, of any number, `tcp_ipv4` and `tcp_udp` never read beyond them, and their
-- loops end: they are configured, exit with a code, or are left by the exception of an address.
pub config-IsInside :
    (lib : Library) (random : List ℕ) (argv : List (List ℕ))
    → IsInside (ipv4_config lib random argv) × IsInside (udp_config lib argv)
unfolding ipv4_config udp_config
config-IsInside lib random argv = elim (Bool-cases (ltb (length argv) 3)) [
  | inl few ↦ rw few (tt, tt)
  | inr enough ↦
      let udp_finish =
        λ (curr : ℕ). positional argv (udp_server lib) (udp_client lib) (length argv - 2) in
      rw enough (
        scan-IsInside argv (ipv4_option lib argv)
            (positional argv (ipv4_server lib) (ipv4_client lib)) (ipv4_option-IsAdvance argv lib)
            (λ curr o e.
              positional-IsInside argv (ipv4_server lib) (ipv4_client lib) curr o e
                (ipv4_server-IsInside lib o) (ipv4_client-IsInside lib o))
            (length argv) 1 (no_options random) (omega arith) (ground arith),
        scan-IsInside argv (udp_option lib argv) udp_finish (udp_option-IsAdvance argv lib)
            (λ curr o e.
              positional-IsInside argv (udp_server lib) (udp_client lib) (length argv - 2) o
                (omega arith) (udp_server-IsInside lib o) (udp_client-IsInside lib o))
            (length argv) 1 (no_options []) (omega arith) (ground arith),
      )
]
