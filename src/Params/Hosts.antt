-- ===== src/Params/Hosts.antt =====
-- edgedb/con_utils.py: `_validate_port_spec` and `_parse_hostlist`.
use edgedb_python.Prelude.Int.{ℤ, pos}
use edgedb_python.Prelude.{
  suc, ◌≡◌, refl, ap, true, false, ◌==◌, nat_eq, List, [], ◌∷◌, Option, none, some, map, length,
  if◌then◌else◌, arith,
}
use edgedb_python.Errors.Class.{builtin}
use edgedb_python.Errors.Client.{interface_error}
use edgedb_python.Errors.Raise.{Result, ok, raised, new, ◌>>=◌}
use edgedb_python.Scram.Bytes.{Bytes}
use edgedb_python.Scram.Text.{split, before, after}
use edgedb_python.Params.System.{System, Ports, one_port, port_list, has_port, contains}

-- `[port for _ in range(len(hosts))]`
unfoldable pub repeat_port : List Bytes → ℤ → List ℤ
repeat_port [] p = []
repeat_port (h ∷ hs) p = p ∷ repeat_port hs p

-- `_validate_port_spec`
unfoldable pub validate_port_spec : List Bytes → Ports → Result (List ℤ)
unfolding repeat_port new
validate_port_spec hosts (one_port p) = ok (repeat_port hosts p)
validate_port_spec hosts (port_list ps) =
    if length ps == length hosts
    then ok ps
    else raised (new interface_error "could not match the port numbers to the hosts")

-- `hostlist.split(',')` where there is a comma
unfoldable pub host_specs : Bytes → List Bytes
host_specs hostlist = if contains (b',' ∷ []) hostlist then split b',' hostlist else hostlist ∷ []

module _ (sys : System) where
  open sys use {getenv, int}

  -- `[int(p) for p in parts]`
  unfoldable pub ints : List Bytes → Result (List ℤ)
  ints [] = ok []
  ints (p ∷ ps) = do n ← int p; ns ← ints ps; ok (n ∷ ns)

  -- The ports of the environment variable `EDGEDB_PORT`, else 5656.
  unfoldable pub environment_port : Option Bytes → Result Ports
  unfolding ints
  environment_port none = ok (one_port (pos 5656))
  environment_port (some []) = ok (one_port (pos 5656))
  environment_port (some (x ∷ xs)) =
      if contains (b',' ∷ []) (x ∷ xs)
      then (ints (split b',' (x ∷ xs)) >>= λ ns. ok (port_list ns))
      else (int (x ∷ xs) >>= λ n. ok (one_port n))

  -- `int(hostspec_port)`, or the default where no port is written.
  unfoldable pub spec_port : ℤ → Bytes → Result ℤ
  spec_port default [] = ok default
  spec_port default (x ∷ xs) = int (x ∷ xs)

  -- The loop over the host specifications without `port`.
  unfoldable pub spec_ports : List Bytes → List ℤ → Result (List ℤ)
  unfolding spec_port new
  spec_ports [] ds = ok []
  spec_ports (s ∷ ss) [] = raised (new (builtin "IndexError") "list index out of range")
  spec_ports (s ∷ ss) (d ∷ ds) = do
    n ← spec_port d (after b':' s)
    ns ← spec_ports ss ds
    ok (n ∷ ns)

  -- `_parse_hostlist` without ports.
  unfoldable pub parse_bare : Bytes → Result (List Bytes × List ℤ)
  unfolding host_specs environment_port spec_ports validate_port_spec
  parse_bare hostlist = do
    default ← environment_port (getenv "EDGEDB_PORT")
    defaults ← validate_port_spec (host_specs hostlist) default
    ports ← spec_ports (host_specs hostlist) defaults
    ok (map (before b':') (host_specs hostlist), ports)

  -- `_parse_hostlist`
  unfoldable pub parse_hostlist : Bytes → Option Ports → Result (List Bytes × List ℤ)
  unfolding parse_bare host_specs validate_port_spec
  parse_hostlist hostlist none = parse_bare hostlist
  parse_hostlist hostlist (some port) = elim (has_port (some port)) [
    | true ↦ validate_port_spec (host_specs hostlist) port >>= λ ports.
        ok (map (before b':') (host_specs hostlist), ports)
    | false ↦ parse_bare hostlist
  ]

length-map-before : (ss : List Bytes) → length (map (before b':') ss) ≡ length ss
length-map-before [] = refl
length-map-before (s ∷ ss) = ap suc (length-map-before ss)

length-repeat_port : (hs : List Bytes) (p : ℤ) → length (repeat_port hs p) ≡ length hs
unfolding repeat_port
length-repeat_port [] p = refl
length-repeat_port (h ∷ hs) p = ap suc (length-repeat_port hs p)

pub validate_port_spec-length :
    (hs : List Bytes) (ports : Ports) (ps : List ℤ)
    → validate_port_spec hs ports ≡ ok ps
    → length ps ≡ length hs
unfolding validate_port_spec
validate_port_spec-length hs (one_port p) ps h = ground (arith, length-repeat_port hs p)
validate_port_spec-length hs (port_list p) ps h = ground arith

module _ (sys : System) where
  open sys use {getenv, int}

  spec_ports-length :
      (ss : List Bytes) (ds ns : List ℤ) → spec_ports sys ss ds ≡ ok ns → length ns ≡ length ss
  unfolding spec_ports
  spec_ports-length [] ds ns h = ground arith
  spec_ports-length (s ∷ ss) [] ns h = ground arith
  spec_ports-length (s ∷ ss) (d ∷ ds) ns h = grind (arith, spec_ports-length ss ds)

  parse_bare-length :
      (hostlist : Bytes) (hs : List Bytes) (ps : List ℤ)
      → parse_bare sys hostlist ≡ ok (hs, ps)
      → length ps ≡ length hs
  unfolding parse_bare
  parse_bare-length hostlist hs ps h = grind (arith, spec_ports-length, length-map-before)

  -- A host list that is read gives as many ports as hosts.
  parse_hostlist-length :
      (hostlist : Bytes) (port : Option Ports) (hs : List Bytes) (ps : List ℤ)
      → parse_hostlist sys hostlist port ≡ ok (hs, ps)
      → length ps ≡ length hs
  unfolding parse_hostlist
  parse_hostlist-length hostlist none hs ps h = parse_bare-length hostlist hs ps h
  parse_hostlist-length hostlist (some port) hs ps h =
      grind (arith, parse_bare-length, length-map-before, validate_port_spec-length)
