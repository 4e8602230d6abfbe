-- ===== src/Params/Explicit.antt =====
-- Explicit arguments against the DSN, the credentials and the environment.
use edgedb_python.Prelude.Int.{ℤ}
use edgedb_python.Prelude.{
  sym, ◌≤◌, All, length, ◌≡◌, refl, ap, ◌∙◌, Bool, true, false, List, [], ◌∷◌, Option, none, some,
  if◌then◌else◌, arith, or_else,
}
use edgedb_python.Errors.Raise.{Result, ok, raised, ◌>>=◌}
use edgedb_python.Scram.Bytes.{Bytes}
use edgedb_python.Params.System.{System, Ports, Url, Arguments, is_on}
use edgedb_python.Params.Query.{Query, fill_host, read_query, url_query}
use edgedb_python.Params.Dsn.{
  Found, find_dsn, hostspec_of, check_scheme, from_url, is_uri, read_url, read_uri,
  with_credentials, read_instance, read_dsn,
}
use edgedb_python.Params.Address.{
  Address, ConnectionParameters, choose_hosts, choose_ports, addresses, parameters,
  parse_connect_dsn_and_args,
}
use edgedb_python.Params.Sockets.{IsUnix, addresses_admin}

-- `b` has the user, the password, the database and the admin flag of `a` where `a` has them.
abbrev Keeps : Arguments → Arguments → Type 0
Keeps a b =
    (or_else a.user b.user ≡ b.user)
    × (or_else a.password b.password ≡ b.password)
    × (or_else a.database b.database ≡ b.database)
    × (or_else a.admin b.admin ≡ b.admin)

Keeps-trans : (a b c : Arguments) → Keeps a b → Keeps b c → Keeps a c
Keeps-trans a b c h k = ground arith

-- What holds after each value that the first step may return.
after_ok {ℓ κ ν} :
    {A : Type ℓ} {B : Type κ} {P : Type ν} (m : Result A) (f : A → Result B) {b : B}
    → (m >>= f) ≡ ok b
    → ((a : A) → m ≡ ok a → f a ≡ ok b → P)
    → P
after_ok (ok a) f h k = k a refl h
after_ok (raised e) f h k = absurd (ground arith)

module _ (sys : System) where
  read_query-Keeps : (q : Query) (a b : Arguments) → read_query sys q a ≡ ok b → Keeps a b
  unfolding read_query
  read_query-Keeps q a b h = ground arith

  url_query-Keeps : (text : Bytes) (a b : Arguments) → url_query sys text a ≡ ok b → Keeps a b
  unfolding url_query
  url_query-Keeps [] a b h = ground arith
  url_query-Keeps (x ∷ xs) a b h =
      after_ok (sys.parse_qs (x ∷ xs)) _ h (λ d m e. read_query-Keeps _ a b e)

  from_url-Keeps :
      (parsed : Url) (host : _) (port : _) (a : Arguments) → Keeps a (from_url parsed host port a)
  unfolding from_url
  from_url-Keeps parsed host port a = ground arith

  read_url-Keeps : (parsed : Url) (a b : Arguments) → read_url sys parsed a ≡ ok b → Keeps a b
  unfolding read_url
  read_url-Keeps parsed a b h = after_ok (check_scheme parsed) _ h (λ u m h'.
      after_ok (fill_host sys (hostspec_of parsed.netloc) a.host a.port) _ h' (λ hosts m' e.
        Keeps-trans a (from_url parsed hosts.0 hosts.1 a) b
          (from_url-Keeps parsed hosts.0 hosts.1 a)
          (url_query-Keeps parsed.query (from_url parsed hosts.0 hosts.1 a) b e)))

  read_uri-Keeps :
      (dsn : Bytes) (a : Arguments) (f : Found) → read_uri sys dsn a ≡ ok f → Keeps a f.arguments
  unfolding read_uri
  read_uri-Keeps dsn a f h = after_ok (sys.urlparse dsn) _ h (λ p m h'.
      after_ok (read_url sys p a) _ h'
        (λ a' m' e. let kept = read_url-Keeps p a a' m' in ground arith))

  read_instance-Keeps :
      (name : Bytes) (a : Arguments) (f : Found)
      → read_instance sys name a ≡ ok f
      → Keeps a f.arguments
  unfolding read_instance with_credentials
  read_instance-Keeps name a f h = ground arith

  branch-Keeps :
      (b : Bool) (dsn : Bytes) (a : Arguments) (f : Found)
      → (elim b [ true ↦ read_uri sys dsn a | false ↦ read_instance sys dsn a ]) ≡ ok f
      → Keeps a f.arguments
  branch-Keeps true dsn a f h = read_uri-Keeps dsn a f h
  branch-Keeps false dsn a f h = read_instance-Keeps dsn a f h

  read_dsn-Keeps :
      (dsn : Option Bytes) (a : Arguments) (f : Found)
      → read_dsn sys dsn a ≡ ok f
      → Keeps a f.arguments
  unfolding read_dsn
  read_dsn-Keeps none a f h = ground arith
  read_dsn-Keeps (some []) a f h = ground arith
  read_dsn-Keeps (some (x ∷ xs)) a f h = branch-Keeps (is_uri (x ∷ xs)) (x ∷ xs) a f h

  parameters_of :
      (a : Arguments) (f : Found) (p : ConnectionParameters)
      → Keeps a f.arguments
      → parameters sys f ≡ p
      → (elim a.user [ none ↦ p.user | some u ↦ u ] ≡ p.user)
        × (or_else a.password p.password ≡ p.password)
        × (elim a.database [ none ↦ p.database | some d ↦ d ] ≡ p.database)
        × ((if is_on a.admin then none else p.ssl_ctx) ≡ p.ssl_ctx)
  unfolding parameters is_on
  parameters_of a f p k e = ground arith

  -- The steps of a call that succeeds.
  abbrev Steps : Arguments → List Address → ConnectionParameters → Type 0
  Steps a addrs p =
      (dsn : Option Bytes) × (f : Found) × (hosts : (List Bytes × Option Ports)) × (ports : List ℤ)
      × (read_dsn sys dsn a ≡ ok f)
      × (choose_ports sys hosts.0 hosts.1 ≡ ok ports)
      × (addresses sys (is_on f.arguments.admin) hosts.0 ports ≡ ok addrs)
      × (parameters sys f ≡ p)

  steps :
      (a : Arguments) (addrs : List Address) (p : ConnectionParameters)
      → parse_connect_dsn_and_args sys a ≡ ok (addrs, p)
      → Steps a addrs p
  unfolding parse_connect_dsn_and_args
  steps a addrs p h = after_ok (find_dsn sys a) _ h (λ dsn m h1.
      after_ok (read_dsn sys dsn a) _ h1 (λ f m' h2.
        after_ok
          (choose_hosts sys f.using_credentials (is_on f.arguments.admin) f.arguments.host
            f.arguments.port)
          _ h2
          (λ hosts mh h3. after_ok (choose_ports sys hosts.0 hosts.1) _ h3 (λ ports mp h4.
            after_ok (addresses sys (is_on f.arguments.admin) hosts.0 ports) _ h4
              (λ found ma e. (dsn, f, hosts, ports, m', mp, ground arith, ground arith))))))

  -- The user, the password and the database that are passed as arguments are those of the result,
  -- whatever the DSN, the credentials and the environment say; and a connection made with the
  -- argument admin=True has no TLS settings.
  pub explicit_wins :
      (a : Arguments) (addrs : List Address) (p : ConnectionParameters)
      → parse_connect_dsn_and_args sys a ≡ ok (addrs, p)
      → (elim a.user [ none ↦ p.user | some u ↦ u ] ≡ p.user)
        × (or_else a.password p.password ≡ p.password)
        × (elim a.database [ none ↦ p.database | some d ↦ d ] ≡ p.database)
        × ((if is_on a.admin then none else p.ssl_ctx) ≡ p.ssl_ctx)
  explicit_wins a addrs p h =
      let (dsn, f, hosts, ports, m, mp, ma, e) = steps a addrs p h in
      parameters_of a f p (read_dsn-Keeps dsn a f m) e

  -- A call with the argument admin=True that succeeds gives at least one address, and each address
  -- is a UNIX socket, whatever the DSN, the credentials and the environment say.
  pub admin_only_sockets :
      (a : Arguments) (addrs : List Address) (p : ConnectionParameters)
      → a.admin ≡ some true
      → parse_connect_dsn_and_args sys a ≡ ok (addrs, p)
      → All IsUnix addrs × (1 ≤ length addrs)
  unfolding is_on
  admin_only_sockets a addrs p on h =
      let (dsn, f, hosts, ports, m, mp, ma, e) = steps a addrs p h in
      let kept = read_dsn-Keeps dsn a f m in
      let admin : f.arguments.admin ≡ some true = ground arith in
      let flag : is_on f.arguments.admin ≡ true = ground arith in
      addresses_admin sys hosts.0 ports addrs
        (ap (λ b. addresses sys b hosts.0 ports) (sym flag) ∙ ma)
