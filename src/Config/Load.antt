-- ===== src/Config/Load.antt =====
-- `Load` and its helpers. The libraries are the parameters `FlagLibrary` and `Viper`; the usage texts
-- of the flags are left out.
use kim_gate.Prelude.{Option, none, some, List, [], ◌∷◌, if◌then◌else◌}
use kim_gate.Effect.{
  Result, ok, err, Error, new, wrap, wrap_named, Run, returned, panicked, then_run,
}
use kim_gate.Text.{Text, codes, is_empty, trim_space}
use kim_gate.Config.{Config}
use kim_gate.Config.Normalize.{normalize, normalize_flag_args}
use kim_gate.Config.Validate.{validate}
use kim_gate.Config.Library.{FlagKind, FlagLibrary, Viper, ReadError, not_found, failed}
use kim_gate.Config.Tables.{declared_flags, default_values, env_names}

-- `must`: an error is a panic.
abbrev pub must {ℓ} : {A : Type ℓ} → Option Error × A → Run A
must (none, a) = returned a
must (some e, a) = panicked e

-- The binding of one flag, with its error.
abbrev pub flag_bound : {V : Type 0} → Text → Option Error × V → Result V
flag_bound name (none, v) = ok v
flag_bound name (some e, v) = err (wrap_named "bind flag" name e)

module _ {V F Flag : Type 0} (flags : FlagLibrary F Flag) (viper : Viper V Flag) where
  unfoldable pub declare_flags : List (FlagKind × Text) → F → F
  declare_flags [] fs = fs
  declare_flags ((kind, name) ∷ rest) fs = declare_flags rest (flags.declare kind name fs)

  unfoldable pub set_all_defaults : List (Text × Text) → V → V
  set_all_defaults [] v = v
  set_all_defaults ((key, text) ∷ rest) v = set_all_defaults rest (viper.set_default key text v)

  unfoldable pub set_defaults : V → V
  unfolding set_all_defaults
  set_defaults v = set_all_defaults default_values v

  unfoldable pub bind_all_env : List (Text × List Text) → V → Run V
  bind_all_env [] v = returned v
  bind_all_env ((key, names) ∷ rest) v =
      then_run (must (viper.bind_env (key ∷ names) v)) (λ v'. bind_all_env rest v')

  unfoldable pub bind_env : V → Run V
  unfolding bind_all_env
  bind_env v = bind_all_env env_names (
      viper.automatic_env (
        viper.set_env_key_replacer ((codes ".", codes "_") ∷ (codes "-", codes "_") ∷ [])
          (viper.set_env_prefix (codes "KIM_GATE") v)))

  -- The loop of `bindFlags`, in the order in which the map is iterated.
  unfoldable pub bind_flags : List (Text × Text) → F → V → Result V
  bind_flags [] fs v = ok v
  bind_flags ((key, name) ∷ rest) fs v =
      elim (flag_bound name (viper.bind_pflag key (flags.lookup name fs) v)) [
        | err e ↦ err e
        | ok v' ↦ bind_flags rest fs v'
      ]

  -- The end of `readConfigFile`.
  abbrev pub read_result : Text → Option ReadError × V → Result V
  read_result path (none, v) = ok v
  read_result path (some (not_found e), v) =
      if is_empty path then ok v else err (wrap "read config file" e)
  read_result path (some (failed e), v) = err (wrap "read config file" e)

  unfoldable pub locate_config_file : Text → V → V
  locate_config_file path v =
      if is_empty path
      then viper.add_config_path (codes ".")
          (viper.set_config_type (codes "yml") (viper.set_config_name (codes "config") v))
      else viper.set_config_file path v

  unfoldable pub read_config_file : Text → V → Result V
  unfolding locate_config_file
  read_config_file config_path v =
      let path = trim_space config_path in
      read_result path (viper.read_in_config (locate_config_file path v))

  -- The configuration before it is normalized.
  unfoldable pub config_from : V → Config
  config_from v = record {
    http_addr = viper.get_string (codes "http.addr") v;
    web_socket_path = viper.get_string (codes "websocket.path") v;
    grpc_addr = viper.get_string (codes "grpc.addr") v;
    etcd_endpoints_str = viper.get_string (codes "etcd.endpoints") v;
    etcd_service_name = viper.get_string (codes "etcd.service") v;
    etcd_username = viper.get_string (codes "etcd.username") v;
    etcd_password = viper.get_string (codes "etcd.password") v;
    etcd_ttl = viper.get_duration (codes "etcd.ttl") v;
    env = viper.get_string (codes "env") v;
    shutdown_timeout = viper.get_duration (codes "shutdown.timeout") v;
    ping_interval = viper.get_duration (codes "signalg.ping_interval") v;
    ping_timeout = viper.get_duration (codes "signalg.ping_timeout") v;
    redis_dsn = viper.get_string (codes "redis.dsn") v;
    redis_route_ttl = viper.get_duration (codes "redis.route_ttl") v;
    redis_push_channel = viper.get_string (codes "redis.push_channel") v;
    redis_push_users_channel = viper.get_string (codes "redis.push_users_channel") v;
    redis_push_group_channel = viper.get_string (codes "redis.push_group_channel") v;
    redis_push_broadcast_channel = viper.get_string (codes "redis.push_broadcast_channel") v;
    jwt_secret = viper.get_string (codes "jwt.secret") v;
    jwt_expiration = viper.get_duration (codes "jwt.expiration") v;
    etcd_endpoints = [];
  }

  -- The end of `Load`.
  abbrev pub checked : Config → Result Config
  checked c = elim (validate c) [ err e ↦ err e | ok _ ↦ ok c ]

  -- `Load` after the flags were bound.
  unfoldable pub load_bound : F → V → Run (Result Config)
  unfolding read_config_file config_from
  load_bound fs v = elim (flags.lookup (codes "config") fs) [
    | none ↦ panicked (new "nil pointer dereference")
    | some flag ↦ elim (read_config_file (flags.value_string flag) v) [
      | err e ↦ returned (err e)
      | ok v' ↦ returned (checked (normalize (config_from v')))
    ]
  ]

  -- `Load` after the arguments were parsed.
  unfoldable pub load_parsed : List (Text × Text) → Option Error × F → V → Run (Result Config)
  unfolding load_bound
  load_parsed order (some e, fs) v = returned (err e)
  load_parsed order (none, fs) v = elim (bind_flags order fs v) [
    | err e ↦ returned (err e)
    | ok v' ↦ load_bound fs v'
  ]

  -- `order` is the order in which the map of the bindings is iterated.
  unfoldable pub load : List (Text × Text) → List Text → Run (Result Config)
  unfolding load_parsed
  load order args = then_run (bind_env (set_defaults viper.new)) (
      load_parsed order (
        flags.parse (normalize_flag_args args)
          (declare_flags declared_flags (flags.new_flag_set (codes "kim-gate")))))
