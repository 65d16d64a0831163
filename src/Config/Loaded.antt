-- ===== src/Config/Loaded.antt =====
-- Proofs on `Load` of internal/config/config.go, whatever the libraries do: what it returns can be used.
use kim_gate.Prelude.{◌≡◌, refl, subst, Option, none, some, List}
use kim_gate.Effect.{Result, ok, err, Error, Run, returned, panicked, then_run}
use kim_gate.Text.{Text, codes}
use kim_gate.Config.{Config}
use kim_gate.Config.Normalize.{normalize}
use kim_gate.Config.Validate.{validate}
use kim_gate.Config.Laws.{IsNormal, IsUsable, normalize-IsNormal, validate_sound}
use kim_gate.Config.Library.{FlagLibrary, Viper}
use kim_gate.Config.Load.{
  set_defaults, bind_env, bind_flags, read_config_file, config_from, checked, load_bound,
  load_parsed, load,
}

-- A configuration that is normal and passes `Validate`.
abbrev IsSound : Config → Type 0
IsSound c = IsNormal c × IsUsable c

-- Where a configuration is returned, it is sound.
abbrev Yields : Run (Result Config) → Type 0
Yields (returned (ok c)) = IsSound c
Yields (returned (err e)) = Unit
Yields (panicked e) = Unit

module _ {V F Flag : Type 0} (flags : FlagLibrary F Flag) (viper : Viper V Flag) where
  checked-Yields :
      (c : Config) (r : Result (Unit {0}))
      → IsNormal c
      → validate c ≡ r
      → Yields (returned (checked flags viper c))
  checked-Yields c (err e) n h = rw (h, Yields) tt
  checked-Yields c (ok x) n h = rw (h, Yields) (n, validate_sound c n h)

  load_bound-Yields : (fs : F) (v : V) → Yields (load_bound flags viper fs v)
  unfolding load_bound
  load_bound-Yields fs v = go (flags.lookup (codes "config") fs) refl
    where
      read :
          (flag : Flag) (r : Result V)
          → read_config_file flags viper (flags.value_string flag) v ≡ r
          → flags.lookup (codes "config") fs ≡ some flag
          → Yields (load_bound flags viper fs v)
      read flag (err e) h k = rw (k, load_bound) (rw (h, read_config_file) tt)
      read flag (ok v') h k =
          let c = normalize (config_from flags viper v') in
          rw (k, load_bound)
            (rw (h, read_config_file) (checked-Yields c (validate c) (normalize-IsNormal _) refl))

      go :
          (o : Option Flag)
          → flags.lookup (codes "config") fs ≡ o
          → Yields (load_bound flags viper fs v)
      go none k = rw (k, load_bound) tt
      go (some flag) k = read flag (read_config_file flags viper (flags.value_string flag) v) refl k

  load_parsed-Yields :
      (order : List (Text × Text)) (r : Option Error × F) (v : V)
      → Yields (load_parsed flags viper order r v)
  unfolding load_parsed
  load_parsed-Yields order (some e, fs) v = tt
  load_parsed-Yields order (none, fs) v = go (bind_flags flags viper order fs v) refl
    where
      go :
          (r : Result V)
          → bind_flags flags viper order fs v ≡ r
          → Yields (load_parsed flags viper order (none, fs) v)
      go (err e) h = rw (h, load_parsed) tt
      go (ok v') h = rw (h, load_parsed) (load_bound-Yields fs v')

  then_run-Yields :
      (r : Run V) (f : V → Run (Result Config)) → ((v : V) → Yields (f v)) → Yields (then_run r f)
  then_run-Yields (returned v) f h = h v
  then_run-Yields (panicked e) f h = tt

  load-Yields :
      (order : List (Text × Text)) (args : List Text) → Yields (load flags viper order args)
  unfolding load
  load-Yields order args =
      then_run-Yields (bind_env flags viper (set_defaults flags viper viper.new)) _
        (load_parsed-Yields order _)

  -- Whatever the libraries do, and whatever the order of the bindings is: where `Load` returns a
  -- configuration, it is normal (what `normalize` trims is trimmed, the path begins with a slash, the
  -- push channels are there), has its addresses and its DSN, and its durations are in range.
  pub load_sound :
      (order : List (Text × Text)) (args : List Text) {cfg : Config}
      → load flags viper order args ≡ returned (ok cfg)
      → IsNormal cfg × IsUsable cfg
  load_sound order args h = subst Yields h (load-Yields order args)
