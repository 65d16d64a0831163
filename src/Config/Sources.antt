-- ===== src/Config/Sources.antt =====
-- Proofs on `setDefaults`, `bindEnv`, `bindFlags` and `readConfigFile` of internal/config/config.go.
use kim_gate.Prelude.{
  ◌≡◌, inl, inr, refl, sym, ap, ◌∙◌, ◌||◌, Option, none, some, List, [], ◌∷◌, arith, Bool-cases,
}
use kim_gate.Effect.{ok, returned}
use kim_gate.Text.{Text, codes, is_empty, elem, IsDistinct, lookup, keys}
use kim_gate.Text.Trim.{text_eq_iff, text_eq_refl}
use kim_gate.Text.Assoc.{lookup-none}
use kim_gate.Config.Library.{
  FlagKind, FlagLibrary, Viper, or_else, first_variable, FlagLaws, ViperLaws,
}
use kim_gate.Config.Tables.{env_names}
use kim_gate.Config.Load.{
  declare_flags, set_all_defaults, bind_all_env, bind_env, bind_flags, locate_config_file,
}
use kim_gate.Config.Bindings.{names, pick, or_else-none, env_names-IsDistinct}

module _ {V F Flag : Type 0} {flags : FlagLibrary F Flag} {viper : Viper V Flag}
    (flag_laws : FlagLaws flags) {given : Flag → Option Text} (laws : ViperLaws viper given) where
  pub declared-declare_flags :
      (list : List (FlagKind × Text)) (fs : F) (m : Text)
      → flag_laws.declared (declare_flags flags viper list fs) m
        ≡ (elem m (names list) || flag_laws.declared fs m)
  unfolding declare_flags names
  declared-declare_flags [] fs m = refl
  declared-declare_flags ((kind, name) ∷ list) fs m = ground (
    arith,
    declared-declare_flags list (flags.declare kind name fs) m,
    flag_laws.declare kind name m fs,
    text_eq_iff name m,
    text_eq_iff m name,
  )

  pub set_all_defaults_lem :
      (list : List (Text × Text)) (v : V) (k : Text)
      → IsDistinct (keys list)
      → (laws.flag (set_all_defaults flags viper list v) k ≡ laws.flag v k)
        × (laws.default (set_all_defaults flags viper list v) k
            ≡ or_else (lookup k list) (laws.default v k))
        × (laws.env (set_all_defaults flags viper list v) k ≡ laws.env v k)
  unfolding set_all_defaults
  set_all_defaults_lem [] v k d = (refl, refl, refl)
  set_all_defaults_lem ((key, t) ∷ list) v k d = ground (
    arith,
    set_all_defaults_lem list (viper.set_default key t v) k,
    laws.set_default_flag key t k v,
    laws.set_default_default key t k v,
    laws.set_default_env key t k v,
    lookup-none k list,
    text_eq_iff key k,
  )

  -- `v'` has the flags and the defaults of `v`.
  unfoldable pub IsSame : V → V → Type 0
  IsSame v' v =
      ((k : Text) → laws.flag v' k ≡ laws.flag v k)
      × ((k : Text) → laws.default v' k ≡ laws.default v k)

  -- What a key gets from the variables that it may be bound to.
  abbrev pub bound_variable : Option (List Text) → Option Text
  bound_variable none = none
  bound_variable (some names) = first_variable laws.variable names

  abbrev pub replacements : List (Text × Text)
  replacements = (codes ".", codes "_") ∷ (codes "-", codes "_") ∷ []

  -- What the environment says of a key: the variable that is looked at by itself, or else the first of
  -- those that it is bound to.
  abbrev pub environment_of : Text → Option Text
  environment_of k =
      or_else (laws.variable (laws.automatic_name (codes "KIM_GATE") replacements k))
        (bound_variable (lookup k env_names))

  bind_all_env_lem :
      (list : List (Text × List Text)) (v : V)
      → IsDistinct (keys list)
      → (v' : V) × (bind_all_env flags viper list v ≡ returned v')
        × IsSame v' v
        × ((k : Text) → laws.env v' k ≡ or_else (laws.env v k) (bound_variable (lookup k list)))
  unfolding bind_all_env IsSame
  bind_all_env_lem [] v d =
      (v, refl, (λ k. refl, λ k. refl), λ k. sym (or_else-none (laws.env v k)))
  bind_all_env_lem ((key, list) ∷ rest) v d =
      let law = laws.bind_env key list v in
      let next = bind_all_env_lem rest (viper.bind_env (key ∷ list) v).1 d.1 in
      (
        next.0,
        ground (arith, law.0, next.1),
        ((λ k. next.2.0 k ∙ law.1 k), (λ k. next.2.1 k ∙ law.2 k)),
        λ k. ground (
          arith,
          next.3 k,
          law.3 k,
          lookup-none key rest d.0,
          or_else-none (laws.env (viper.bind_env (key ∷ list) v).1 k),
          text_eq_iff key k,
        ),
      )

  pub bind_env_lem :
      (v : V)
      → ((k : Text) → laws.env v k ≡ none)
      → (v' : V) × (bind_env flags viper v ≡ returned v')
        × IsSame v' v
        × ((k : Text) → laws.env v' k ≡ environment_of k)
  unfolding bind_env IsSame
  bind_env_lem v unset =
      let pairs = replacements in
      let prefix = codes "KIM_GATE" in
      let next =
        bind_all_env_lem env_names
          (viper.automatic_env (viper.set_env_key_replacer pairs (viper.set_env_prefix prefix v)))
          env_names-IsDistinct in
      (
        next.0,
        next.1,
        (
          (λ k. next.2.0 k ∙ (laws.environment prefix k pairs v).0),
          (λ k. next.2.1 k ∙ (laws.environment prefix k pairs v).1),
        ),
        λ k.
            let own = laws.variable (laws.automatic_name prefix pairs k) in
            next.3 k
            ∙ ap (λ e. or_else e (bound_variable (lookup k env_names)))
                ((laws.environment prefix k pairs v).2
                  ∙ (ap (or_else own) (unset k) ∙ or_else-none own)),
      )

  -- The value of a flag of the set, if the flag was given.
  unfoldable pub given_named : F → Text → Option Text
  given_named fs name = elim (flags.lookup name fs) [ none ↦ none | some flag ↦ given flag ]

  pub bind_flags_lem :
      (order : List (Text × Text)) (fs : F) (v : V)
      → ((k n : Text) → lookup k order ≡ some n → (flag : Flag) × (flags.lookup n fs ≡ some flag))
      → IsDistinct (keys order)
      → (v' : V) × (bind_flags flags viper order fs v ≡ ok v')
        × ((k : Text) → laws.flag v' k ≡ pick (lookup k order) (given_named fs) (laws.flag v k))
        × ((k : Text) → laws.default v' k ≡ laws.default v k)
        × ((k : Text) → laws.env v' k ≡ laws.env v k)
  unfolding bind_flags given_named
  bind_flags_lem [] fs v found d = (v, refl, λ k. refl, λ k. refl, λ k. refl)
  bind_flags_lem ((key, name) ∷ rest) fs v found d =
      let f = found key name (ground (arith, text_eq_refl key)) in
      let law = laws.bind_pflag key f.0 v in
      let absent = lookup-none key rest d.0 in
      let next =
        bind_flags_lem rest fs (viper.bind_pflag key (some f.0) v).1
          (λ k n e. found k n (ground (arith, e, absent, text_eq_iff key k))) d.1 in
      (
        next.0,
        ground (arith, law.0, next.1, f.1),
        (λ k. ground (arith, next.2 k, law.1 k, f.1, absent, text_eq_iff key k)),
        (λ k. next.3 k ∙ law.2 k),
        (λ k. next.4 k ∙ law.3 k),
      )

  pub located_lem :
      (path k : Text) (v : V)
      → let v' = (viper.read_in_config (locate_config_file flags viper path v)).1 in
        (laws.flag v' k ≡ laws.flag v k)
        × (laws.default v' k ≡ laws.default v k)
        × (laws.env v' k ≡ laws.env v k)
  unfolding locate_config_file
  located_lem path k v =
      let read = λ (w : V). laws.read_in_config k w in
      elim (Bool-cases (is_empty path)) [
        | inl e ↦
            let file = laws.searched_file (codes "config") (codes "yml") (codes ".") k v in
            rw e ((read _).0 ∙ file.0, (read _).1 ∙ file.1, (read _).2 ∙ file.2)
        | inr e ↦
            let file = laws.named_file path k v in
            rw e ((read _).0 ∙ file.0, (read _).1 ∙ file.1, (read _).2 ∙ file.2)
      ]
