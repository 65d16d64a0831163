-- ===== src/Config/Library.antt =====
-- The libraries that internal/config/config.go reads its settings with: `viper` and `pflag`.
use kim_gate.Prelude.{◌≡◌, Bool, true, ◌||◌, Option, none, some, List, [], ◌∷◌, if◌then◌else◌}
use kim_gate.Prelude.Int.{ℤ}
use kim_gate.Effect.{Error}
use kim_gate.Text.{Text, text_eq}

-- A flag is declared by `fs.String` or by `fs.Duration`, with the zero value as its default.
pub data FlagKind : Type 0 where
  string duration : FlagKind

-- `pflag`: `F` is the type of flag sets, `Flag` that of flags. `value_string` is `Value.String()`.
pub record FlagLibrary (F Flag : Type 0) : Type 0 where
  pub new_flag_set : Text → F
  pub declare : FlagKind → Text → F → F
  pub parse : List Text → F → Option Error × F
  pub lookup : Text → F → Option Flag
  pub value_string : Flag → Text

-- What `ReadInConfig` returns: nothing, the error that no file was found, or another error.
pub data ReadError : Type 0 where
  not_found failed : Error → ReadError

-- `viper`, in a given environment with given files: `V` is the type of `*viper.Viper`'s state.
pub record Viper (V Flag : Type 0) : Type 0 where
  pub new : V
  pub set_default : Text → Text → V → V
  pub set_env_prefix : Text → V → V
  pub set_env_key_replacer : List (Text × Text) → V → V
  pub automatic_env : V → V
  pub bind_env : List Text → V → Option Error × V
  pub bind_pflag : Text → Option Flag → V → Option Error × V
  pub set_config_file : Text → V → V
  pub set_config_name : Text → V → V
  pub set_config_type : Text → V → V
  pub add_config_path : Text → V → V
  pub read_in_config : V → Option ReadError × V
  pub get_string : Text → V → Text
  pub get_duration : Text → V → ℤ

-- The first of two values that is there.
abbrev pub or_else {ℓ} : {A : Type ℓ} → Option A → Option A → Option A
or_else (some a) b = some a
or_else none b = b

abbrev pub text_of : Option Text → Text
text_of (some t) = t
text_of none = []

-- The first of some environment variables that is set.
abbrev pub first_variable : (Text → Option Text) → List Text → Option Text
first_variable variable [] = none
first_variable variable (name ∷ names) = or_else (variable name) (first_variable variable names)

-- What pflag documents: a flag that was declared is found, also after the arguments were parsed.
pub record FlagLaws {F Flag : Type 0} (flags : FlagLibrary F Flag) : Type 0 where
  pub declared : F → Text → Bool
  pub declare :
      (kind : FlagKind) (name other : Text) (fs : F)
      → declared (flags.declare kind name fs) other ≡ (text_eq name other || declared fs other)
  pub parse :
      (args : List Text) (name : Text) (fs : F)
      → declared (flags.parse args fs).1 name ≡ declared fs name
  pub lookup :
      (name : Text) (fs : F)
      → declared fs name ≡ true
      → (flag : Flag) × (flags.lookup name fs ≡ some flag)

-- What viper documents of precedence: a flag, if it was given, is read before the environment, that
-- before the file, and that before the default. Each call sets one source of its key and leaves all
-- else alone. `given` is the value of a flag, if it was given; `variable` that of an environment
-- variable, if it is set and not empty; `automatic_name` is the variable of a key that `AutomaticEnv`
-- looks at, by the prefix and the replacements; `duration_of` reads a duration as `time.ParseDuration`
-- does.
pub record ViperLaws {V Flag : Type 0} (viper : Viper V Flag) (given : Flag → Option Text)
    : Type 0 where
  pub flag : V → Text → Option Text
  pub env : V → Text → Option Text
  pub file : V → Text → Option Text
  pub default : V → Text → Option Text
  pub duration_of : Text → ℤ
  pub variable : Text → Option Text
  pub automatic_name : Text → List (Text × Text) → Text → Text
  pub new_env : (k : Text) → env viper.new k ≡ none
  pub set_default_env : (key t k : Text) (v : V) → env (viper.set_default key t v) k ≡ env v k
  pub new_flag : (k : Text) → flag viper.new k ≡ none
  pub new_default : (k : Text) → default viper.new k ≡ none
  pub set_default_flag : (key t k : Text) (v : V) → flag (viper.set_default key t v) k ≡ flag v k
  pub set_default_default :
      (key t k : Text) (v : V)
      → default (viper.set_default key t v) k ≡ (if text_eq key k then some t else default v k)
  pub environment :
      (prefix k : Text) (pairs : List (Text × Text)) (v : V)
      → let v' =
          viper.automatic_env (viper.set_env_key_replacer pairs (viper.set_env_prefix prefix v)) in
        (flag v' k ≡ flag v k)
        × (default v' k ≡ default v k)
        × (env v' k ≡ or_else (variable (automatic_name prefix pairs k)) (env v k))
  pub bind_env :
      (key : Text) (names : List Text) (v : V)
      → ((viper.bind_env (key ∷ names) v).0 ≡ none)
        × ((k : Text) → flag (viper.bind_env (key ∷ names) v).1 k ≡ flag v k)
        × ((k : Text) → default (viper.bind_env (key ∷ names) v).1 k ≡ default v k)
        × ((k : Text)
            → env (viper.bind_env (key ∷ names) v).1 k ≡ (
                if text_eq key k
                then or_else (env v k) (first_variable variable names)
                else env v k))
  pub bind_pflag :
      (key : Text) (f : Flag) (v : V)
      → ((viper.bind_pflag key (some f) v).0 ≡ none)
        × ((k : Text)
            → flag (viper.bind_pflag key (some f) v).1 k
              ≡ (if text_eq key k then given f else flag v k))
        × ((k : Text) → default (viper.bind_pflag key (some f) v).1 k ≡ default v k)
        × ((k : Text) → env (viper.bind_pflag key (some f) v).1 k ≡ env v k)
  pub named_file :
      (path k : Text) (v : V)
      → let v' = viper.set_config_file path v in
        (flag v' k ≡ flag v k) × (default v' k ≡ default v k) × (env v' k ≡ env v k)
  pub searched_file :
      (name type_name path k : Text) (v : V)
      → let v' =
          viper.add_config_path path
            (viper.set_config_type type_name (viper.set_config_name name v)) in
        (flag v' k ≡ flag v k) × (default v' k ≡ default v k) × (env v' k ≡ env v k)
  pub read_in_config :
      (k : Text) (v : V)
      → (flag (viper.read_in_config v).1 k ≡ flag v k)
        × (default (viper.read_in_config v).1 k ≡ default v k)
        × (env (viper.read_in_config v).1 k ≡ env v k)
  pub get_string :
      (k : Text) (v : V)
      → viper.get_string k v
        ≡ text_of (or_else (flag v k) (or_else (env v k) (or_else (file v k) (default v k))))
  pub get_duration :
      (k : Text) (v : V)
      → viper.get_duration k v
        ≡ duration_of
            (text_of (or_else (flag v k) (or_else (env v k) (or_else (file v k) (default v k)))))
