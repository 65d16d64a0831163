-- ===== src/Tests/Settings.antt =====
-- A flag set and a configuration reader on association lists, and a run of `Load` with them.
use kim_gate.Prelude.{
  ◌≡◌, refl, ◌∙◌, Bool, true, false, Option, none, some, List, [], ◌∷◌, ◌++◌, arith, if◌then◌else◌,
  length,
}
use kim_gate.Prelude.Int.{ℤ, pos}
use kim_gate.Effect.{Error, foreign}
use kim_gate.Text.{Text, codes, text_eq, lookup, cut}
use kim_gate.Text.Trim.{text_eq_iff}
use kim_gate.Config.Normalize.{normalize_flag_args}
use kim_gate.Config.Library.{
  FlagLibrary, Viper, or_else, first_variable, text_of, FlagLaws, ViperLaws,
}
use kim_gate.Config.{Config}
use kim_gate.Config.Settings.{declared_set}

-- The flags by name, each with its value if it was given.
abbrev Flags : Type 0
Flags = List (Text × Option Text)

unfoldable set_flag : Text → Text → Flags → Flags
set_flag name value [] = []
set_flag name value ((n, old) ∷ fs) =
    if text_eq n name then (n, some value) ∷ fs else (n, old) ∷ set_flag name value fs

-- The text behind `--`.
abbrev name_of : Text → Text
name_of (_ ∷ _ ∷ name) = name
name_of _ = []

abbrev assign : Option (Text × Text) → (Flags → Option Error × Flags) → Flags → Option Error × Flags
assign none next fs = (some (foreign 0), fs)
assign (some (before, value)) next fs = next (set_flag (name_of before) value fs)

-- Arguments of the form `--name=value`.
unfoldable parse : List Text → Flags → Option Error × Flags
parse [] fs = (none, fs)
parse (arg ∷ args) fs = assign (cut arg b'=') (parse args) fs

abbrev is_declared : Option (Option Text) → Bool
is_declared none = false
is_declared (some _) = true

abbrev flags : FlagLibrary Flags (Option Text)
flags = record {
  new_flag_set = λ _. [];
  declare = λ _ name fs. (name, none) ∷ fs;
  parse = parse;
  lookup = lookup;
  value_string = text_of;
}

set_flag_lem :
    (name value other : Text) (fs : Flags)
    → is_declared (lookup other (set_flag name value fs)) ≡ is_declared (lookup other fs)
unfolding set_flag
set_flag_lem name value other [] = refl
set_flag_lem name value other ((n, old) ∷ fs) = ground (arith, set_flag_lem name value other fs)

assign_lem :
    (r : Option (Text × Text)) (next : Flags → Option Error × Flags) (name : Text) (fs : Flags)
    → ((gs : Flags) → is_declared (lookup name (next gs).1) ≡ is_declared (lookup name gs))
    → is_declared (lookup name (assign r next fs).1) ≡ is_declared (lookup name fs)
assign_lem none next name fs h = refl
assign_lem (some (before, value)) next name fs h =
    h (set_flag (name_of before) value fs) ∙ set_flag_lem (name_of before) value name fs

parse_lem :
    (args : List Text) (name : Text) (fs : Flags)
    → is_declared (lookup name (parse args fs).1) ≡ is_declared (lookup name fs)
unfolding parse
parse_lem [] name fs = refl
parse_lem (arg ∷ args) name fs =
    assign_lem (cut arg b'=') (parse args) name fs (λ gs. parse_lem args name gs)

found_lem :
    (r : Option (Option Text)) → is_declared r ≡ true → (flag : Option Text) × (r ≡ some flag)
found_lem none h = (none, cc)
found_lem (some flag) h = (flag, refl)

flag_laws : FlagLaws flags
flag_laws = record {
  declared = λ fs name. is_declared (lookup name fs);
  declare = λ kind name other fs. ground (arith, text_eq_iff name other);
  parse = parse_lem;
  lookup = λ name fs h. found_lem (lookup name fs) h;
}

-- The four sources of the settings, and the prefix of variables.
record Sources : Type 0 where
  prefix : Text
  flag : Text → Option Text
  env : Text → Option Text
  file : Text → Option Text
  default : Text → Option Text

abbrev assigned : Text → Option Text → (Text → Option Text) → Text → Option Text
assigned key value old k = if text_eq key k then value else old k

-- The environment, and the file that is found.
abbrev environment : List (Text × Text)
environment = (codes "KIM_GATE_ENV", codes "prod") ∷ (codes "KIM_GATE_HTTP_ADDR", codes ":80") ∷ []

abbrev file_settings : List (Text × Text)
file_settings = (codes "jwt.secret", codes "s") ∷ (codes "env", codes "dev") ∷ []

abbrev variable : Text → Option Text
variable name = lookup name environment

abbrev setting : Text → Sources → Option Text
setting k v = or_else (v.flag k) (or_else (v.env k) (or_else (v.file k) (v.default k)))

-- The number of characters, in place of a duration.
abbrev size : Text → ℤ
size t = pos (length t)

abbrev bound : List Text → Sources → Option Error × Sources
bound [] v = (some (foreign 1), v)
bound (key ∷ names) v = (
  none,
  record v {
    env = λ k. if text_eq key k then or_else (v.env k) (first_variable variable names) else v.env k;
  },
)

abbrev bind : Text → Option (Option Text) → Sources → Option Error × Sources
bind key none v = (some (foreign 2), v)
bind key (some f) v = (none, record v { flag = assigned key f v.flag })

abbrev viper : Viper Sources (Option Text)
viper = record {
  new = record {
    prefix = [];
    flag = λ _. none;
    env = λ _. none;
    file = λ _. none;
    default = λ _. none;
  };
  set_default = λ key t v. record v { default = assigned key (some t) v.default };
  set_env_prefix = λ prefix v. record v { prefix = prefix };
  set_env_key_replacer = λ _ v. v;
  automatic_env = λ v. record v { env = λ k. or_else (variable (v.prefix ++ k)) (v.env k) };
  bind_env = bound;
  bind_pflag = bind;
  set_config_file = λ _ v. v;
  set_config_name = λ _ v. v;
  set_config_type = λ _ v. v;
  add_config_path = λ _ v. v;
  read_in_config = λ v. (none, record v { file = λ k. lookup k file_settings });
  get_string = λ k v. text_of (setting k v);
  get_duration = λ k v. size (text_of (setting k v));
}

viper_laws : ViperLaws viper (λ f. f)
viper_laws = record {
  flag = λ v. v.flag;
  env = λ v. v.env;
  file = λ v. v.file;
  default = λ v. v.default;
  duration_of = size;
  variable = variable;
  automatic_name = λ prefix _ k. prefix ++ k;
  new_env = λ _. refl;
  set_default_env = λ _ _ _ _. refl;
  new_flag = λ _. refl;
  new_default = λ _. refl;
  set_default_flag = λ _ _ _ _. refl;
  set_default_default = λ _ _ _ _. refl;
  environment = λ _ _ _ _. (refl, refl, refl);
  bind_env = λ _ _ _. (refl, λ _. refl, λ _. refl, λ _. refl);
  bind_pflag = λ _ _ _. (refl, λ _. refl, λ _. refl, λ _. refl);
  named_file = λ _ _ _. (refl, refl, refl);
  searched_file = λ _ _ _ _ _. (refl, refl, refl);
  read_in_config = λ _ _. (refl, refl, refl);
  get_string = λ _ _. refl;
  get_duration = λ _ _. refl;
}

abbrev args : List Text
args = codes "-config=gate.yml" ∷ codes "--env=test" ∷ []

abbrev given_flags : Flags
given_flags = (parse (normalize_flag_args args) (declared_set flag_laws viper_laws)).1
