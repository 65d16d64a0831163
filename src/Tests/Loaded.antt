-- ===== src/Tests/Loaded.antt =====
-- A run of `Load` with a reader that gives every setting the same text or duration.
use kim_gate.Prelude.{ℕ, ◌≡◌, refl, none, some, []}
use kim_gate.Prelude.Int.{pos}
use kim_gate.Effect.{ok, returned}
use kim_gate.Text.{codes, trim_space, compact_strings, has_prefix, split}
use kim_gate.Config.{Config}
use kim_gate.Config.Normalize.{normalize, normalize_path, normalize_push_channels, split_endpoints}
use kim_gate.Config.Validate.{validate}
use kim_gate.Config.Laws.{IsNormal, IsUsable}
use kim_gate.Config.Library.{FlagLibrary, Viper}
use kim_gate.Config.Tables.{bindings}
use kim_gate.Config.Load.{
  load, load_parsed, load_bound, bind_env, bind_all_env, bind_flags, set_defaults, set_all_defaults,
  read_config_file, locate_config_file, config_from,
}
use kim_gate.Config.Loaded.{load_sound}

abbrev flags : FlagLibrary ℕ ℕ
flags = record {
  new_flag_set = λ name. 0;
  declare = λ kind name fs. fs;
  parse = λ args fs. (none, fs);
  lookup = λ name fs. some fs;
  value_string = λ flag. [];
}

abbrev viper : Viper ℕ ℕ
viper = record {
  new = 0;
  set_default = λ key text v. v;
  set_env_prefix = λ prefix v. v;
  set_env_key_replacer = λ pairs v. v;
  automatic_env = λ v. v;
  bind_env = λ names v. (none, v);
  bind_pflag = λ key flag v. (none, v);
  set_config_file = λ path v. v;
  set_config_name = λ name v. v;
  set_config_type = λ kind v. v;
  add_config_path = λ path v. v;
  read_in_config = λ v. (none, v);
  get_string = λ key v. codes " x ";
  get_duration = λ key v. pos 1;
}

loaded : (cfg : Config) × (load flags viper bindings [] ≡ returned (ok cfg))
unfolding load load_parsed load_bound bind_env bind_all_env bind_flags set_defaults set_all_defaults
    read_config_file locate_config_file config_from normalize normalize_path normalize_push_channels
    split_endpoints validate trim_space compact_strings has_prefix split
loaded = (_, refl)

load_sound_example : IsNormal loaded.0 × IsUsable loaded.0
load_sound_example = load_sound flags viper bindings [] loaded.1
