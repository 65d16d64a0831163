-- ===== src/Config/Settings.antt =====
-- Proofs on `Load` of internal/config/config.go: where each setting comes from.
use kim_gate.Prelude.{◌≡◌, Option, none}
use kim_gate.Text.{Text, codes, lookup}
use kim_gate.Config.{Config}
use kim_gate.Config.Library.{FlagLibrary, Viper, or_else, FlagLaws, ViperLaws}
use kim_gate.Config.Tables.{declared_flags, default_values, bindings}
use kim_gate.Config.Load.{declare_flags}
use kim_gate.Config.Bindings.{pick}
use kim_gate.Config.Sources.{environment_of, given_named}

module _ {V F Flag : Type 0} {flags : FlagLibrary F Flag} {viper : Viper V Flag}
    (flag_laws : FlagLaws flags) {given : Flag → Option Text} (laws : ViperLaws viper given) where
  -- What a key is set to: the flag, if there is one and it was given, or else what the environment and
  -- then the file say, or else the default.
  abbrev pub effective : F → (Text → Option Text) → Text → Option Text
  effective fs file k =
      or_else (pick (lookup k bindings) (given_named flag_laws laws fs) none)
        (or_else (environment_of flag_laws laws k) (or_else (file k) (lookup k default_values)))

  -- The flags as `Load` declares them.
  abbrev pub declared_set : F
  declared_set = declare_flags flags viper declared_flags (flags.new_flag_set (codes "kim-gate"))

  -- The flags, the environment and the defaults are those of each key.
  abbrev pub IsBound : F → V → Type 0
  IsBound fs v =
      (k : Text)
      → (laws.flag v k ≡ pick (lookup k bindings) (given_named flag_laws laws fs) none)
        × (laws.env v k ≡ environment_of flag_laws laws k)
        × (laws.default v k ≡ lookup k default_values)
