-- ===== src/Config/Paths.antt =====
-- Proofs on `normalizePath`, the defaults and `normalizeFlagArgs` of internal/config/config.go.
use kim_gate.Prelude.{◌≡◌, refl, ap₂, true, false, List, [], ◌∷◌, arith}
use kim_gate.Text.{Text, codes, is_empty, is_space, trim_space, has_prefix}
use kim_gate.Text.Trim.{trim_space_idem}
use kim_gate.Text.Compact.{IsClean}
use kim_gate.Text.Join.{trim_space-cons}
use kim_gate.Config.{default_web_socket_path}
use kim_gate.Config.Normalize.{normalize_path, or_default, normalize_flag_arg, normalize_flag_args}

trim-IsClean : (s : Text) → is_empty (trim_space s) ≡ false → IsClean (trim_space s)
trim-IsClean s h = (trim_space_idem s, h)

trim_default_path : trim_space default_web_socket_path ≡ default_web_socket_path
unfolding trim_space
trim_default_path = refl

slash_path : (p : Text) → IsClean p → trim_space (b'/' ∷ p) ≡ b'/' ∷ p
unfolding is_space
slash_path p h = trim_space-cons b'/' p refl h

-- A normalized path is trimmed, is not empty and begins with a slash.
pub normalize_path_lem :
    (p : Text) → IsClean (normalize_path p) × (has_prefix (normalize_path p) (codes "/") ≡ true)
unfolding normalize_path has_prefix
normalize_path_lem p =
    ground (arith, trim_space_idem p, trim_default_path, slash_path (trim_space p))

-- A path of that shape is kept as it is.
pub normalize_path_of_IsClean :
    (p : Text) → IsClean p → has_prefix p (codes "/") ≡ true → normalize_path p ≡ p
unfolding normalize_path
normalize_path_of_IsClean p h k = ground arith

-- A text for which a clean default stands in is clean.
pub or_default-IsClean : (s d : Text) → IsClean d → IsClean (or_default (trim_space s) d)
or_default-IsClean s d h = ground (arith, trim_space_idem s)

has_prefix_dashes : (a : Text) → has_prefix (b'-' ∷ a) (codes "--") ≡ has_prefix a (codes "-")
unfolding has_prefix
has_prefix_dashes [] = refl
has_prefix_dashes (c ∷ a) = refl

-- Normalizing the arguments again changes nothing.
normalize_flag_arg_idem :
    (a : Text) → normalize_flag_arg (normalize_flag_arg a) ≡ normalize_flag_arg a
unfolding normalize_flag_arg
normalize_flag_arg_idem a = ground (arith, has_prefix_dashes a)

pub normalize_flag_args_idem :
    (args : List Text) → normalize_flag_args (normalize_flag_args args) ≡ normalize_flag_args args
unfolding normalize_flag_args
normalize_flag_args_idem [] = refl
normalize_flag_args_idem (a ∷ args) =
    ap₂ ◌∷◌ (normalize_flag_arg_idem a) (normalize_flag_args_idem args)
