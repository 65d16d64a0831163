-- ===== src/Tests/Texts.antt =====
-- A configuration with blanks and missing parts, and the lists of texts that the program reads.
use kim_gate.Prelude.{◌≡◌, ◌↔◌, List, [], ◌∷◌}
use kim_gate.Effect.{ok}
use kim_gate.Text.{Text, codes}
use kim_gate.Config.{Config, defaults}
use kim_gate.Config.Normalize.{normalize, normalize_flag_args}
use kim_gate.Config.Validate.{validate}
use kim_gate.Config.Laws.{IsUsable, validate-normalize}
use kim_gate.Config.Paths.{normalize_flag_args_idem}

abbrev untidy : Config
untidy = record defaults {
  http_addr = codes " :80 ";
  web_socket_path = codes " ws";
  etcd_endpoints_str = codes "a:1, ,b:2";
  redis_push_channel = codes " push ";
  redis_push_group_channel = [];
}

validate-normalize_example : (validate (normalize untidy) ≡ ok tt) ↔ IsUsable (normalize untidy)
validate-normalize_example = validate-normalize untidy

abbrev args : List Text
args = codes "-config" ∷ codes "-c" ∷ codes "--env" ∷ codes "x" ∷ []

normalize_flag_args_idem_example :
    normalize_flag_args (normalize_flag_args args) ≡ normalize_flag_args args
normalize_flag_args_idem_example = normalize_flag_args_idem args
