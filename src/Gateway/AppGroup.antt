-- ===== src/Gateway/AppGroup.antt =====
-- internal/gateway/app_group.go
use kim_gate.Prelude.{ℕ, String, ◌++◌, none, some, if◌then◌else◌}
use kim_gate.Effect.{Result, ok, err, Error, sentinel, Sentinel, detail}
use kim_gate.Text.{Text, codes, is_empty, trim_space, cut, contains}

-- `fmt.Errorf("%w: " + text, ErrInvalidUserID)`
abbrev invalid : String → Error
invalid text = detail (sentinel Sentinel.invalid_user_id) text

abbrev pub colon : ℕ
colon = b':'

unfoldable pub format_app_group : Text → Text
format_app_group app_id = codes "app:" ++ app_id

pub record AppGroup : Type 0 where
  pub group : Text
  pub app_id : Text

-- The two parts of the user id, after the separator was found.
unfoldable pub parse_parts : Text → Text → Result AppGroup
parse_parts app_part user_part =
    let app_id = trim_space app_part in
    if contains user_part colon
    then err (invalid "too many app separators")
    else if is_empty app_id
    then err (invalid "app id is required")
    else if is_empty (trim_space user_part)
    then err (invalid "user id is required")
    else ok (record { group = format_app_group app_id; app_id = app_id })

unfoldable pub parse_app_group : Text → Result AppGroup
unfolding parse_parts
parse_app_group user_id =
    if is_empty (trim_space user_id)
    then err (invalid "empty user id")
    else (elim (cut (trim_space user_id) colon) [
      | none ↦ err (invalid "missing app separator")
      | some (app_part, user_part) ↦ parse_parts app_part user_part
    ])
