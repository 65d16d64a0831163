-- ===== src/Text/HostPort.antt =====
-- `SplitHostPort` and `JoinHostPort` of Go's package `net`.
use kim_gate.Prelude.{ℕ, Bool, false, ◌||◌, Option, none, some, [], ◌∷◌, ◌++◌, ◌==◌, if◌then◌else◌}
use kim_gate.Effect.{Result, ok, err, about}
use kim_gate.Text.{Text, codes, cut, contains}

-- What stands before and after the last separator.
unfoldable pub cut_last : Text → ℕ → Option (Text × Text)
cut_last [] sep = none
cut_last (c ∷ s) sep = elim (cut_last s sep) [
  | some (before, after) ↦ some (c ∷ before, after)
  | none ↦ if c == sep then some ([], s) else none
]

-- The rest of an address that starts with a bracket, behind the closing one; `inside` is between them.
unfoldable pub split_bracketed : Text → Text → Text → Result (Text × Text)
split_bracketed addr inside [] = err (about "missing port in address" addr)
split_bracketed addr inside (c ∷ port) =
    if c == b':'
    then (if contains port b':'
        then err (about "too many colons in address" addr)
        else if contains inside b'[' || contains port b'['
        then err (about "unexpected '[' in address" addr)
        else if contains port b']'
        then err (about "unexpected ']' in address" addr)
        else ok (inside, port))
    else err (about "missing port in address" addr)

-- The check of an address without brackets.
unfoldable pub split_plain : Text → Text → Text → Result (Text × Text)
split_plain addr host port =
    if contains host b':'
    then err (about "too many colons in address" addr)
    else if contains addr b'['
    then err (about "unexpected '[' in address" addr)
    else if contains addr b']'
    then err (about "unexpected ']' in address" addr)
    else ok (host, port)

abbrev pub drop_one : Text → Text
drop_one [] = []
drop_one (_ ∷ s) = s

abbrev pub starts_with : ℕ → Text → Bool
starts_with c [] = false
starts_with c (d ∷ _) = d == c

unfoldable pub split_host_port : Text → Result (Text × Text)
unfolding cut_last split_bracketed split_plain
split_host_port addr = elim (cut_last addr b':') [
  | none ↦ err (about "missing port in address" addr)
  | some (host, port) ↦
      if starts_with b'[' addr
      then (elim (cut (drop_one addr) b']') [
        | none ↦ err (about "missing ']' in address" addr)
        | some (inside, rest) ↦ split_bracketed addr inside rest
      ])
      else split_plain addr host port
]

unfoldable pub join_host_port : Text → Text → Text
join_host_port host port =
    if contains host b':'
    then codes "[" ++ (host ++ (codes "]:" ++ port))
    else host ++ (codes ":" ++ port)
