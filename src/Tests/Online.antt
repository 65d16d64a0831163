-- ===== src/Tests/Online.antt =====
-- A count of a group, by a handler that counts the letters of a name.
use kim_gate.Prelude.{ℕ, length, some}
use kim_gate.Text.{codes}
use kim_gate.Proto.{GetOnlineRequest}
use kim_gate.Rpc.Queries.{Handler, get_online}
use kim_gate.Rpc.Online.{Counts, scope_of, get_online_lem}

abbrev handler : Handler ℕ
handler = record {
  user_online = λ user w. length user;
  group_online = λ group w. length group;
  online = λ w. w;
}

abbrev request : GetOnlineRequest
request = record { user_id = codes "  "; group = codes " shop " }

get_online_lem_example : Counts handler (scope_of request) 9 (get_online handler (some request) 9)
get_online_lem_example = get_online_lem handler request 9
