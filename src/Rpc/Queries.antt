-- ===== src/Rpc/Queries.antt =====
-- internal/rpc/service.go: the querying methods of `GatewayService` and its constructor.
use kim_gate.Prelude.{ℕ, not, ◌&&◌, Option, none, some, List, map, if◌then◌else◌}
use kim_gate.Prelude.Int.{ℤ, to_int32}
use kim_gate.Effect.{
  Result, ok, err, Error, new, status, Code, is, Sentinel, Action, fail, lift, map_err, ◌>>=◌, ◌>>◌,
}
use kim_gate.Text.{Text, is_empty, trim_space}
use kim_gate.Proto.{GetOnlineRequest, GetUserConnectionsRequest, UserConnection, GetTokenRequest}
use kim_gate.Data.UserRoute.{UserConnectionRoute}
use kim_gate.Auth.Jwt.{Jwt, JwtResolver, Token, generate_token}
use kim_gate.Rpc.Service.{PushPublisher, invalid, internal_error, required}

-- The counts of `signalg.Handler`, at the state of the local connections.
pub record Handler (W : Type 0) : Type 0 where
  pub user_online : Text → W → ℕ
  pub group_online : Text → W → ℕ
  pub online : W → ℕ

-- `UserConnectionStore`
pub record UserConnectionStore (W : Type 0) : Type 0 where
  pub list_user_connections : Text → Action W (List UserConnectionRoute)

pub record GatewayService (W : Type 0) : Type 0 where
  pub handler : Handler W
  pub connection_store : UserConnectionStore W
  pub publisher : PushPublisher W
  pub jwt_resolver : JwtResolver

unfoldable pub new_gateway_service :
    {W : Type 0}
    → Option (Handler W)
    → Option (UserConnectionStore W)
    → Option (PushPublisher W)
    → Option JwtResolver
    → Result (GatewayService W)
new_gateway_service none store publisher jwt = err (new "signalg handler is required")
new_gateway_service (some h) none publisher jwt = err (new "user connection store is required")
new_gateway_service (some h) (some s) none jwt = err (new "push publisher is required")
new_gateway_service (some h) (some s) (some p) none = err (new "jwt resolver is required")
new_gateway_service (some h) (some s) (some p) (some r) =
    ok (record { handler = h; connection_store = s; publisher = p; jwt_resolver = r })

unfoldable pub get_online : {W : Type 0} → Handler W → Option GetOnlineRequest → W → Result ℤ
get_online handler none w = err (invalid "request is required")
get_online handler (some req) w =
    let user_id = trim_space req.user_id in
    let group = trim_space req.group in
    if not (is_empty user_id) && not (is_empty group)
    then err (invalid "user_id and group cannot both be set")
    else if not (is_empty user_id)
    then ok (to_int32 (handler.user_online user_id w))
    else if not (is_empty group)
    then ok (to_int32 (handler.group_online group w))
    else ok (to_int32 (handler.online w))

abbrev pub user_connection : UserConnectionRoute → UserConnection
user_connection route = record { connection_id = route.connection_id; server_id = route.server_id }

unfoldable pub get_user_connections :
    {W : Type 0}
    → UserConnectionStore W
    → Option GetUserConnectionsRequest
    → Action W (List UserConnection)
get_user_connections store none = fail (invalid "request is required")
get_user_connections store (some req) = do
  let user_id = trim_space req.user_id
  lift (required user_id "user_id is required")
  routes ← map_err (internal_error "list user connections") (store.list_user_connections user_id)
  lift (ok (map user_connection routes))

-- The status of an error of `GenerateToken`.
abbrev pub token_error : Error → Error
token_error e =
    if is e Sentinel.unauthenticated
    then status Code.unauthenticated e
    else internal_error "generate token" e

-- Errors of `GenerateToken` become statuses.
abbrev token_result : Result Token → Result Token
token_result (ok token) = ok token
token_result (err e) = err (token_error e)

unfoldable pub get_token :
    {W : Type 0} → Jwt W → JwtResolver → Option GetTokenRequest → W → Result Token
get_token jwt r none w = err (invalid "request is required")
get_token jwt r (some req) w =
    let app_id = trim_space req.app_id in
    let user_id = trim_space req.user_id in
    if is_empty app_id
    then err (invalid "app_id is required")
    else if is_empty user_id
    then err (invalid "user_id is required")
    else token_result (generate_token jwt r app_id user_id req.platform req.br w)
