-- ===== src/Data/Client.antt =====
-- internal/data/data.go: opening and closing the client. The Redis library is the parameter
-- `RedisLibrary`; log lines and the ping's timeout are not modelled.
use kim_gate.Prelude.{Option, none, some, if◌then◌else◌}
use kim_gate.Effect.{Result, ok, err, new, wrap, rewrap, Action, map_err}
use kim_gate.Text.{Text, is_empty, trim_space}
use kim_gate.Config.{Config}

-- `Opened` is the type of clients, `Options` the type of parsed options.
pub record RedisLibrary (W Options Opened : Type 0) : Type 0 where
  pub parse_url : Text → Result Options
  pub new_client : Options → W → Opened × W
  pub ping : Opened → Action W (Unit {0})
  pub close : Opened → Action W (Unit {0})

module _ {W Options Opened : Type 0} (redis : RedisLibrary W Options Opened) where
  unfoldable pub redis_options_from_dsn : Text → Result Options
  redis_options_from_dsn dsn =
      if is_empty (trim_space dsn)
      then err (new "redis dsn is required")
      else rewrap (wrap "parse redis dsn") (redis.parse_url (trim_space dsn))

  -- A client that does not answer the ping is closed again.
  abbrev pinged : Opened → Result (Unit {0}) × W → Result Opened × W
  pinged client (ok _, w) = (ok client, w)
  pinged client (err e, w) = (err (wrap "ping redis" e), (redis.close client w).1)

  unfoldable pub new_data : Config → Action W Opened
  unfolding redis_options_from_dsn
  new_data cfg w = elim (redis_options_from_dsn cfg.redis_dsn) [
    | err e ↦ (err e, w)
    | ok opts ↦ let (client, w') = redis.new_client opts w in pinged client (redis.ping client w')
  ]

  -- The client is `none` where the receiver or its client is nil.
  unfoldable pub close : Option Opened → Action W (Unit {0})
  close none w = (ok tt, w)
  close (some client) w = map_err (wrap "close redis") (redis.close client) w
