-- ===== src/Tests/Process.antt =====
-- A process over the libraries of `Tests.Wiring` that gets a signal and registers its gate only while it shuts down.
use kim_gate.Prelude.{false, none, List}
use kim_gate.Effect.{ok}
use kim_gate.Text.{Text}
use kim_gate.Rpc.Queries.{GatewayService}
use kim_gate.Wiring.Process.{signal_came, draining, never, Servers, Cells}
use kim_gate.Tests.Redis.{World}
use kim_gate.Tests.Presence.{empty}

abbrev servers : Servers World Text (List (GatewayService World)) Text Text
servers = record {
  wait = λ app w. record {
    ended = signal_came;
    registers = draining;
    before = λ v. v;
    after = λ v. v;
  };
  shutdown_http = λ http w. (ok tt, w);
  graceful_stop = λ server w. (none, w);
  etcd = record {
    new_manager = λ name w. (ok tt, w);
    grant = λ seconds w. (ok 7, w);
    keep_alive = λ lease w. (ok tt, w);
    add_endpoint = λ name key address lease w. (ok tt, w);
    delete_endpoint = λ name key w. (ok tt, w);
    revoke = λ lease w. (ok tt, w);
    close = λ w. (ok tt, w);
  };
}

abbrev cells : Cells World
cells = record { registry = none; registers = never; cancelled = false; world = empty }
