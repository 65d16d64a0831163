-- ===== src/Rpc/Address.antt =====
-- Proofs on `NewServer` of internal/rpc/server.go: the address that a gate is registered under.
use kim_gate.Text.{Text}
use kim_gate.Config.{Config}
use kim_gate.Discovery.Registry.{Registry}
use kim_gate.Rpc.Server.{Server}
