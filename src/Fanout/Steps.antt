-- ===== src/Fanout/Steps.antt =====
-- Proofs on one step of one gate: a request that is served, and a message that is received.
use kim_gate.Prelude.{◌≡◌, refl, ap, ◌∙◌, List, [], ◌∷◌, ◌++◌, length, suc, Option, some, map}
use kim_gate.Effect.{Result, ok}
use kim_gate.Cluster.Publisher.{Codec, Message}
use kim_gate.Cluster.Subscriber.{SignalSender, consume, waiting, receive_loop}
use kim_gate.Cluster.Dispatch.{Call, perform}

-- The calls one after the other, whether they fail or not.
abbrev pub perform_all : {V : Type 0} → SignalSender V → List Call → V → V
perform_all sender [] v = v
perform_all sender (c ∷ cs) v = perform_all sender cs (perform sender c v).1

abbrev pub delivered : Message → Result (Option Message)
delivered m = ok (some m)

module _ (codec : Codec) {V : Type 0} (sender : SignalSender V) where
  -- What the loop does with a message is a call.
  abbrev pub Carries : Message → Call → Type 0
  Carries m call = (v : V) → consume codec sender (some m) v ≡ (perform sender call v).1

  abbrev pub AllCarry : List Message → List Call → Type 0
  AllCarry [] [] = Unit
  AllCarry (m ∷ ms) (c ∷ cs) = Carries m c × AllCarry ms cs
  AllCarry _ _ = ⊥

  pub AllCarry-append :
      (ms ns : List Message) (cs ds : List Call)
      → AllCarry ms cs
      → AllCarry ns ds
      → AllCarry (ms ++ ns) (cs ++ ds)
  AllCarry-append [] ns [] ds h k = k
  AllCarry-append [] ns (c ∷ cs) ds h k = absurd h
  AllCarry-append (m ∷ ms) ns [] ds h k = absurd h
  AllCarry-append (m ∷ ms) ns (c ∷ cs) ds (h, hs) k = (h, AllCarry-append ms ns cs ds hs k)

  pub receive_loop-AllCarry :
      (ms : List Message) (cs : List Call) (v : V)
      → AllCarry ms cs
      → receive_loop codec sender (map delivered ms) v ≡ (waiting, perform_all sender cs v)
  unfolding receive_loop
  receive_loop-AllCarry [] [] v h = refl
  receive_loop-AllCarry [] (c ∷ cs) v h = absurd h
  receive_loop-AllCarry (m ∷ ms) [] v h = absurd h
  receive_loop-AllCarry (m ∷ ms) (c ∷ cs) v (h, hs) =
      ap (receive_loop codec sender (map delivered ms)) (h v)
      ∙ receive_loop-AllCarry ms cs (perform sender c v).1 hs

  pub length-AllCarry :
      (ms : List Message) (cs : List Call) → AllCarry ms cs → length cs ≡ length ms
  length-AllCarry [] [] h = refl
  length-AllCarry [] (c ∷ cs) h = absurd h
  length-AllCarry (m ∷ ms) [] h = absurd h
  length-AllCarry (m ∷ ms) (c ∷ cs) (h, hs) = ap suc (length-AllCarry ms cs hs)
