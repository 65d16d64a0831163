-- ===== src/Fanout/Retries.antt =====
-- Proofs on pushes over a Redis whose connections break and whose client tries again: a gate makes
-- only calls that are asked for.
use kim_gate.Prelude.{
  ℕ, ◌≡◌, refl, sym, ap, subst, ◌∙◌, Bool-cases, inl, inr, List, [], ◌∷◌, ◌++◌, append_assoc,
  append-nil, Option, none, some, ◌==◌, arith,
}
use kim_gate.Effect.{Result, ok, err}
use kim_gate.Config.{Config}
use kim_gate.Cluster.Publisher.{Codec, PushRedis, Publisher, Message, new_publisher}
use kim_gate.Cluster.Subscriber.{SignalSender, Subscriber, new_subscriber, channels, receive_loop}
use kim_gate.Cluster.Dispatch.{Call}
use kim_gate.Rpc.Requests.{Request, serve, wanted}
use kim_gate.Rpc.Delivery.{CodecLaws, push_publisher}
use kim_gate.Fanout.Bags.{
  IsPart, copies, part_refl, part_nil, part_trans, part_append, part_weaken, part_of_sublist,
  AllCarry-part, AllCarry-copies,
}
use kim_gate.Fanout.Losses.{
  Lossy, System, asked_of, asked, took, happen, Does, Does-append, receive_loop-Does, AllCarry-cons,
}
use kim_gate.Fanout.{Event, served, received}
use kim_gate.Fanout.Steps.{perform_all, AllCarry, AllCarry-append}
use kim_gate.Fanout.Served.{served-Sends}

module _ {codec : Codec} (laws : CodecLaws codec) (cfg : Config) {V W : Type 0}
    (redis : PushRedis W) (client : ℕ → PushRedis V) (sender : ℕ → SignalSender V) {p : Publisher W}
    {tries : ℕ} {subscriber : ℕ → Subscriber V} (published : new_publisher cfg (some redis) ≡ ok p)
    (subscribed : (g : ℕ)
      → new_subscriber cfg (some (client g)) (some (sender g)) ≡ ok (subscriber g))
    (bus : Lossy redis (λ g. channels (some (subscriber g))) tries) (g : ℕ) where
  -- What the gate received carries `done`, what waits for it carries `todo`, and both together are
  -- some of the calls.
  abbrev Keeps : System W → List Call → Type 0
  Keeps s calls =
      (done todo : List Call) × Does codec (sender g) (s.taken g) done
      × AllCarry codec (sender g) (bus.due g s.redis) todo
      × IsPart (done ++ todo) calls

  -- Losses of messages that wait keep this.
  lost-Keeps :
      (s : System W) (w : W) (calls : List Call)
      → IsPart (bus.due g w) (bus.due g s.redis)
      → Keeps s calls
      → Keeps (record s { redis = w }) calls
  lost-Keeps s w calls lost (done, todo, does, carry, sub) =
      let (todo', carry', sub') = AllCarry-part codec (sender g) todo lost carry in
      (done, todo', does, carry', part_trans (part_append (part_refl done) sub') sub)

  weaken-Keeps : (s : System W) (calls more : List Call) → Keeps s calls → Keeps s (calls ++ more)
  weaken-Keeps s calls more (done, todo, does, carry, sub) =
      (done, todo, does, carry, part_weaken (done ++ todo) calls more sub)

  served-Keeps :
      (req : Request) (s : System W) (calls : List Call)
      → Keeps s calls
      → Keeps
          (record s { redis = (serve (push_publisher codec p) req s.redis).1 })
          (calls ++ asked_of tries req)
  served-Keeps req s calls (done, todo, does, carry, sub) =
      elim (served-Sends laws cfg redis client sender published subscribed g req s.redis) [
        | inl (same, failed) ↦
            weaken-Keeps (record s { redis = (serve (push_publisher codec p) req s.redis).1 }) calls
              (asked_of tries req)
              (lost-Keeps s _ calls
                (subst (λ v. IsPart (bus.due g v) (bus.due g s.redis)) (sym same)
                  (part_refl (bus.due g s.redis)))
                (done, todo, does, carry, sub))
        | inr (full, channel, b, sent, heard, carries) ↦
            let m : Message = record { channel = channel; payload = b } in
            let last = copies tries (wanted req ∷ []) in
            let lost =
              subst
                (λ (r : Result (Unit {0}) × W).
                  IsPart (bus.due g r.1) (bus.due g s.redis ++ copies tries (m ∷ [])))
                (sym sent) (rw heard at (bus.publish_lossy channel b s.redis g)) in
            let (todo', carry', sub') = AllCarry-part codec (sender g) (todo ++ last) lost (
              AllCarry-append codec (sender g) (bus.due g s.redis) (copies tries (m ∷ [])) todo last
                carry
                (AllCarry-copies codec (sender g) tries (m ∷ []) (wanted req ∷ [])
                  (carries, tt))) in
            let whole =
              subst (λ l. IsPart l (calls ++ last)) (append_assoc done todo last)
                (part_append sub (part_refl last)) in
            (
              done,
              todo',
              does,
              carry',
              rw full (part_trans (part_append (part_refl done) sub') whole),
            )
      ]

  -- A call of `ReceiveMessage` at the gate itself that returned no message.
  without :
      (s : System W) (calls : List Call) (r : Result (Option Message))
      → Does codec (sender g) (r ∷ []) []
      → Keeps s calls
      → (done todo : List Call) × Does codec (sender g) (s.taken g ++ r ∷ []) done
        × AllCarry codec (sender g) (bus.due g (bus.receive g s.redis).1) todo
        × IsPart (done ++ todo) calls
  without s calls r nothing (done, todo, does, carry, sub) =
      let (todo', carry', sub') =
        AllCarry-part codec (sender g) todo (bus.receive_lossy g g s.redis) carry in
      (
        done,
        todo',
        subst (Does codec (sender g) (s.taken g ++ r ∷ [])) (append-nil done)
            (Does-append codec (sender g) (s.taken g) (r ∷ []) done [] does nothing),
        carry',
        part_trans (part_append (part_refl done) sub') sub,
      )

  -- What a call of `ReceiveMessage` at the gate itself returned.
  returned-Keeps :
      (s : System W) (calls : List Call) (r : Result (Option Message))
      → (bus.receive g s.redis).0 ≡ r
      → Keeps s calls
      → (done todo : List Call) × Does codec (sender g) (s.taken g ++ r ∷ []) done
        × AllCarry codec (sender g) (bus.due g (bus.receive g s.redis).1) todo
        × IsPart (done ++ todo) calls
  returned-Keeps s calls (ok (some m)) e (done, todo, does, carry, sub) =
      let (cs, carry', sub') =
        AllCarry-part codec (sender g) todo (bus.receive_message g s.redis m e) carry in
      let (c, todo', split, carries, rest) = AllCarry-cons codec (sender g) m _ cs carry' in
      let whole = part_trans (part_append (part_refl done) sub') sub in
      (
        done ++ c ∷ [],
        todo',
        Does-append codec (sender g) (s.taken g) (ok (some m) ∷ []) done (c ∷ []) does
            (carries, tt),
        rest,
        subst (λ l. IsPart l calls)
            (ap (λ l. done ++ l) split ∙ sym (append_assoc done (c ∷ []) todo')) whole,
      )
  returned-Keeps s calls (ok none) e k = without s calls (ok none) tt k
  returned-Keeps s calls (err error) e k = without s calls (err error) tt k

  received-Keeps :
      (h : ℕ) (s : System W) (calls : List Call)
      → Keeps s calls
      → Keeps (took bus h (bus.receive h s.redis) s) calls
  received-Keeps h s calls k = elim (Bool-cases (g == h)) [
    | inl same ↦
        let here : g ≡ h = ground arith in
        let (done, todo, does, carry, sub) =
          returned-Keeps s calls (bus.receive g s.redis).0 refl k in
        (
          done,
          todo,
          rw same (
              subst (λ n. Does codec (sender g) (s.taken g ++ (bus.receive n s.redis).0 ∷ []) done)
                here does),
          subst (λ n. AllCarry codec (sender g) (bus.due g (bus.receive n s.redis).1) todo) here
              carry,
          sub,
        )
    | inr other ↦
        let (done, todo, does, carry, sub) =
          lost-Keeps s (bus.receive h s.redis).1 calls (bus.receive_lossy h g s.redis) k in
        (done, todo, rw other does, carry, sub)
  ]

  happen-Keeps :
      (es : List Event) (s : System W) (calls : List Call)
      → Keeps s calls
      → Keeps (happen bus (push_publisher codec p) es s) (calls ++ asked tries es)
  unfolding happen
  happen-Keeps [] s calls k = weaken-Keeps s calls [] k
  happen-Keeps (served req ∷ es) s calls k =
      subst (Keeps (happen bus (push_publisher codec p) (served req ∷ es) s))
        (append_assoc calls (asked_of tries req) (asked tries es))
        (happen-Keeps es _ (calls ++ asked_of tries req) (served-Keeps req s calls k))
  happen-Keeps (received h ∷ es) s calls k =
      happen-Keeps es (took bus h (bus.receive h s.redis) s) calls (received-Keeps h s calls k)

  -- With `CodecLaws`: the gates' publishers and subscribers are made from the same configuration, and
  -- Redis keeps the laws of `Lossy` for some number of tries. From a state where a gate has received
  -- nothing and nothing is due to it, after any requests at any gates and any receiving at any gates,
  -- what the loop of the gate has done is exactly some of the complete calls that the requests ask for,
  -- in some order, each at most as often as that number for every request that asks for it.
  pub at_most_tries :
      (es : List Event) (s : System W)
      → s.taken g ≡ []
      → bus.due g s.redis ≡ []
      → (done : List Call) × IsPart done (asked tries es)
        × ((v : V)
            → (receive_loop codec
                (sender g)
                ((happen bus (push_publisher codec p) es s).taken g)
                v).1
              ≡ perform_all (sender g) done v)
  at_most_tries es s none_taken none_due =
      let start : Keeps s [] = (
        [],
        [],
        subst (λ rs. Does codec (sender g) rs []) (sym none_taken) tt,
        subst (λ ms. AllCarry codec (sender g) ms []) (sym none_due) tt,
        part_nil [],
      ) in
      let (done, todo, does, carry, sub) = happen-Keeps es s [] start in
      let (made, some_made, run) = receive_loop-Does codec (sender g) _ done does in
      (
        made,
        part_trans (part_of_sublist made done some_made)
            (part_trans (part_weaken done done todo (part_refl done)) sub),
        run,
      )
