-- ===== src/Fanout/Delivery.antt =====
-- Proofs on pushes among several gates: what each gate does is what the replies to requests promise.
use kim_gate.Prelude.{
  ℕ, ◌≡◌, ◌≢◌, inl, inr, refl, sym, ap, subst, ◌∙◌, Bool-cases, List, [], ◌∷◌, ◌++◌, append_assoc,
  append-nil, length, some, ◌==◌, arith, map,
}
use kim_gate.Effect.{ok}
use kim_gate.Config.{Config}
use kim_gate.Cluster.Publisher.{Codec, PushRedis, Publisher, Message, new_publisher}
use kim_gate.Cluster.Subscriber.{
  SignalSender, Subscriber, new_subscriber, channels, waiting, receive_loop,
}
use kim_gate.Cluster.Dispatch.{Call}
use kim_gate.Rpc.Requests.{serve}
use kim_gate.Rpc.Delivery.{CodecLaws, push_publisher}
use kim_gate.Fanout.{
  Bus, Event, served, received, System, took, happen, Promised, nothing, answered,
}
use kim_gate.Fanout.Arrivals.{served-Arrives}
use kim_gate.Fanout.Steps.{
  AllCarry, AllCarry-append, perform_all, delivered, receive_loop-AllCarry, length-AllCarry,
}

module _ {codec : Codec} (laws : CodecLaws codec) (cfg : Config) {V W : Type 0}
    (redis : PushRedis W) (client : ℕ → PushRedis V) (sender : ℕ → SignalSender V) {p : Publisher W}
    {subscriber : ℕ → Subscriber V} (published : new_publisher cfg (some redis) ≡ ok p)
    (subscribed : (g : ℕ)
      → new_subscriber cfg (some (client g)) (some (sender g)) ≡ ok (subscriber g))
    (bus : Bus redis (λ g. channels (some (subscriber g)))) (g : ℕ) where
  -- The gate has received messages that carry `done`, and others that carry `todo` wait for it.
  abbrev Holds : System W → List Call → List Call → Type 0
  Holds s done todo =
      AllCarry codec (sender g) (s.taken g) done
      × AllCarry codec (sender g) (bus.inbox g s.redis) todo

  -- Receiving at the gate itself: the first call that waits becomes one that is done.
  received-first :
      (s : System W) (m : Message) (rest : List Message) (done todo : List Call)
      → bus.inbox g s.redis ≡ m ∷ rest
      → AllCarry codec (sender g) (s.taken g) done
      → AllCarry codec (sender g) (m ∷ rest) todo
      → (done' todo' : List Call) × AllCarry codec (sender g) (s.taken g ++ m ∷ []) done'
        × AllCarry codec (sender g) (bus.inbox g (bus.receive g s.redis)) todo'
        × (done' ++ todo' ≡ done ++ todo)
  received-first s m rest done [] e k l = absurd l
  received-first s m rest done (c ∷ todo) e k (l, ls) = (
    done ++ c ∷ [],
    todo,
    AllCarry-append codec (sender g) (s.taken g) (m ∷ []) done (c ∷ []) k (l, tt),
    subst (λ ms. AllCarry codec (sender g) ms todo) (sym (bus.receive_self g s.redis m rest e)) ls,
    append_assoc done (c ∷ []) todo,
  )

  -- Receiving at some gate makes the first call that waits here one that is done, or changes nothing.
  received-Holds :
      (h : ℕ) (s : System W) (ms : List Message) (done todo : List Call)
      → bus.inbox h s.redis ≡ ms
      → Holds s done todo
      → (done' todo' : List Call) × Holds (took bus h ms s) done' todo'
        × (done' ++ todo' ≡ done ++ todo)
  received-Holds h s [] done todo e k = (done, todo, k, refl)
  received-Holds h s (m ∷ rest) done todo e (k, l) = elim (Bool-cases (g == h)) [
    | inl same ↦
        let here : h ≡ g = ground arith in
        let mine = subst (λ n. bus.inbox n s.redis ≡ m ∷ rest) here e in
        let (done', todo', k', l', whole) =
          received-first s m rest done todo mine k
            (subst (λ ms. AllCarry codec (sender g) ms todo) mine l) in
        (
          done',
          todo',
          (
            rw same k',
            subst (λ n. AllCarry codec (sender g) (bus.inbox g (bus.receive n s.redis)) todo')
                (sym here) l',
          ),
          whole,
        )
    | inr other ↦
        let apart : h ≢ g = ground arith in
        (
          done,
          todo,
          (
            rw other k,
            subst (λ ms. AllCarry codec (sender g) ms todo)
                (sym (bus.receive_other h g s.redis apart)) l,
          ),
          refl,
        )
  ]

  happen-Holds :
      (es : List Event) (s : System W) (done todo : List Call)
      → Holds s done todo
      → (calls done' todo' : List Call) × Promised
          (happen bus (push_publisher codec p) es s).0
          calls
        × Holds (happen bus (push_publisher codec p) es s).1 done' todo'
        × (done' ++ todo' ≡ done ++ (todo ++ calls))
  unfolding happen
  happen-Holds [] s done todo k =
      ([], done, todo, nothing, k, ap (λ cs. done ++ cs) (sym (append-nil todo)))
  happen-Holds (served req ∷ es) s done todo (k, l) =
      let (now, ms, answer, carry, arrived) =
        served-Arrives laws cfg redis client sender published subscribed bus g req s.redis in
      let s' : System W = record s { redis = (serve (push_publisher codec p) req s.redis).1 } in
      let l' =
        subst (λ ns. AllCarry codec (sender g) ns (todo ++ now)) (sym arrived)
          (AllCarry-append codec (sender g) (bus.inbox g s.redis) ms todo now l carry) in
      let (later, done', todo', promised, k', whole) =
        happen-Holds es s' done (todo ++ now) (k, l') in
      (
        now ++ later,
        done',
        todo',
        answered answer promised,
        k',
        whole ∙ ap (λ cs. done ++ cs) (append_assoc todo now later),
      )
  happen-Holds (received h ∷ es) s done todo k =
      let (done1, todo1, k1, whole1) = received-Holds h s (bus.inbox h s.redis) done todo refl k in
      let (calls, done', todo', promised, k', whole) =
        happen-Holds es (took bus h (bus.inbox h s.redis) s) done1 todo1 k1 in
      (
        calls,
        done',
        todo',
        promised,
        k',
        whole
            ∙ sym (append_assoc done1 todo1 calls)
            ∙ ap (λ cs. cs ++ calls) whole1
            ∙ append_assoc done todo calls,
      )

  -- With `CodecLaws`: the gates' publishers and subscribers are made from the same configuration, and
  -- Redis keeps the laws of `Bus`. From a state where a gate has received nothing and nothing waits
  -- for it, after any requests at any gates and any receiving at any gates, the calls that the replies
  -- promise, in the order of the requests, split in two: the loop of the gate has made exactly the
  -- first part, with the messages that it has received; it will make exactly the second part, with
  -- the messages that wait for it, of which there are as many.
  pub fanout :
      (es : List Event) (s : System W)
      → s.taken g ≡ []
      → bus.inbox g s.redis ≡ []
      → (calls done todo : List Call) × Promised (happen bus (push_publisher codec p) es s).0 calls
        × (done ++ todo ≡ calls)
        × ((v : V)
            → receive_loop codec
                (sender g)
                (map delivered ((happen bus (push_publisher codec p) es s).1.taken g))
                v
              ≡ (waiting, perform_all (sender g) done v))
        × ((v : V)
            → receive_loop codec
                (sender g)
                (map delivered (bus.inbox g (happen bus (push_publisher codec p) es s).1.redis))
                v
              ≡ (waiting, perform_all (sender g) todo v))
        × (length todo ≡ length (bus.inbox g (happen bus (push_publisher codec p) es s).1.redis))
  fanout es s none_taken none_waits =
      let carry = AllCarry codec (sender g) in
      let (calls, done, todo, promised, (k, l), whole) = happen-Holds es s [] [] (
        subst (λ ms. carry ms []) (sym none_taken) tt,
        subst (λ ms. carry ms []) (sym none_waits) tt,
      ) in
      (
        calls,
        done,
        todo,
        promised,
        whole,
        λ v. receive_loop-AllCarry codec (sender g) _ done v k,
        λ v. receive_loop-AllCarry codec (sender g) _ todo v l,
        length-AllCarry codec (sender g) _ todo l,
      )
