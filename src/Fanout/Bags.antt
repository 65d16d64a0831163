-- ===== src/Fanout/Bags.antt =====
-- Lists without their order: some elements of a list, each at most as often as it is there.
use mathlib.Core.List.{Permᴰ}
use mathlib.Core.List.Permᴰ as Permᴰ
use kim_gate.Prelude.{
  ℕ, zero, suc, ◌≡◌, refl, sym, subst, List, [], ◌∷◌, ◌++◌, append_assoc, Sublistᴰ,
}
use kim_gate.Cluster.Publisher.{Codec, Message}
use kim_gate.Cluster.Subscriber.{SignalSender}
use kim_gate.Cluster.Dispatch.{Call}
use kim_gate.Fanout.Steps.{Carries, AllCarry, AllCarry-append}

-- A number of copies of a list, one behind the other.
abbrev pub copies : {A : Type 0} → ℕ → List A → List A
copies zero xs = []
copies (suc n) xs = xs ++ copies n xs

-- The first list, with some more, has the elements of the second in some order.
pub record IsPart {A : Type 0} (xs ys : List A) : Type 0 where
  pub more : List A
  pub order : Permᴰ (xs ++ more) ys

module _ {A : Type 0} where
  pub part_refl : (xs : List A) → IsPart xs xs
  part_refl xs = record { more = []; order = Permᴰ.append-nil xs }

  pub part_nil : (xs : List A) → IsPart [] xs
  part_nil xs = record { more = xs; order = Permᴰ.refl xs }

  pub part_trans : {xs ys zs : List A} → IsPart xs ys → IsPart ys zs → IsPart xs zs
  part_trans {xs} {ys} {zs} p q = record {
    more = p.more ++ q.more;
    order =
        subst (λ l. Permᴰ l zs) (append_assoc xs p.more q.more)
          (Permᴰ.trans (Permᴰ.append_right q.more p.order) q.order);
  }

  swap_front : (xs ys zs : List A) → Permᴰ (xs ++ (ys ++ zs)) (ys ++ (xs ++ zs))
  swap_front xs ys zs =
      subst (λ l. Permᴰ l (ys ++ (xs ++ zs))) (append_assoc xs ys zs)
        (subst (Permᴰ ((xs ++ ys) ++ zs)) (append_assoc ys xs zs)
          (Permᴰ.append_right zs (Permᴰ.append_comm xs ys)))

  pub part_append :
      {xs ys us vs : List A} → IsPart xs ys → IsPart us vs → IsPart (xs ++ us) (ys ++ vs)
  part_append {xs} {ys} {us} {vs} p q =
      let r = p.more in
      let s = q.more in
      let first = Permᴰ.append_right (us ++ s) p.order in
      record {
        more = r ++ s;
        order =
            subst (λ l. Permᴰ l (ys ++ vs)) (sym (append_assoc xs us (r ++ s)))
              (Permᴰ.trans (Permᴰ.append_left xs (swap_front us r s)) (
                subst (λ l. Permᴰ l (ys ++ vs)) (append_assoc xs r (us ++ s))
                  (Permᴰ.trans first (Permᴰ.append_left ys q.order))));
      }

  pub part_weaken : (xs ys zs : List A) → IsPart xs ys → IsPart xs (ys ++ zs)
  part_weaken xs ys zs p = record {
    more = p.more ++ zs;
    order =
        subst (λ l. Permᴰ l (ys ++ zs)) (append_assoc xs p.more zs) (Permᴰ.append_right zs p.order);
  }

  pub part_of_sublist : (xs ys : List A) → Sublistᴰ xs ys → IsPart xs ys
  part_of_sublist xs [] Sublistᴰ.slnil = part_refl []
  part_of_sublist xs (y ∷ ys) (Sublistᴰ.cons s) =
      let p = part_of_sublist xs ys s in
      record {
        more = y ∷ p.more;
        order = Permᴰ.trans (Permᴰ.middle y xs p.more) (Permᴰ.cons refl p.order);
      }
  part_of_sublist (x ∷ xs) (y ∷ ys) (Sublistᴰ.cons-cons e s) =
      let p = part_of_sublist xs ys s in record { more = p.more; order = Permᴰ.cons e p.order }

module _ (codec : Codec) {V : Type 0} (sender : SignalSender V) where
  AllCarry-perm :
      {ms ns : List Message} (cs : List Call)
      → Permᴰ ms ns
      → AllCarry codec sender ms cs
      → (ds : List Call) × AllCarry codec sender ns ds × Permᴰ ds cs
  AllCarry-perm [] Permᴰ.nil h = ([], tt, Permᴰ.nil)
  AllCarry-perm (c ∷ cs) Permᴰ.nil h = absurd h
  AllCarry-perm [] (Permᴰ.cons e p) h = absurd h
  AllCarry-perm (c ∷ cs) (Permᴰ.cons e p) (h, hs) =
      let (ds, k, q) = AllCarry-perm cs p hs in
      (c ∷ ds, (subst (λ m. Carries codec sender m c) e h, k), Permᴰ.cons refl q)
  AllCarry-perm [] (Permᴰ.swap e f) h = absurd h
  AllCarry-perm (c ∷ []) (Permᴰ.swap e f) h = absurd (h.1)
  AllCarry-perm (c ∷ d ∷ cs) (Permᴰ.swap e f) (h, hs) = (
    d ∷ c ∷ cs,
    (
      subst (λ m. Carries codec sender m d) f hs.0,
      (subst (λ m. Carries codec sender m c) e h, hs.1),
    ),
    Permᴰ.swap refl refl,
  )
  AllCarry-perm cs (Permᴰ.trans p q) h =
      let (ds, k, a) = AllCarry-perm cs p h in
      let (es, l, b) = AllCarry-perm ds q k in (es, l, Permᴰ.trans b a)

  AllCarry-split :
      (ms ns : List Message) (cs : List Call)
      → AllCarry codec sender (ms ++ ns) cs
      → (xs : List Call) × (bs : List Call) × (cs ≡ xs ++ bs) × AllCarry codec sender ms xs
  AllCarry-split [] ns cs h = ([], cs, refl, tt)
  AllCarry-split (m ∷ ms) ns [] h = absurd h
  AllCarry-split (m ∷ ms) ns (c ∷ cs) (h, hs) =
      let (xs, bs, e, k) = AllCarry-split ms ns cs hs in (c ∷ xs, bs, (λ i. c ∷ e i), (h, k))

  -- Of messages that carry calls, some carry some of the calls.
  pub AllCarry-part :
      {ms ns : List Message} (cs : List Call)
      → IsPart ns ms
      → AllCarry codec sender ms cs
      → (ds : List Call) × AllCarry codec sender ns ds × IsPart ds cs
  AllCarry-part {ms} {ns} cs p h =
      let (ds, k, q) = AllCarry-perm cs (Permᴰ.symm p.order) h in
      let (xs, bs, e, l) = AllCarry-split ns p.more ds k in
      (xs, l, record { more = bs; order = subst (λ d. Permᴰ d cs) e q })

  pub AllCarry-copies :
      (n : ℕ) (ms : List Message) (cs : List Call)
      → AllCarry codec sender ms cs
      → AllCarry codec sender (copies n ms) (copies n cs)
  AllCarry-copies zero ms cs h = tt
  AllCarry-copies (suc n) ms cs h =
      AllCarry-append codec sender ms (copies n ms) cs (copies n cs) h (AllCarry-copies n ms cs h)
