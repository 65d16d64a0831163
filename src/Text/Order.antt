-- ===== src/Text/Order.antt =====
-- The laws of `text_ltb` and of sorting texts.
use kim_gate.Prelude.{◌≡◌, refl, ap₂, Bool, true, false, ◌&&◌, ◌||◌, List, [], ◌∷◌, arith}
use kim_gate.Text.{Text, text_eq, text_ltb, elem, IsDistinct, insert, sort_slice}
use kim_gate.Text.Trim.{text_eq_iff, text_eq_refl}

pub text_ltb_irrefl : (s : Text) → text_ltb s s ≡ false
unfolding text_ltb
text_ltb_irrefl [] = refl
text_ltb_irrefl (a ∷ s) = ground (arith, text_ltb_irrefl s)

text_ltb_trans : (s t u : Text) → text_ltb s t ≡ true → text_ltb t u ≡ true → text_ltb s u ≡ true
unfolding text_ltb
text_ltb_trans [] [] u h k = cc
text_ltb_trans [] (b ∷ t) [] h k = cc
text_ltb_trans [] (b ∷ t) (c ∷ u) h k = refl
text_ltb_trans (a ∷ s) [] u h k = cc
text_ltb_trans (a ∷ s) (b ∷ t) [] h k = cc
text_ltb_trans (a ∷ s) (b ∷ t) (c ∷ u) h k = ground (arith, text_ltb_trans s t u)

-- Of two different texts one is below the other.
text_ltb_total : (s t : Text) → text_eq s t ≡ false → text_ltb s t ≡ false → text_ltb t s ≡ true
unfolding text_ltb text_eq
text_ltb_total [] [] h k = cc
text_ltb_total [] (b ∷ t) h k = cc
text_ltb_total (a ∷ s) [] h k = refl
text_ltb_total (a ∷ s) (b ∷ t) h k = ground (arith, text_ltb_total s t)

-- The text is below all of the list.
abbrev pub all_above : Text → List Text → Bool
all_above t [] = true
all_above t (s ∷ ss) = text_ltb t s && all_above t ss

-- The list ascends, and no text occurs twice.
abbrev pub ascending : List Text → Bool
ascending [] = true
ascending (t ∷ ts) = all_above t ts && ascending ts

all_above_trans :
    (s t : Text) (ts : List Text)
    → text_ltb s t ≡ true
    → all_above t ts ≡ true
    → all_above s ts ≡ true
all_above_trans s t [] h k = refl
all_above_trans s t (u ∷ ts) h k = ground (arith, text_ltb_trans s t u, all_above_trans s t ts)

all_above-insert :
    (s t : Text) (ts : List Text)
    → all_above s (insert text_ltb t ts) ≡ (text_ltb s t && all_above s ts)
unfolding insert
all_above-insert s t [] = refl
all_above-insert s t (u ∷ ts) = ground (arith, all_above-insert s t ts)

elem-insert :
    (s t : Text) (ts : List Text) → elem s (insert text_ltb t ts) ≡ (text_eq s t || elem s ts)
unfolding insert
elem-insert s t [] = refl
elem-insert s t (u ∷ ts) = ground (arith, elem-insert s t ts)

insert-ascending :
    (t : Text) (ts : List Text)
    → elem t ts ≡ false
    → ascending ts ≡ true
    → ascending (insert text_ltb t ts) ≡ true
unfolding insert
insert-ascending t [] h k = refl
insert-ascending t (u ∷ ts) h k = ground (
  arith,
  insert-ascending t ts,
  all_above-insert u t ts,
  text_ltb_total u t,
  all_above_trans t u ts,
  text_eq_iff t u,
  text_eq_iff u t,
)

pub elem-sort_slice : (s : Text) (ts : List Text) → elem s (sort_slice text_ltb ts) ≡ elem s ts
unfolding sort_slice
elem-sort_slice s [] = refl
elem-sort_slice s (t ∷ ts) =
    ground (arith, elem-insert s t (sort_slice text_ltb ts), elem-sort_slice s ts)

pub sort_slice-ascending :
    (ts : List Text) → IsDistinct ts → ascending (sort_slice text_ltb ts) ≡ true
unfolding sort_slice
sort_slice-ascending [] d = refl
sort_slice-ascending (t ∷ ts) (fresh, d) = ground (
  arith,
  sort_slice-ascending ts d,
  insert-ascending t (sort_slice text_ltb ts),
  elem-sort_slice t ts,
)

pub all_above-elem :
    (s t : Text) (ts : List Text) → all_above s ts ≡ true → elem t ts ≡ true → text_ltb s t ≡ true
all_above-elem s t [] h k = cc
all_above-elem s t (u ∷ ts) h k = ground (arith, all_above-elem s t ts, text_eq_iff t u)

heads_equal :
    (s t : Text) (ss ts : List Text)
    → all_above s ss ≡ true
    → all_above t ts ≡ true
    → ((u : Text) → elem u (s ∷ ss) ≡ elem u (t ∷ ts))
    → s ≡ t
heads_equal s t ss ts h k same = ground (
  arith,
  same s,
  same t,
  text_eq_refl s,
  text_eq_refl t,
  text_eq_iff s t,
  text_eq_iff t s,
  all_above-elem s t ss,
  all_above-elem t s ts,
  text_ltb_trans s t s,
  text_ltb_irrefl s,
)

tails_equal :
    (s : Text) (ss ts : List Text)
    → all_above s ss ≡ true
    → all_above s ts ≡ true
    → ((u : Text) → elem u (s ∷ ss) ≡ elem u (s ∷ ts))
    → (u : Text) → elem u ss ≡ elem u ts
tails_equal s ss ts h k same u = ground (
  arith,
  same u,
  text_eq_iff u s,
  all_above-elem s s ss,
  all_above-elem s s ts,
  text_ltb_irrefl s,
)

-- Two ascending lists of the same texts are one list.
pub ascending_unique :
    (ss ts : List Text)
    → ascending ss ≡ true
    → ascending ts ≡ true
    → ((u : Text) → elem u ss ≡ elem u ts)
    → ss ≡ ts
ascending_unique [] [] h k same = refl
ascending_unique [] (t ∷ ts) h k same = ground (arith, same t, text_eq_refl t)
ascending_unique (s ∷ ss) [] h k same = ground (arith, same s, text_eq_refl s)
ascending_unique (s ∷ ss) (t ∷ ts) h k same =
    let e : s ≡ t = heads_equal s t ss ts (ground arith) (ground arith) same in
    let k' : all_above s ts ≡ true = rw e (ground arith) in
    ap₂ ◌∷◌ e (
      ascending_unique ss ts (ground arith) (ground arith)
        (tails_equal s ss ts (ground arith) k' (λ u. rw (← e) at (same u))))
