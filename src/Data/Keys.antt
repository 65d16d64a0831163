-- ===== src/Data/Keys.antt =====
-- Proofs on the Redis keys and the buckets of internal/data/user_route.go.
use kim_gate.Prelude.{ℕ, ◌≡◌, ◌<◌, refl, ap, [], ◌∷◌, ◌++◌, arith, All, drop}
use kim_gate.Text.{Text, trim_space, decimal}
use kim_gate.Text.Decimal.{IsDigit, decimal-IsDigit, decimal-injective}
use kim_gate.Text.Trim.{trim_space_idem}
use kim_gate.Data.UserRoute.{user_route_bucket_count, user_route_key, user_expire_key, bucket_of}

-- Every user has a bucket below 16, the same whatever blanks surround the id.
pub bucket_of_lem :
    (sum64 : Text → ℕ) (user_id : Text)
    → (bucket_of sum64 user_id < user_route_bucket_count)
      × (bucket_of sum64 (trim_space user_id) ≡ bucket_of sum64 user_id)
unfolding bucket_of
bucket_of_lem sum64 user_id = (omega arith, rw trim_space_idem)

-- Two texts of digits, each before a character that is none, are equal if the whole texts are.
digits_end :
    (c : ℕ) (s s' u u' : Text)
    → c ≡ b'}'
    → All IsDigit s
    → All IsDigit s'
    → s ++ c ∷ u ≡ s' ++ c ∷ u'
    → (s ≡ s') × (u ≡ u')
digits_end c [] [] u u' nd h h' e = ground arith
digits_end c [] (d ∷ s') u u' nd h h' e = absurd (ground arith)
digits_end c (d ∷ s) [] u u' nd h h' e = absurd (ground arith)
digits_end c (d ∷ s) (d' ∷ s') u u' nd h h' e = ground (arith, digits_end c s s' u u')

-- A route key is the key of one bucket and one user: different users never share a hash.
pub user_route_key-injective :
    (bucket bucket' : ℕ) (user_id user_id' : Text)
    → user_route_key bucket user_id ≡ user_route_key bucket' user_id'
    → (bucket ≡ bucket') × (user_id ≡ user_id')
unfolding user_route_key
user_route_key-injective bucket bucket' user_id user_id' e =
    let (digits_eq, rest) =
      digits_end b'}' (decimal bucket) (decimal bucket') (b':' ∷ user_id) (b':' ∷ user_id') refl
        (decimal-IsDigit bucket) (decimal-IsDigit bucket') (ap (drop 24) e) in
    (decimal-injective bucket bucket' digits_eq, ap (drop 1) rest)

pub user_expire_key-injective :
    (bucket bucket' : ℕ) → user_expire_key bucket ≡ user_expire_key bucket' → bucket ≡ bucket'
unfolding user_expire_key
user_expire_key-injective bucket bucket' e =
    let (digits_eq, _) =
      digits_end b'}' (decimal bucket) (decimal bucket') [] [] refl (decimal-IsDigit bucket)
        (decimal-IsDigit bucket') (ap (drop 25) e) in
    decimal-injective bucket bucket' digits_eq
