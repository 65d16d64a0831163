-- ===== src/Data/Keyspace.antt =====
-- All route hashes at once: what each command of the store leaves of every other key, and the effect
-- of the store's operations on the route of any user and any connection.
use kim_gate.Prelude.{
  ℕ, ◌≡◌, ◌≢◌, refl, true, not, ◌&&◌, ◌||◌, Option, none, some, List, [], ◌∷◌, arith, if◌then◌else◌,
  length, Bool-cases, inl, inr, ◌∙◌, sym, subst,
}
use kim_gate.Prelude.Int.{ℤ, pos, ◌≤ℤ◌}
use kim_gate.Effect.{Result, ok, err, resume}
use kim_gate.Text.{lookup, keys, Text, is_empty, trim_space, text_eq, IsDistinct}
use kim_gate.Text.Trim.{text_eq_iff, text_eq_refl}
use kim_gate.Time.{whole_seconds}
use kim_gate.Data.Commands.{
  RedisCommands, RegisterArgs, register_connection_script, poll_expired_users_script, remove_first,
  limit_of,
}
use kim_gate.Data.UserRoute.{
  UserRouteStore, redis_user_route_client, user_route_key, bucket_of, register_script_args,
  refresh_connection, remove_connection,
}
use kim_gate.Data.Keys.{user_route_key-injective}
use kim_gate.Data.Registration.{HashLaws}
use kim_gate.Data.Routes.{refresh_connection-script, remove_connection-hdel}

-- What Redis documents of keys: a command changes only the key that it names, a command on a sorted
-- set changes no hash, and no two fields of a hash are equal.
pub record KeyspaceLaws {W : Type 0} {redis : RedisCommands W} (laws : HashLaws redis)
    : Type 0 where
  pub distinct : (key : Text) (w : W) → IsDistinct (keys (laws.hash w key))
  pub hsetex_other :
      (key : Text) (ttl : ℤ) (f v other : Text) (w : W)
      → key ≢ other
      → laws.hash (redis.hsetex key ttl f v w).1 other ≡ laws.hash w other
  pub hdel_other :
      (key f other : Text) (w : W)
      → key ≢ other
      → laws.hash (redis.hdel key f w).1 other ≡ laws.hash w other
  pub zrange_hash :
      (key : Text) (max : ℤ) (limit : Option ℕ) (other : Text) (w : W)
      → laws.hash (redis.zrange_by_score key max limit w).1 other ≡ laws.hash w other
  pub zrem_hash :
      (key : Text) (start stop : ℕ) (other : Text) (w : W)
      → laws.hash (redis.zrem_range_by_rank key start stop w).1 other ≡ laws.hash w other

module _ {W : Type 0} {redis : RedisCommands W} {laws : HashLaws redis}
    (space : KeyspaceLaws laws) where
  -- The two laws of a command on a hash, in one.
  at_key :
      (key : Text) (f g : Text) (v : Option Text) (h h' : Text → List (Text × Text))
      → lookup g (h' key) ≡ (if text_eq f g then v else lookup g (h key))
      → ((k : Text) → key ≢ k → h' k ≡ h k)
      → (k : Text) → lookup g (h' k) ≡ (if text_eq key k && text_eq f g then v else lookup g (h k))
  at_key key f g v h h' same other k = elim (Bool-cases (text_eq key k)) [
    | inl here ↦
        subst
          (λ k'. lookup g (h' k') ≡ (if text_eq key k' && text_eq f g then v else lookup g (h k')))
          ((text_eq_iff key k).0 here) (rw (text_eq_refl key) same)
    | inr away ↦ rw (away, other k (λ e. cc (sym (rw e at away) ∙ text_eq_refl k))) refl
  ]

  lookup-script :
      (a : RegisterArgs) (k g : Text) (w : W)
      → pos 1 ≤ℤ a.ttl_seconds
      → lookup g (laws.hash (register_connection_script redis a w).1 k) ≡ (
          if text_eq a.route_key k && text_eq a.connection_id g
          then some a.server_id
          else lookup g (laws.hash w k))
  unfolding register_connection_script
  lookup-script a k g w h =
      let set = redis.hsetex a.route_key a.ttl_seconds a.connection_id a.server_id in
      rw
        (
          laws.hsetex_result a.route_key a.ttl_seconds a.connection_id a.server_id w h,
          laws.zadd a.expire_key a.expire_score a.user_id k (set w).1,
        )
        (at_key a.route_key a.connection_id g (some a.server_id) (laws.hash w) (laws.hash (set w).1)
          (laws.hsetex a.route_key a.ttl_seconds a.connection_id a.server_id g w h)
          (λ k. space.hsetex_other a.route_key a.ttl_seconds a.connection_id a.server_id k w) k)

  hash-remove_first :
      (key : Text) (users : List Text) (other : Text) (w : W)
      → laws.hash (remove_first redis key users w).1 other ≡ laws.hash w other
  hash-remove_first key [] other w = refl
  hash-remove_first key (u ∷ users) other w =
      ground (arith, space.zrem_hash key 0 (length users) other w)

  -- Polling leaves every hash alone.
  pub hash-poll :
      (key : Text) (limit max : ℤ) (other : Text) (w : W)
      → laws.hash (poll_expired_users_script redis key limit max w).1 other ≡ laws.hash w other
  unfolding poll_expired_users_script
  hash-poll key limit max other w = go (redis.zrange_by_score key max (limit_of limit) w).0
    where
      go :
          (r : Result (List Text))
          → laws.hash
              (resume r
                (remove_first redis key)
                (redis.zrange_by_score key max (limit_of limit) w).1).1
              other
            ≡ laws.hash w other
      go (err e) = space.zrange_hash key max (limit_of limit) other w
      go (ok users) =
          hash-remove_first key users other (redis.zrange_by_score key max (limit_of limit) w).1
          ∙ space.zrange_hash key max (limit_of limit) other w

-- What a change of one route leaves: nothing changes if an id is blank.
abbrev pub set_route :
    Text → Text → Option Text → (Text → Text → Option Text) → Text → Text → Option Text
set_route user_id connection_id server_id routes user connection =
    if not (is_empty (trim_space user_id))
      && not (is_empty (trim_space connection_id))
      && text_eq (trim_space user_id) user
      && text_eq (trim_space connection_id) connection
    then server_id
    else routes user connection

module _ (sum64 : Text → ℕ) where
  -- The key of the hash of a user, whose id is trimmed already.
  abbrev pub key_of : Text → Text
  key_of user = user_route_key (bucket_of sum64 user) user

  text_eq-key_of : (u u' : Text) → text_eq (key_of u) (key_of u') ≡ text_eq u u'
  text_eq-key_of u u' = ground (
    arith,
    text_eq_iff (key_of u) (key_of u'),
    text_eq_iff u u',
    user_route_key-injective (bucket_of sum64 u) (bucket_of sum64 u') u u',
  )

  -- The route of a connection of a user, under the ids as they are stored.
  abbrev pub present :
      {W : Type 0} {redis : RedisCommands W} → HashLaws redis → W → Text → Text → Option Text
  present laws w user connection = lookup connection (laws.hash w (key_of user))

  -- Deleting a field, as `HDEL` does, or Redis itself when the field's time is over.
  pub present-hdel :
      {W : Type 0} {redis : RedisCommands W} {laws : HashLaws redis} (space : KeyspaceLaws laws)
      (user connection : Text) (w : W) (u c : Text)
      → present laws (redis.hdel (key_of user) connection w).1 u c
        ≡ (if text_eq user u && text_eq connection c then none else present laws w u c)
  present-hdel {redis} {laws} space user connection w u c = rw (text_eq-key_of user u) at (
      at_key space (key_of user) connection c none (laws.hash w)
        (laws.hash (redis.hdel (key_of user) connection w).1)
        (laws.hdel (key_of user) connection c w)
        (λ k. space.hdel_other (key_of user) connection k w) (key_of u))

  module _ {W : Type 0} {redis : RedisCommands W} {laws : HashLaws redis}
      (space : KeyspaceLaws laws) (s : UserRouteStore W)
      (client : s.redis ≡ redis_user_route_client redis) where
    blank_ids :
        (user_id connection_id : Text) (w : W)
        → (is_empty (trim_space user_id) || is_empty (trim_space connection_id)) ≡ true
        → ((refresh_connection sum64 s user_id connection_id w).1 ≡ w)
          × ((remove_connection sum64 s user_id connection_id w).1 ≡ w)
    unfolding refresh_connection remove_connection
    blank_ids user_id connection_id w h = ground arith

    pub present-refresh_connection :
        (user_id connection_id : Text) (w : W) (u c : Text)
        → pos 1 ≤ℤ whole_seconds s.route_ttl
        → present laws (refresh_connection sum64 s user_id connection_id w).1 u c
          ≡ set_route user_id connection_id (some s.server_id) (present laws w) u c
    unfolding register_script_args
    present-refresh_connection user_id connection_id w u c ttl =
        elim (Bool-cases (is_empty (trim_space user_id))) [
          | inl hu ↦ rw (hu, (blank_ids user_id connection_id w (rw hu refl)).0) refl
          | inr hu ↦ elim (Bool-cases (is_empty (trim_space connection_id))) [
            | inl hc ↦ rw (hu, hc, (blank_ids user_id connection_id w (rw (hu, hc) refl)).0) refl
            | inr hc ↦
                let script =
                  lookup-script space
                    (register_script_args sum64 s (trim_space user_id) (trim_space connection_id) w)
                    (key_of u) c w ttl in
                rw
                  (
                    hu,
                    hc,
                    refresh_connection-script sum64 laws s client user_id connection_id w hu hc ttl,
                  )
                  (rw (text_eq-key_of (trim_space user_id) u) at script)
          ]
        ]

    pub present-remove_connection :
        (user_id connection_id : Text) (w : W) (u c : Text)
        → present laws (remove_connection sum64 s user_id connection_id w).1 u c
          ≡ set_route user_id connection_id none (present laws w) u c
    present-remove_connection user_id connection_id w u c =
        elim (Bool-cases (is_empty (trim_space user_id))) [
          | inl hu ↦ rw (hu, (blank_ids user_id connection_id w (rw hu refl)).1) refl
          | inr hu ↦ elim (Bool-cases (is_empty (trim_space connection_id))) [
            | inl hc ↦ rw (hu, hc, (blank_ids user_id connection_id w (rw (hu, hc) refl)).1) refl
            | inr hc ↦
                rw
                  (hu, hc, remove_connection-hdel sum64 laws s client user_id connection_id w hu hc)
                  (present-hdel space (trim_space user_id) (trim_space connection_id) w u c)
          ]
        ]
