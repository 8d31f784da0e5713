-- ===== src/Cas.antt =====
-- cas.go: compare and swap, compare and delete, on a string and on a hash field. Each Lua script is
-- an action on the data set; a method is one round trip of its script. Arguments are the bytes that
-- go-redis sends for them. The client has a connection; the methods do not check that.
pub mod Effect
pub mod Atomicity
use xredis.Prelude.{
  ℕ, String, Bool, true, Option, none, some, [], ◌∷◌, ℤ, pos, pos_part, ltb_ℤ, eqb_ℤ, str_eq, ◌==◌,
  not, if◌then◌else◌,
}
use xredis.Exec.{Exec, pure, lift, ask, ◌>>=◌, ◌>>◌}
use xredis.Redis.{Redis, Ttl, no_ttl, px, keep_ttl}
use xredis.Time.{update_expiration_to_ms}
use xredis.Client.{World, round_trip}

-- `not current or current ~= expected`, where Lua has `false` for a nil reply
abbrev pub differs : Option String → String → Bool
differs none expected = true
differs (some current) expected = not (str_eq current expected)

-- The three ways in which the scripts set a value: PX, no expiration, KEEPTTL.
abbrev pub ttl_of : ℤ → Ttl
ttl_of expiration =
    if ltb_ℤ (pos 0) expiration
    then px (pos_part expiration)
    else if eqb_ℤ expiration (pos 0)
    then no_ttl
    else keep_ttl

module _ (r : Redis) where
  open r use {State, get, set, del, hget, hset, hdel}

  unfoldable pub compare_and_delete_script : String → String → Exec State ℕ
  compare_and_delete_script key expected = do
    current ← ask (λ s. get s key)
    if differs current expected then pure 0 else del key

  unfoldable pub compare_and_swap_script : String → String → String → ℤ → Exec State ℕ
  compare_and_swap_script key expected value expiration = do
    current ← ask (λ s. get s key)
    if differs current expected then pure 0 else do set key value (ttl_of expiration); pure 1

  unfoldable pub hash_compare_and_delete_script : String → String → String → Exec State ℕ
  hash_compare_and_delete_script key field expected = do
    current ← ask (λ s. hget s key field)
    if differs current expected then pure 0 else hdel key field

  unfoldable pub hash_compare_and_swap_script : String → String → String → String → Exec State ℕ
  hash_compare_and_swap_script key field expected value = do
    current ← ask (λ s. hget s key field)
    if differs current expected then pure 0 else do hset key ((field, value) ∷ []); pure 1

  unfoldable pub compare_and_delete : String → String → Exec (World State) Bool
  compare_and_delete key expected = do
    result ← round_trip (compare_and_delete_script key expected)
    pure (result == 1)

  unfoldable pub compare_and_swap : String → String → String → ℤ → Exec (World State) Bool
  compare_and_swap key expected value expiration = do
    exp ← lift (update_expiration_to_ms expiration)
    result ← round_trip (compare_and_swap_script key expected value exp)
    pure (result == 1)

  unfoldable pub h_compare_and_delete : String → String → String → Exec (World State) Bool
  h_compare_and_delete key field expected = do
    result ← round_trip (hash_compare_and_delete_script key field expected)
    pure (result == 1)

  unfoldable pub h_compare_and_swap : String → String → String → String → Exec (World State) Bool
  h_compare_and_swap key field expected value = do
    result ← round_trip (hash_compare_and_swap_script key field expected value)
    pure (result == 1)
