-- ===== src/Redis/More.antt =====
-- The commands that only commands.go sends: one more parameter, with the documented replies and
-- effects as laws, stated as in Redis.antt.
use xredis.Prelude.{
  ℕ, ◌+◌, ◌*◌, ◌<◌, ◌==◌, ◌&&◌, ◌≡◌, Bool, String, Option, none, some, List, ℤ, str_eq,
  if◌then◌else◌,
}
use xredis.Exec.{Result, Exec}
use xredis.Redis.{
  Redis, str, Ttl, IsPositive, get_reply, hget_reply, count_reply, field_count, fields_of, ok_map,
  or_keep, ttl_deadline, with_deadline,
}

pub record MoreCommands (r : Redis) : Type 0 where
  -- HEXISTS, HINCRBY, HGETALL, HDEL with many fields, DECR, and EXPIRE in seconds
  pub h_exists : r.State → String → String → Result Bool
  pub h_exists_lem :
      (s : r.State) (k f : String)
      → h_exists s k f ≡ ok_map (λ v. field_count v == 1) (hget_reply f (r.lookup s k))
  pub h_incr_by : String → String → ℤ → Exec r.State ℤ
  pub h_get_all : r.State → String → Result (List (String × String))
  pub h_get_all_lem : (s : r.State) (k : String) → h_get_all s k ≡ fields_of (r.lookup s k)
  pub h_del_many : String → List String → Exec r.State ℕ
  pub decr : String → Exec r.State ℤ
  pub expire : String → ℕ → Exec r.State ℕ
  pub expire_lem :
      (k : String) (n : ℕ) (s : r.State)
      → 0 < n
      → (expire k n s).0 ≡ Result.ok (count_reply (r.lookup s k))
  pub lookup-expire :
      (k : String) (n : ℕ) (s : r.State) (j : String)
      → 0 < n
      → r.lookup (expire k n s).1 j ≡ (
          if str_eq k j
          then with_deadline (some (r.clock s + n * 1000)) (r.lookup s k)
          else r.lookup s j)
  -- How go-redis renders the positive duration of an EXPIRE.
  pub seconds : ℤ → ℕ
  pub seconds_pos : (n : ℕ) → 0 < seconds (ℤ.pos (ℕ.suc n))
  -- GETDEL
  pub get_del : String → Exec r.State (Option String)
  pub get_del_lem : (k : String) (s : r.State) → (get_del k s).0 ≡ get_reply (r.lookup s k)
  pub lookup-get_del :
      (k : String) (s : r.State) (j : String)
      → r.lookup (get_del k s).1 j ≡ (
          if str_eq k j
          then or_keep (λ v. none) (get_reply (r.lookup s k)) (r.lookup s k)
          else r.lookup s j)
  -- GETEX with PX, or with PERSIST for `no_ttl`
  pub get_ex : String → Ttl → Exec r.State (Option String)
  pub get_ex_lem :
      (k : String) (t : Ttl) (s : r.State)
      → IsPositive t
      → (get_ex k t s).0 ≡ get_reply (r.lookup s k)
  pub lookup-get_ex :
      (k : String) (t : Ttl) (s : r.State) (j : String)
      → IsPositive t
      → r.lookup (get_ex k t s).1 j ≡ (
          if str_eq k j
          then or_keep
              (λ v. with_deadline (ttl_deadline t (r.clock s) none) (r.lookup s k))
              (get_reply (r.lookup s k))
              (r.lookup s k)
          else r.lookup s j)
  -- SET with XX: only a key that is there is set
  pub set_xx : String → String → Ttl → Exec r.State Bool
  pub set_xx_lem :
      (k v : String) (t : Ttl) (s : r.State)
      → IsPositive t
      → (set_xx k v t s).0 ≡ Result.ok (count_reply (r.lookup s k) == 1)
  pub lookup-set_xx :
      (k v : String) (t : Ttl) (s : r.State) (j : String)
      → IsPositive t
      → r.lookup (set_xx k v t s).1 j ≡ (
          if (count_reply (r.lookup s k) == 1) && str_eq k j
          then some (record { value = str v; deadline = ttl_deadline t (r.clock s) (r.lookup s k) })
          else r.lookup s j)
