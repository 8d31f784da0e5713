-- ===== src/Redis.antt =====
-- The Redis server, which is not part of the repository: a parameter of the development, with the
-- documented behaviour of each command as a named law. `State` is the data set that commands see:
-- a key whose time is up is not in it, and a read leaves it as it was. A law speaks of the reply,
-- of the entry that every key holds afterwards, and of the clock, which a command does not move.
mod Data
pub mod Fields
pub mod More
pub mod Number
unfoldable pub use Data.*
use xredis.Prelude.{
  ℕ, suc, ◌+◌, ◌&&◌, ◌==◌, Bool, pos, negsuc, ◌<◌, ◌≤◌, ◌≡◌, ◌⊎◌, String, Option, none, some, List,
  ℤ, str_eq, length, if◌then◌else◌,
}
use xredis.Errors.{Error}
use xredis.Exec.{Result, ok, err, Exec}
use xredis.Redis.Number.{LuaNumber, largest}

pub record Redis : Type 1 where
  pub State : Type 0
  pub clock : State → ℕ
  pub lookup : State → String → Option Entry
  -- 64-bit integers as text: the server's and Go's decimal form.
  pub show_int : ℤ → String
  pub read_int : String → Option ℤ
  pub read_int-show_int : (n : ℤ) → read_int (show_int n) ≡ some n
  -- The numbers of scripts. Their `tonumber` reads other texts too, and an integer is rounded.
  pub lua : LuaNumber
  pub tonumber-read_int :
      (v : String) (n : ℤ) → read_int v ≡ some n → lua.tonumber v ≡ some (lua.int n)
  -- Lua's `tonumber` of a text that is taken as a time. A time of the server in milliseconds is
  -- far below 2 ^ 53, and is read as it was written.
  pub read_time : String → Option ℤ
  pub read_time-show_int :
      (s : State) (u : ℕ) → u ≤ clock s → read_time (show_int (pos u)) ≡ some (pos u)
  -- GET, EXISTS, PTTL, HGET, HMGET, ZCARD and ZRANGE key 0 0 WITHSCORES.
  pub get : State → String → Result (Option String)
  pub exists : State → String → ℕ
  pub pttl : State → String → ℤ
  pub hget : State → String → String → Result (Option String)
  pub hmget : State → String → List String → Result (List Any)
  pub zrange : State → String → Result (List (ℤ × String))
  pub get_lem : (s : State) (k : String) → get s k ≡ get_reply (lookup s k)
  pub exists_lem : (s : State) (k : String) → exists s k ≡ count_reply (lookup s k)
  pub pttl_lem : (s : State) (k : String) → pttl s k ≡ pttl_reply (clock s) (lookup s k)
  pub hget_lem : (s : State) (k f : String) → hget s k f ≡ hget_reply f (lookup s k)
  pub hmget_lem :
      (s : State) (k : String) (fs : List String) → hmget s k fs ≡ hmget_reply fs (lookup s k)
  pub zrange_lem : (s : State) (k : String) → zrange s k ≡ members_of (lookup s k)
  -- SET key value [PX ms | KEEPTTL]
  pub set : String → String → Ttl → Exec State (Unit {0})
  pub set_lem : (k v : String) (t : Ttl) (s : State) → IsPositive t → (set k v t s).0 ≡ ok tt
  pub lookup-set :
      (k v : String) (t : Ttl) (s : State) (j : String)
      → IsPositive t
      → lookup (set k v t s).1 j ≡ (
          if str_eq k j
          then some (record { value = str v; deadline = ttl_deadline t (clock s) (lookup s k) })
          else lookup s j)
  pub clock-set : (k v : String) (t : Ttl) (s : State) → clock (set k v t s).1 ≡ clock s
  -- How go-redis renders the expiration of SET and SETNX: zero is none, -1 is KEEPTTL, and a
  -- positive duration is a positive number of milliseconds.
  pub ttl_arg : ℤ → Ttl
  pub ttl_arg_zero : ttl_arg (pos 0) ≡ no_ttl
  pub ttl_arg_keep : ttl_arg (negsuc 0) ≡ keep_ttl
  pub ttl_arg_pos : (n : ℕ) → (m : ℕ) × (ttl_arg (pos (suc n)) ≡ px (suc m))
  -- SET key value NX, with an expiration: only a missing key is set
  pub set_nx : String → String → Ttl → Exec State Bool
  pub set_nx_lem :
      (k v : String) (t : Ttl) (s : State)
      → IsPositive t
      → (set_nx k v t s).0 ≡ ok (count_reply (lookup s k) == 0)
  pub lookup-set_nx :
      (k v : String) (t : Ttl) (s : State) (j : String)
      → IsPositive t
      → lookup (set_nx k v t s).1 j ≡ (
          if (count_reply (lookup s k) == 0) && str_eq k j
          then some (record { value = str v; deadline = ttl_deadline t (clock s) none })
          else lookup s j)
  -- DEL key
  pub del : String → Exec State ℕ
  pub del_lem : (k : String) (s : State) → (del k s).0 ≡ ok (count_reply (lookup s k))
  pub lookup-del :
      (k : String) (s : State) (j : String)
      → lookup (del k s).1 j ≡ (if str_eq k j then none else lookup s j)
  pub clock-del : (k : String) (s : State) → clock (del k s).1 ≡ clock s
  -- PEXPIRE key ms, for a positive time
  pub pexpire : String → ℕ → Exec State ℕ
  pub pexpire_lem :
      (k : String) (ms : ℕ) (s : State)
      → 0 < ms
      → (pexpire k ms s).0 ≡ ok (count_reply (lookup s k))
  pub lookup-pexpire :
      (k : String) (ms : ℕ) (s : State) (j : String)
      → 0 < ms
      → lookup (pexpire k ms s).1 j
        ≡ (if str_eq k j then with_deadline (some (clock s + ms)) (lookup s k) else lookup s j)
  pub clock-pexpire : (k : String) (ms : ℕ) (s : State) → clock (pexpire k ms s).1 ≡ clock s
  -- PEXPIRE key n, for a number of Lua's that is whole: the server refuses a text that is not that
  -- of an int64, and one that leads past the largest time.
  pub pexpire_number : String → ℤ → Exec State ℕ
  pub pexpire_number-cases :
      (k : String) (n : ℕ) (s : State)
      → 0 < n
      → (pexpire_number k (pos n) s ≡ pexpire k n s)
        ⊎ ((e : Error) × (pexpire_number k (pos n) s ≡ (err e, s)))
  pub pexpire_number_lem :
      (k : String) (n : ℕ) (s : State)
      → 0 < n
      → n ≤ largest
      → pexpire_number k (pos n) s ≡ pexpire k n s
  -- PERSIST key
  pub persist : String → Exec State ℕ
  pub lookup-persist :
      (k : String) (s : State) (j : String)
      → lookup (persist k s).1 j
        ≡ (if str_eq k j then with_deadline none (lookup s k) else lookup s j)
  pub persist-IsOk : (k : String) (s : State) → (n : ℕ) × ((persist k s).0 ≡ ok n)
  -- INCR key
  pub incr : String → Exec State ℤ
  pub incr_lem : (k : String) (s : State) → (incr k s).0 ≡ incr_int (int_of read_int (lookup s k))
  pub lookup-incr :
      (k : String) (s : State) (j : String)
      → lookup (incr k s).1 j ≡ (
          if str_eq k j
          then or_keep
              (str_entry show_int (lookup s k))
              (incr_int (int_of read_int (lookup s k)))
              (lookup s k)
          else lookup s j)
  pub clock-incr : (k : String) (s : State) → clock (incr k s).1 ≡ clock s
  -- HSET key field value …
  pub hset : String → List (String × String) → Exec State ℕ
  pub hset_lem :
      (k : String) (new : List (String × String)) (s : State)
      → (hset k new s).0 ≡ ok_map (count_new new) (fields_of (lookup s k))
  pub lookup-hset :
      (k : String) (new : List (String × String)) (s : State) (j : String)
      → lookup (hset k new s).1 j ≡ (
          if str_eq k j
          then or_keep
              (λ fs. entry_of_fields (put_fields new fs) (deadline_of (lookup s k)))
              (fields_of (lookup s k))
              (lookup s k)
          else lookup s j)
  pub clock-hset :
      (k : String) (new : List (String × String)) (s : State) → clock (hset k new s).1 ≡ clock s
  -- HDEL key field
  pub hdel : String → String → Exec State ℕ
  pub hdel_lem :
      (k f : String) (s : State)
      → (hdel k f s).0 ≡ ok_map (λ fs. field_count (get_field f fs)) (fields_of (lookup s k))
  pub lookup-hdel :
      (k f : String) (s : State) (j : String)
      → lookup (hdel k f s).1 j ≡ (
          if str_eq k j
          then or_keep
              (λ fs. entry_of_fields (remove_field f fs) (deadline_of (lookup s k)))
              (fields_of (lookup s k))
              (lookup s k)
          else lookup s j)
  -- ZREMRANGEBYSCORE key -inf max
  pub zremrangebyscore : String → ℤ → Exec State ℕ
  pub zremrangebyscore_lem :
      (k : String) (max : ℤ) (s : State)
      → (ms : List (ℤ × String)) → members_of (lookup s k) ≡ ok ms
      → (n : ℕ) × ((zremrangebyscore k max s).0 ≡ ok n)
  pub lookup-zremrangebyscore :
      (k : String) (max : ℤ) (s : State) (j : String)
      → lookup (zremrangebyscore k max s).1 j ≡ (
          if str_eq k j
          then or_keep
              (λ ms. entry_of_members (drop_upto max ms) (deadline_of (lookup s k)))
              (members_of (lookup s k))
              (lookup s k)
          else lookup s j)
  pub clock-zremrangebyscore :
      (k : String) (max : ℤ) (s : State) → clock (zremrangebyscore k max s).1 ≡ clock s
  -- ZADD key score member
  pub zadd : String → ℤ → String → Exec State ℕ
  pub zadd_lem :
      (k : String) (n : ℤ) (m : String) (s : State)
      → (ms : List (ℤ × String)) → members_of (lookup s k) ≡ ok ms
      → (c : ℕ) × ((zadd k n m s).0 ≡ ok c)
  pub lookup-zadd :
      (k : String) (n : ℤ) (m : String) (s : State) (j : String)
      → lookup (zadd k n m s).1 j ≡ (
          if str_eq k j
          then or_keep
              (λ ms. entry_of_members (put_member n m ms) (deadline_of (lookup s k)))
              (members_of (lookup s k))
              (lookup s k)
          else lookup s j)
  pub clock-zadd : (k : String) (n : ℤ) (m : String) (s : State) → clock (zadd k n m s).1 ≡ clock s
