-- ===== src/Commands.antt =====
-- commands.go: single commands, with Go's reading of their replies. go-redis reports a missing key
-- as the error rdb.Nil, which the methods turn into ok=false, here `none`. What strconv and go-redis
-- make of a string is a parameter. The client is connected.
pub mod Values
use xredis.Prelude.{
  ℕ, String, Bool, Option, none, some, List, [], ◌∷◌, ℤ, pos, ltb_ℤ, eqb_ℤ, ◌==◌, if◌then◌else◌,
}
use xredis.Errors.{Error, errors_is, redis_nil, invalid_ttl, invalid_hash_object}
use xredis.Exec.{Exec, Result, ok, err, fail, pure, lift, ask, ◌>>=◌, ◌>>◌}
use xredis.Redis.{Redis}
use xredis.Redis.More.{MoreCommands}
use xredis.Codec.{Codec, Native}
use xredis.Client.{World, round_trip}
use xredis.Pipeline.{is_none}

-- strconv, as the typed replies of go-redis use it
pub record Parsers (Float : Type 0) : Type 0 where
  pub parse_bool : String → Result Bool
  pub parse_float64 : String → Result Float
  pub parse_int : String → Result ℤ
  pub parse_int64 : String → Result ℤ
  pub parse_uint64 : String → Result ℕ

-- a []byte or a string: written and read as it is
abbrev pub plain : Native String
plain = record { write = λ s. s; scan = λ s. ok s }

module _ {A : Type 0} where
  abbrev pub present : (String → Result A) → Option String → Result A
  present decode none = fail redis_nil
  present decode (some s) = decode s

  -- `if errors.Is(err, rdb.Nil)`
  abbrev pub missing_ok : Result A → Result (Option A)
  missing_ok (ok v) = ok (some v)
  missing_ok (err e) = if errors_is e redis_nil then ok none else err e

  abbrev pub unmarshalled : Codec A → Option String → Result (Option A)
  unmarshalled codec none = ok none
  unmarshalled codec (some stored) = elim (codec.unmarshal stored) [
    | ok v ↦ ok (some v)
    | err e ↦ err e
  ]

  module _ {S : Type 0} where
    abbrev pub read_reply : (String → Result A) → Exec S (Option String) → Exec (World S) (Option A)
    read_reply decode command w =
        let q = (do reply ← round_trip command; lift (present decode reply)) w in
        (missing_ok q.0, q.1)

module _ {S : Type 0} where
  -- MULTI, two commands, EXEC: both are run, also when the first one fails; the first error counts.
  abbrev pub both : {A B : Type 0} → Exec S A → Exec S B → Exec S (Unit {0})
  both first second s =
      let p = first s in
      let q = second p.1 in
      (elim p.0 [ err e ↦ err e | ok a ↦ elim q.0 [ err e ↦ err e | ok b ↦ ok tt ] ], q.1)

  -- `if ttl < 0 { return ErrInvalidTTL }`
  abbrev pub with_ttl : {A : Type 0} → ℤ → Exec (World S) A → Exec (World S) A
  with_ttl ttl body = if ltb_ℤ ttl (pos 0) then lift (fail invalid_ttl) else body

  abbrev pub done : {A : Type 0} → Exec (World S) A → Exec (World S) (Unit {0})
  done m = do a ← m; pure tt

module _ (r : Redis) (x : MoreCommands r) where
  open r use {State, ttl_arg}

  unfoldable pub exists : String → Exec (World State) Bool
  exists key = do count ← round_trip (ask (λ s. ok (r.exists s key))); pure (count == 1)

  unfoldable pub h_exists : String → String → Exec (World State) Bool
  h_exists key field = round_trip (ask (λ s. x.h_exists s key field))

  unfoldable pub h_incr_by : String → String → ℤ → Exec (World State) ℤ
  h_incr_by key field amount = round_trip (x.h_incr_by key field amount)

  -- `dst` is how the reply is scanned into the destination, if that is not nil
  abbrev pub scanned :
      {A : Type 0}
      → (List (String × String) → Result A)
      → List (String × String)
      → Result (Option A)
  scanned dst fields =
      if is_none fields then ok none else elim (dst fields) [ ok v ↦ ok (some v) | err e ↦ err e ]

  unfoldable pub h_get_all :
      {A : Type 0}
      → String
      → Option (List (String × String) → Result A)
      → Exec (World State) (Option A)
  h_get_all key none = lift (fail invalid_hash_object)
  h_get_all key (some dst) = do
    fields ← round_trip (ask (λ s. x.h_get_all s key))
    lift (scanned dst fields)

  unfoldable pub h_get : String → String → Exec (World State) (Option String)
  h_get key field = read_reply (λ v. ok v) (ask (λ s. r.hget s key field))

  -- `flatten` is how go-redis makes pairs of its arguments
  unfoldable pub h_set :
      {V : Type 0}
      → (List V → List (String × String))
      → String
      → ℤ
      → List V
      → Exec (World State) (Unit {0})
  h_set flatten key ttl values = with_ttl ttl (
      if is_none values
      then lift (fail invalid_hash_object)
      else if eqb_ℤ ttl (pos 0)
      then done (round_trip (r.hset key (flatten values)))
      else round_trip (both (r.hset key (flatten values)) (x.expire key (x.seconds ttl))))

  unfoldable pub h_del : String → List String → Exec (World State) ℕ
  h_del key fields = round_trip (x.h_del_many key fields)

  unfoldable pub get : {A : Type 0} → Native A → String → Exec (World State) (Option A)
  get native key = read_reply native.scan (ask (λ s. r.get s key))

  unfoldable pub get_del : String → Exec (World State) (Option String)
  get_del key = read_reply (λ v. ok v) (x.get_del key)

  unfoldable pub get_ex : String → ℤ → Exec (World State) (Option String)
  get_ex key ttl = with_ttl ttl (read_reply (λ v. ok v) (x.get_ex key (ttl_arg ttl)))

  module _ {A : Type 0} (codec : Codec A) where
    unfoldable pub get_struct : String → Exec (World State) (Option A)
    get_struct key = do
      stored ← read_reply (λ v. ok v) (ask (λ s. r.get s key))
      lift (unmarshalled codec stored)

    unfoldable pub get_struct_del : String → Exec (World State) (Option A)
    get_struct_del key = do
      stored ← read_reply (λ v. ok v) (x.get_del key)
      lift (unmarshalled codec stored)

    unfoldable pub get_struct_ex : String → ℤ → Exec (World State) (Option A)
    get_struct_ex key ttl = with_ttl ttl (do
      stored ← read_reply (λ v. ok v) (x.get_ex key (ttl_arg ttl))
      lift (unmarshalled codec stored))

  module _ {A : Type 0} (native : Native A) where
    unfoldable pub set : String → A → ℤ → Exec (World State) (Unit {0})
    set key value ttl = with_ttl ttl (round_trip (r.set key (native.write value) (ttl_arg ttl)))

    unfoldable pub set_nx : String → A → ℤ → Exec (World State) Bool
    set_nx key value ttl =
        with_ttl ttl (round_trip (r.set_nx key (native.write value) (ttl_arg ttl)))

    unfoldable pub set_xx : String → A → ℤ → Exec (World State) Bool
    set_xx key value ttl =
        with_ttl ttl (round_trip (x.set_xx key (native.write value) (ttl_arg ttl)))

  module _ {A : Type 0} (codec : Codec A) where
    unfoldable pub set_struct : String → A → ℤ → Exec (World State) (Unit {0})
    unfolding set
    set_struct key value ttl =
        with_ttl ttl (do stored ← lift (codec.marshal value); set plain key stored ttl)

    unfoldable pub set_struct_nx : String → A → ℤ → Exec (World State) Bool
    unfolding set_nx
    set_struct_nx key value ttl =
        with_ttl ttl (do stored ← lift (codec.marshal value); set_nx plain key stored ttl)

    unfoldable pub set_struct_xx : String → A → ℤ → Exec (World State) Bool
    unfolding set_xx
    set_struct_xx key value ttl =
        with_ttl ttl (do stored ← lift (codec.marshal value); set_xx plain key stored ttl)

  module _ {Float : Type 0} (parsers : Parsers Float) where
    unfoldable pub bool : String → Exec (World State) (Option Bool)
    bool key = read_reply parsers.parse_bool (ask (λ s. r.get s key))

    unfoldable pub float64 : String → Exec (World State) (Option Float)
    float64 key = read_reply parsers.parse_float64 (ask (λ s. r.get s key))

    unfoldable pub int : String → Exec (World State) (Option ℤ)
    int key = read_reply parsers.parse_int (ask (λ s. r.get s key))

    unfoldable pub int64 : String → Exec (World State) (Option ℤ)
    int64 key = read_reply parsers.parse_int64 (ask (λ s. r.get s key))

    unfoldable pub uint64 : String → Exec (World State) (Option ℕ)
    uint64 key = read_reply parsers.parse_uint64 (ask (λ s. r.get s key))

  unfoldable pub bytes : String → Exec (World State) (Option String)
  bytes key = read_reply (λ v. ok v) (ask (λ s. r.get s key))

  unfoldable pub string : String → Exec (World State) (Option String)
  string key = read_reply (λ v. ok v) (ask (λ s. r.get s key))

  unfoldable pub incr : String → Exec (World State) ℤ
  incr key = round_trip (r.incr key)

  unfoldable pub decr : String → Exec (World State) ℤ
  decr key = round_trip (x.decr key)

  unfoldable pub delete : String → Exec (World State) (Unit {0})
  delete key = done (round_trip (r.del key))
