-- ===== src/Versioned.antt =====
-- cas_versioned.go: values with a revision, as a hash of two fields. `ok=false`, `created=false`
-- and the like beside a zero result are `none`. What is encoded is the bytes; the codec with
-- decodeInto of reflect.go is a parameter, and so are the identifiers that uuid.NewString draws.

pub mod Effect
pub mod Calls
pub mod Contract
pub mod Rivals
pub mod NoLostUpdate
use xredis.Prelude.{
  ℕ, String, append, Bool, true, false, ◌||◌, Option, none, some, List, [], ◌∷◌, ℤ, pos, pos_part,
  ltb_ℤ, eqb_ℤ, ◌==◌, is_empty, if◌then◌else◌,
}
use xredis.Errors.{invalid_versioned_store, invalid_entry, invalid_ttl, panic}
use xredis.Exec.{Exec, Result, ok, err, fail, pure, lift, ask, ◌>>=◌, ◌>>◌}
use xredis.Redis.{Redis, Any, nil, int64, string, bytes}
use xredis.Time.{duration_to_ms, update_expiration_to_ms}
use xredis.Client.{Client, World, round_trip}
use xredis.Cas.{differs}
use xredis.Codec.{Codec}

pub record VersionedValue (T : Type 0) : Type 0 where
  pub value : T
  pub revision : String

pub record VersionedStore (T : Type 0) : Type 0 where
  pub client : Option Client
  pub prefix : String
  pub codec : Option (Codec T)

pub record VersionedStoreOptions (T : Type 0) : Type 0 where
  pub prefix : String
  pub codec : Option (Codec T)

abbrev connected : Option Client → Bool
connected none = false
connected (some c) = elim c.conn [ none ↦ false | some t ↦ true ]

abbrev and_then : {A B : Type 0} → Result A → Result B → Result B
and_then (ok a) b = b
and_then (err e) b = err e

module _ {T : Type 0} where
  abbrev is_set : Option (Codec T) → Bool
  is_set none = false
  is_set (some c) = true

  -- WithVersionedStorePrefix, WithVersionedStoreCodec
  pub with_versioned_store_prefix : String → VersionedStoreOptions T → VersionedStoreOptions T
  with_versioned_store_prefix prefix opts = record opts { prefix = prefix }

  pub with_versioned_store_codec :
      Option (Codec T) → VersionedStoreOptions T → VersionedStoreOptions T
  with_versioned_store_codec none opts = opts
  with_versioned_store_codec (some codec) opts = record opts { codec = some codec }

  abbrev apply_options :
      VersionedStoreOptions T
      → List (Option (VersionedStoreOptions T → VersionedStoreOptions T))
      → VersionedStoreOptions T
  apply_options o [] = o
  apply_options o (none ∷ opts) = apply_options o opts
  apply_options o (some opt ∷ opts) = apply_options (opt o) opts

  unfoldable pub validate_versioned_store_options :
      Option Client → VersionedStoreOptions T → Result (Unit {0})
  validate_versioned_store_options client opts =
      if connected client
      then (if is_set opts.codec then ok tt else fail invalid_versioned_store)
      else fail invalid_versioned_store

  -- the client's codec, if there is one, else JSON
  abbrev or_json : Codec T → Option (Codec T) → Codec T
  or_json json none = json
  or_json json (some codec) = codec

  abbrev store_of : Option Client → VersionedStoreOptions T → Result (VersionedStore T)
  store_of client options =
      and_then (validate_versioned_store_options client options)
        (ok (record { client = client; prefix = options.prefix; codec = options.codec }))

  -- NewVersionedStore; `concrete` is what validateConcreteType says of the type
  unfoldable pub new_versioned_store :
      Result (Unit {0})
      → Codec T
      → Option (Codec T)
      → Option Client
      → List (Option (VersionedStoreOptions T → VersionedStoreOptions T))
      → Result (VersionedStore T)
  unfolding validate_versioned_store_options
  new_versioned_store concrete json client_codec client opts = and_then concrete (
      store_of client
        (apply_options (record { prefix = ""; codec = some (or_json json client_codec) }) opts))

  -- (*VersionedStore).validateKey, validateRevision and key
  unfoldable pub validate_store_key : Option (VersionedStore T) → String → Result (Unit {0})
  validate_store_key none key = fail invalid_versioned_store
  validate_store_key (some s) key =
      if connected s.client
      then (if is_set s.codec
          then (if is_empty key then fail invalid_versioned_store else ok tt)
          else fail invalid_versioned_store)
      else fail invalid_versioned_store

  unfoldable pub validate_revision : Option (VersionedStore T) → String → String → Result (Unit {0})
  unfolding validate_store_key
  validate_revision s key revision =
      and_then (validate_store_key s key)
        (if is_empty revision then fail invalid_versioned_store else ok tt)

  abbrev pub store_key : Option (VersionedStore T) → String → String
  store_key none key = key
  store_key (some s) key = append s.prefix key

  -- s.codec.Marshal and Unmarshal; a nil codec panics
  abbrev pub encode : Option (VersionedStore T) → T → Result String
  encode none value = err panic
  encode (some s) value = elim s.codec [ none ↦ err panic | some codec ↦ codec.marshal value ]

  abbrev pub decode : Option (VersionedStore T) → String → Result T
  decode none encoded = err panic
  decode (some s) encoded = elim s.codec [ none ↦ err panic | some codec ↦ codec.unmarshal encoded ]

unfoldable pub versioned_store_bytes : Any → Option String
versioned_store_bytes (string v) = some v
versioned_store_bytes (bytes v) = some v
versioned_store_bytes _ = none

unfoldable pub versioned_store_revision : Any → Option String
versioned_store_revision (string v) = if is_empty v then none else some v
versioned_store_revision (bytes v) = if is_empty v then none else some v
versioned_store_revision _ = none

abbrev both : Option String → Option String → Result (Option (String × String))
both none r = fail invalid_entry
both (some encoded) none = fail invalid_entry
both (some encoded) (some revision) = ok (some (encoded, revision))

-- parseVersionedFields
unfoldable pub parse_versioned_fields : List Any → Result (Option (String × String))
unfolding versioned_store_bytes versioned_store_revision
parse_versioned_fields (nil ∷ nil ∷ []) = ok none
parse_versioned_fields (value_raw ∷ revision_raw ∷ []) =
    both (versioned_store_bytes value_raw) (versioned_store_revision revision_raw)
parse_versioned_fields _ = fail invalid_entry

module _ (r : Redis) where
  open r use {State, exists, hget, hmget, hset, del, pexpire, persist}

  -- `if expiration > 0 then PEXPIRE`
  abbrev pub expire : String → ℤ → Exec State ℕ
  expire key expiration =
      if ltb_ℤ (pos 0) expiration then pexpire key (pos_part expiration) else pure 0

  unfoldable pub versioned_create_script : String → String → String → ℤ → Exec State ℕ
  versioned_create_script key encoded revision expiration = do
    taken ← ask (λ s. ok (exists s key))
    if taken == 1 then pure 0 else do
      hset key (("value", encoded) ∷ ("revision", revision) ∷ [])
      n ← expire key expiration
      pure 1

  -- `if expiration > 0 then PEXPIRE elseif expiration == 0 then PERSIST`
  abbrev pub renew : String → ℤ → Exec State ℕ
  renew key expiration =
      if ltb_ℤ (pos 0) expiration
      then pexpire key (pos_part expiration)
      else if eqb_ℤ expiration (pos 0)
      then persist key
      else pure 0

  unfoldable pub versioned_swap_script : String → String → String → String → ℤ → Exec State ℕ
  versioned_swap_script key expected encoded revision expiration = do
    current_revision ← ask (λ s. hget s key "revision")
    if differs current_revision expected then pure 0 else do
      hset key (("value", encoded) ∷ ("revision", revision) ∷ [])
      n ← renew key expiration
      pure 1

  unfoldable pub versioned_delete_script : String → String → Exec State ℕ
  versioned_delete_script key expected = do
    current_revision ← ask (λ s. hget s key "revision")
    if differs current_revision expected then pure 0 else del key

  module _ {T : Type 0} where
    abbrev found :
        Option (VersionedStore T) → Option (String × String) → Result (Option (VersionedValue T))
    found s none = ok none
    found s (some (encoded, revision)) = elim (decode s encoded) [
      | err e ↦ err e
      | ok v ↦ ok (some (record { value = v; revision = revision }))
    ]

    -- Get
    unfoldable pub get_versioned :
        Option (VersionedStore T) → String → Exec (World State) (Option (VersionedValue T))
    unfolding validate_store_key parse_versioned_fields
    get_versioned s key = do
      u ← lift (validate_store_key s key)
      result ← round_trip (ask (λ d. hmget d (store_key s key) ("value" ∷ "revision" ∷ [])))
      fields ← lift (parse_versioned_fields result)
      lift (found s fields)

    -- setIfAbsent
    unfoldable pub set_encoded_if_absent :
        Option (VersionedStore T) → String → String → String → ℤ → Exec (World State) Bool
    unfolding versioned_create_script
    set_encoded_if_absent s key encoded revision expiration = do
      created ←
          round_trip
            (versioned_create_script (store_key s key) encoded revision (duration_to_ms expiration))
      pure (created == 1)

    -- SetIfAbsent
    unfoldable pub set_if_absent :
        String → Option (VersionedStore T) → String → T → ℤ → Exec (World State) (Option String)
    unfolding validate_store_key set_encoded_if_absent
    set_if_absent uuid s key value expiration = do
      u ← lift (validate_store_key s key)
      v ← lift (if ltb_ℤ expiration (pos 0) then fail invalid_ttl else ok (tt {0}))
      encoded ← lift (encode s value)
      created ← set_encoded_if_absent s key encoded uuid expiration
      pure (if created then some uuid else none)

    -- CompareAndSwap
    unfoldable pub swap_versioned :
        String
        → Option (VersionedStore T)
        → String
        → String
        → T
        → ℤ
        → Exec (World State) (Option String)
    unfolding validate_revision versioned_swap_script
    swap_versioned uuid s key expected value expiration = do
      u ← lift (validate_revision s key expected)
      exp ← lift (update_expiration_to_ms expiration)
      encoded ← lift (encode s value)
      result ← round_trip (versioned_swap_script (store_key s key) expected encoded uuid exp)
      pure (if result == 1 then some uuid else none)

    -- CompareAndDelete
    unfoldable pub delete_versioned :
        Option (VersionedStore T) → String → String → Exec (World State) Bool
    unfolding validate_revision versioned_delete_script
    delete_versioned s key expected = do
      u ← lift (validate_revision s key expected)
      result ← round_trip (versioned_delete_script (store_key s key) expected)
      pure (result == 1)
