-- ===== src/Versioned/Contract.antt =====
-- What SetIfAbsent, CompareAndSwap, CompareAndDelete and Get promise, for every schedule.
use xredis.Prelude.{
  ℕ, ◌≡◌, refl, sym, ◌∙◌, inl, inr, String, Bool, true, false, Option, none, some, [], ◌∷◌, ℤ,
  arith, str_eq, str_eq_iff, ◌&&◌, ◌==◌, is_empty, if◌then◌else◌, Bool-cases,
}
use xredis.Exec.{Result, ok, err, ask}
use xredis.Exec.Invert.{Result-cases}
use xredis.Redis.{Redis, count_reply, deadline_of, string}
use xredis.Time.{duration_to_ms, update_expiration_to_ms}
use xredis.Client.{World, round_trip, arrival}
use xredis.Client.Trip.{round_trip_ok, round_trip_quiet}
use xredis.Cas.Effect.{agrees}
use xredis.Cas.Atomicity.{requested_deadline, deadline-update_expiration_to_ms}
use xredis.Versioned.{
  VersionedStore, versioned_create_script, versioned_swap_script, versioned_delete_script,
  set_if_absent, swap_versioned, delete_versioned, get_versioned, store_key, encode, decode,
  validate_store_key, parse_versioned_fields, versioned_store_bytes, versioned_store_revision,
}
use xredis.Versioned.Effect.{
  field_at, rewritten, field_at-versioned_swap_script, versioned_swap_script_lem,
  lookup-versioned_delete_script, versioned_delete_script_lem, field_at-versioned_create_script,
  versioned_create_script_lem, deadline-versioned_swap_script, versioned_swap_script-kept,
  hmget-field_at,
}
use xredis.Versioned.Calls.{revision_if, swap-cases, create-cases, delete-cases}

module _ (r : Redis) {T : Type 0} (s : Option (VersionedStore T)) where
  open r use {State, lookup, clock}

  revision_if_ok :
      (u : String) (q : Result ℕ) (a : Option String)
      → revision_if u q ≡ ok a
      → (n : ℕ) × (q ≡ ok n) × (a ≡ (if n == 1 then some u else none))
  revision_if_ok u (ok n) a h = (n, refl, ground arith)
  revision_if_ok u (err e) a h = absurd (ground arith)

  deadline_after :
      (k x encoded u : String) (d m : ℤ) (t : State)
      → update_expiration_to_ms d ≡ ok m
      → deadline_of (lookup (versioned_swap_script r k x encoded u m t).1 k) ≡ (
          if agrees (field_at r "revision" t k) x
          then requested_deadline d (clock t) (lookup t k)
          else deadline_of (lookup t k))
  deadline_after k x encoded u d m t h = elim (Bool-cases (agrees (field_at r "revision" t k) x)) [
    | inl yes_ ↦ rw yes_ (
        deadline-versioned_swap_script r k x encoded u m t yes_
        ∙ deadline-update_expiration_to_ms d m (clock t) (lookup t k) h)
    | inr no_ ↦ rw (no_, versioned_swap_script-kept r k x encoded u m t no_) refl
  ]

  -- When CompareAndSwap answers, it answers the identifier that it drew exactly if the key's
  -- revision, as the request found it, was the expected one. Then the key's hash holds the encoded
  -- value and that identifier, with the expiration that was asked for and its other fields as they
  -- were; no other key's fields change, and on none no key's do.
  pub swap_versioned_atomic :
      (u key x : String) (v : T) (d : ℤ) (w : World State) (a : Option String)
      → (swap_versioned r u s key x v d w).0 ≡ ok a
      → (a ≡ (
          if agrees (field_at r "revision" (arrival w) (store_key s key)) x then some u else none))
        × ((encoded : String) × (encode s v ≡ ok encoded)
            × ((g j : String)
                → field_at r g (swap_versioned r u s key x v d w).1.server j ≡ (
                    if agrees (field_at r "revision" (arrival w) (store_key s key)) x
                      && str_eq (store_key s key) j
                    then rewritten r encoded u g (field_at r g (arrival w) (store_key s key))
                    else field_at r g (arrival w) j)))
        × (deadline_of (lookup (swap_versioned r u s key x v d w).1.server (store_key s key)) ≡ (
            if agrees (field_at r "revision" (arrival w) (store_key s key)) x
            then requested_deadline d (clock (arrival w)) (lookup (arrival w) (store_key s key))
            else deadline_of (lookup (arrival w) (store_key s key))))
  swap_versioned_atomic u key x v d w a h = elim (swap-cases r s u key x v d w) [
    | inl (p, (e, q)) ↦ absurd (ground arith)
    | inr (encoded, m, f, exp, valid, (p, q)) ↦
        let k = store_key s key in
        let command = versioned_swap_script r k x encoded u m in
        let (n, ran, e) = revision_if_ok u (round_trip command w).0 a (sym q ∙ h) in
        let (reply, left) = round_trip_ok command w n ran in
        let said = versioned_swap_script_lem r k x encoded u m (arrival w) in
        (
          ground arith,
          (
            encoded,
            f,
            λ g j. rw (p, left) (field_at-versioned_swap_script r k x encoded u m (arrival w) g j),
          ),
          rw (p, left) (deadline_after k x encoded u d m (arrival w) exp),
        )
  ]

  -- SetIfAbsent likewise: the identifier that it drew exactly if the key was free. Then the key
  -- holds a hash of the encoded value and that identifier; no other key's fields change, and on
  -- none no key's do.
  pub set_if_absent_atomic :
      (u key : String) (v : T) (d : ℤ) (w : World State) (a : Option String)
      → (set_if_absent r u s key v d w).0 ≡ ok a
      → (a ≡ (if count_reply (lookup (arrival w) (store_key s key)) == 0 then some u else none))
        × ((encoded : String) × (encode s v ≡ ok encoded)
            × ((g j : String)
                → field_at r g (set_if_absent r u s key v d w).1.server j ≡ (
                    if (count_reply (lookup (arrival w) (store_key s key)) == 0)
                      && str_eq (store_key s key) j
                    then rewritten r encoded u g (ok none)
                    else field_at r g (arrival w) j)))
  set_if_absent_atomic u key v d w a h = elim (create-cases r s u key v d w) [
    | inl (p, (e, q)) ↦ absurd (ground arith)
    | inr (encoded, f, (p, q)) ↦
        let k = store_key s key in
        let command = versioned_create_script r k encoded u (duration_to_ms d) in
        let (n, ran, e) = revision_if_ok u (round_trip command w).0 a (sym q ∙ h) in
        let (reply, left) = round_trip_ok command w n ran in
        let said = versioned_create_script_lem r k encoded u (duration_to_ms d) (arrival w) in
        (
          ground arith,
          (
            encoded,
            f,
            λ g j.
                rw (p, left)
                  (field_at-versioned_create_script r k encoded u (duration_to_ms d) (arrival w) g
                    j),
          ),
        )
  ]

  -- CompareAndDelete: true exactly if the key's revision, as the request found it, was the expected
  -- one, and then the key is gone; no other key changes, and on false none does.
  pub delete_versioned_atomic :
      (key x : String) (w : World State) (b : Bool)
      → (delete_versioned r s key x w).0 ≡ ok b
      → (b ≡ agrees (field_at r "revision" (arrival w) (store_key s key)) x)
        × ((j : String)
            → lookup (delete_versioned r s key x w).1.server j
              ≡ (if b && str_eq (store_key s key) j then none else lookup (arrival w) j))
  delete_versioned_atomic key x w b h = elim (delete-cases r s key x w) [
    | inl (p, (e, q)) ↦ absurd (ground arith)
    | inr (p, q) ↦
        let k = store_key s key in
        let command = versioned_delete_script r k x in
        elim (Result-cases (round_trip command w).0) [
          | inr (e, g) ↦ absurd (ground arith)
          | inl (n, g) ↦
              let (reply, left) = round_trip_ok command w n g in
              let said = versioned_delete_script_lem r k x (arrival w) in
              let same : b ≡ agrees (field_at r "revision" (arrival w) k) x = ground arith in
              (same, λ j. rw (p, left, same) (lookup-versioned_delete_script r k x (arrival w) j))
        ]
  ]

  read_back :
      (u encoded : String) (v : T)
      → is_empty u ≡ false
      → parse_versioned_fields (string encoded ∷ string u ∷ []) ≡ ok (some (encoded, u))
  unfolding parse_versioned_fields versioned_store_bytes versioned_store_revision
  read_back u encoded v h = ground arith

  get-stored :
      (u key encoded : String) (v : T) (w : World State)
      → w.schedule ≡ []
      → validate_store_key s key ≡ ok tt
      → is_empty u ≡ false
      → decode s encoded ≡ ok v
      → field_at r "value" w.server (store_key s key) ≡ ok (some encoded)
      → field_at r "revision" w.server (store_key s key) ≡ ok (some u)
      → (get_versioned r s key w).0 ≡ ok (some (record { value = v; revision = u }))
  unfolding get_versioned
  get-stored u key encoded v w quiet valid e dec value revision =
      let k = store_key s key in
      let read = hmget-field_at r w.server k encoded u value revision in
      let (reply, after) =
        round_trip_quiet (ask (λ d. r.hmget d k ("value" ∷ "revision" ∷ []))) w quiet in
      rw (valid, reply ∙ read, read_back u encoded v e) (ground arith)

  -- What CompareAndSwap stored is what Get reads. If the swap returned the identifier that it drew,
  -- which is not empty, the next request is undisturbed and the codec decodes what it encodes, then
  -- Get returns the value with that revision.
  pub get-swap_versioned :
      (u key x : String) (v : T) (d : ℤ) (w : World State)
      → (swap_versioned r u s key x v d w).0 ≡ ok (some u)
      → (swap_versioned r u s key x v d w).1.schedule ≡ []
      → is_empty u ≡ false
      → ((encoded : String) → encode s v ≡ ok encoded → decode s encoded ≡ ok v)
      → (get_versioned r s key (swap_versioned r u s key x v d w).1).0
        ≡ ok (some (record { value = v; revision = u }))
  get-swap_versioned u key x v d w h quiet e codec =
      let k = store_key s key in
      let (answer, (encoded, f, fields), deadline) =
        swap_versioned_atomic u key x v d w (some u) h in
      let agreed : agrees (field_at r "revision" (arrival w) k) x ≡ true = ground arith in
      elim (swap-cases r s u key x v d w) [
        | inl (p, (no_, q)) ↦ absurd (ground arith)
        | inr (same, m, g, exp, valid, asked) ↦
            get-stored u key encoded v _ quiet valid e (codec encoded f)
              (fields "value" k ∙ ground (arith, str_eq_iff k k))
              (fields "revision" k ∙ ground (arith, str_eq_iff k k))
      ]
