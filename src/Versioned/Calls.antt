-- ===== src/Versioned/Calls.antt =====
-- The methods of cas_versioned.go that write: each is refused before a request, or is one round
-- trip of its script.
use xredis.Prelude.{
  ℕ, ◌≡◌, refl, ◌⊎◌, inl, inr, String, Option, none, some, ℤ, pos, ltb_ℤ, ◌==◌, arith,
  if◌then◌else◌, Bool-cases,
}
use xredis.Errors.{Error, known, invalid_ttl}
use xredis.Exec.{Result, ok, err, Exec}
use xredis.Exec.Invert.{Result-cases}
use xredis.Redis.{Redis, ok_map}
use xredis.Time.{duration_to_ms, update_expiration_to_ms}
use xredis.Client.{World, round_trip}
use xredis.Versioned.{
  VersionedStore, versioned_create_script, versioned_swap_script, versioned_delete_script,
  set_encoded_if_absent, set_if_absent, swap_versioned, delete_versioned, store_key, encode,
  validate_store_key, validate_revision,
}

-- The caller's answer for a script's 1.
abbrev pub revision_if : String → Result ℕ → Result (Option String)
revision_if u q = ok_map (λ n. if n == 1 then some u else none) q

module _ (r : Redis) {T : Type 0} (s : Option (VersionedStore T)) where
  open r use {State}

  -- Refused: an error, and nothing has been done.
  abbrev pub Refused : {A : Type 0} → Result A × World State → World State → Type 0
  Refused q w = (q.1 ≡ w) × ((e : Error) × (q.0 ≡ err e))

  -- One round trip of the command, answered so.
  abbrev pub Asked :
      {A : Type 0}
      → Exec State ℕ
      → (Result ℕ → Result A)
      → Result A × World State
      → World State
      → Type 0
  Asked command answer q w =
      (q.1 ≡ (round_trip command w).1) × (q.0 ≡ answer (round_trip command w).0)

  key_valid :
      (key x : String) {a : Unit {0}}
      → validate_revision s key x ≡ ok a
      → validate_store_key s key ≡ ok tt
  unfolding validate_revision
  key_valid key x h = elim (Result-cases (validate_store_key s key)) [
    | inl (a, p) ↦ p
    | inr (e, p) ↦ absurd (ground arith)
  ]

  pub swap-cases :
      (u key x : String) (v : T) (d : ℤ) (w : World State)
      → Refused (swap_versioned r u s key x v d w) w
        ⊎ ((encoded : String) × (exp : ℤ) × (encode s v ≡ ok encoded)
            × (update_expiration_to_ms d ≡ ok exp)
            × (validate_store_key s key ≡ ok tt)
            × Asked
                (versioned_swap_script r (store_key s key) x encoded u exp)
                (revision_if u)
                (swap_versioned r u s key x v d w)
                w)
  unfolding swap_versioned
  swap-cases u key x v d w = elim (Result-cases (validate_revision s key x)) [
    | inr (e, p) ↦ inl (rw p refl, (e, rw p refl))
    | inl (valid, p) ↦ elim (Result-cases (update_expiration_to_ms d)) [
      | inr (e, q) ↦ inl (rw (p, q) refl, (e, rw (p, q) refl))
      | inl (exp, q) ↦ elim (Result-cases (encode s v)) [
        | inr (e, f) ↦ inl (rw (p, q, f) refl, (e, rw (p, q, f) refl))
        | inl (encoded, f) ↦
            elim (Result-cases
              (round_trip (versioned_swap_script r (store_key s key) x encoded u exp) w).0) [
                | inl (n, g) ↦ inr (
                  encoded,
                  exp,
                  f,
                  q,
                  key_valid key x p,
                  (rw (p, q, f, g) refl, rw (p, q, f, g) refl),
                )
                | inr (e, g) ↦ inr (
                  encoded,
                  exp,
                  f,
                  q,
                  key_valid key x p,
                  (rw (p, q, f, g) refl, rw (p, q, f, g) refl),
                )
              ]
      ]
    ]
  ]

  pub create-cases :
      (u key : String) (v : T) (d : ℤ) (w : World State)
      → Refused (set_if_absent r u s key v d w) w
        ⊎ ((encoded : String) × (encode s v ≡ ok encoded)
            × Asked
                (versioned_create_script r (store_key s key) encoded u (duration_to_ms d))
                (revision_if u)
                (set_if_absent r u s key v d w)
                w)
  unfolding set_if_absent set_encoded_if_absent
  create-cases u key v d w = elim (Result-cases (validate_store_key s key)) [
    | inr (e, p) ↦ inl (rw p refl, (e, rw p refl))
    | inl (valid, p) ↦ elim (Bool-cases (ltb_ℤ d (pos 0))) [
      | inl q ↦ inl (rw (p, q) refl, (known invalid_ttl, rw (p, q) refl))
      | inr q ↦ elim (Result-cases (encode s v)) [
        | inr (e, f) ↦ inl (rw (p, q, f) refl, (e, rw (p, q, f) refl))
        | inl (encoded, f) ↦
            elim (Result-cases
              (round_trip (versioned_create_script r (store_key s key) encoded u (duration_to_ms d))
                w).0) [
                  | inl (n, g) ↦ inr (encoded, f, (rw (p, q, f, g) refl, rw (p, q, f, g) refl))
                  | inr (e, g) ↦ inr (encoded, f, (rw (p, q, f, g) refl, rw (p, q, f, g) refl))
                ]
      ]
    ]
  ]

  pub delete-cases :
      (key x : String) (w : World State)
      → Refused (delete_versioned r s key x w) w
        ⊎ Asked
            (versioned_delete_script r (store_key s key) x)
            (ok_map (λ n. n == 1))
            (delete_versioned r s key x w)
            w
  unfolding delete_versioned
  delete-cases key x w = elim (Result-cases (validate_revision s key x)) [
    | inr (e, p) ↦ inl (rw p refl, (e, rw p refl))
    | inl (valid, p) ↦
        elim (Result-cases (round_trip (versioned_delete_script r (store_key s key) x) w).0) [
          | inl (n, g) ↦ inr (rw (p, g) refl, rw (p, g) refl)
          | inr (e, g) ↦ inr (rw (p, g) refl, rw (p, g) refl)
        ]
  ]
