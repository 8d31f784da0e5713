-- ===== src/Versioned/NoLostUpdate.antt =====
-- No update is lost: of all the calls that go by one revision, one at most gets its way.
use xredis.Prelude.{
  ℕ, ◌≤◌, ◌≡◌, refl, sym, ap, subst, ◌∙◌, ◌⊎◌, inl, inr, String, true, false, Option, List, [], ◌∷◌,
  All, ℤ, arith, str_eq, str_eq_iff, ◌==◌, Bool-cases,
}
use xredis.Exec.{Result, ok, err, Exec}
use xredis.Redis.{Redis, hget_reply, ok_map}
use xredis.Client.{World, round_trip, arrival}
use xredis.Client.Trip.{round_trip_ok}
use xredis.Client.Safe.{IsSafe, arrival-IsSafe, round_trip-IsSafe, All-round_trip}
use xredis.Time.{duration_to_ms}
use xredis.Cas.Effect.{agrees, verdict}
use xredis.Versioned.{
  VersionedStore, versioned_create_script, versioned_swap_script, versioned_delete_script,
  store_key,
}
use xredis.Versioned.Effect.{
  field_at, field_at-versioned_swap_script, versioned_swap_script_lem,
  lookup-versioned_delete_script, versioned_delete_script_lem,
}
use xredis.Versioned.Calls.{revision_if, swap-cases, create-cases, delete-cases}
use xredis.Versioned.Rivals.{
  Call, creates, swaps, deletes, Passed, Fresh, NeverBack, counts, counts_bool, attempt, wins,
  Passed-create, Passed-swap, Passed-delete,
}

module _ (r : Redis) {T : Type 0} (s : Option (VersionedStore T)) (key x : String) where
  open r use {State, lookup}

  -- A call leaves the world as it was, or is one round trip of a command that keeps `Passed`.
  Runs : Call T → World State → Type 0
  Runs c w =
      ((attempt r s key x c w).1 ≡ w)
      ⊎ ((command : Exec State ℕ) × ((attempt r s key x c w).1 ≡ (round_trip command w).1)
          × ((d : State) → Passed r s key x d → Passed r s key x (command d).1))

  attempt-Runs : (c : Call T) (w : World State) → Fresh r s key x c → Runs c w
  unfolding Runs attempt
  attempt-Runs (creates u v d) w f = elim (create-cases r s u key v d w) [
    | inl (p, no_) ↦ inl p
    | inr (encoded, e, (p, q)) ↦ inr (
      versioned_create_script r (store_key s key) encoded u (duration_to_ms d),
      p,
      λ t h. Passed-create r s key x u encoded _ t f h,
    )
  ]
  attempt-Runs (swaps u y v d) w f = elim (swap-cases r s u key y v d w) [
    | inl (p, no_) ↦ inl p
    | inr (encoded, n, e, exp, valid, (p, q)) ↦ inr (
      versioned_swap_script r (store_key s key) y encoded u n,
      p,
      λ t h. Passed-swap r s key x u y encoded n t f h,
    )
  ]
  attempt-Runs (deletes y) w f = elim (delete-cases r s key y w) [
    | inl (p, no_) ↦ inl p
    | inr (p, q) ↦
        inr (versioned_delete_script r (store_key s key) y, p, λ t h. Passed-delete r s key x y t h)
  ]

  -- A call that got its way found the revision `x`, and left another.
  Won : Call T → World State → Type 0
  Won c w =
      ((attempt r s key x c w).0 ≡ 0)
      ⊎ (((attempt r s key x c w).0 ≡ 1)
          × (agrees (field_at r "revision" (arrival w) (store_key s key)) x ≡ true)
          × Passed r s key x (attempt r s key x c w).1.server)

  swap-won :
      (u y encoded : String) (n : ℤ) (d : State)
      → str_eq u x ≡ false
      → str_eq y x ≡ true
      → (versioned_swap_script r (store_key s key) y encoded u n d).0 ≡ ok 1
      → (agrees (field_at r "revision" d (store_key s key)) x ≡ true)
        × Passed r s key x (versioned_swap_script r (store_key s key) y encoded u n d).1
  swap-won u y encoded n d f e h =
      let k = store_key s key in
      let same : y ≡ x = ground (arith, str_eq_iff y x) in
      let reply : verdict (field_at r "revision" d k) y ≡ ok 1 =
        sym (versioned_swap_script_lem r k y encoded u n d) ∙ h in
      let agreed : agrees (field_at r "revision" d k) y ≡ true = ground arith in
      (
        subst (λ z. agrees (field_at r "revision" d k) z ≡ true) same agreed,
        ground (
          arith,
          field_at-versioned_swap_script r k y encoded u n d "revision" k,
          str_eq_iff k k,
          str_eq_iff u x,
        ),
      )

  delete-won :
      (y : String) (d : State)
      → str_eq y x ≡ true
      → (versioned_delete_script r (store_key s key) y d).0 ≡ ok 1
      → (agrees (field_at r "revision" d (store_key s key)) x ≡ true)
        × Passed r s key x (versioned_delete_script r (store_key s key) y d).1
  delete-won y d e h =
      let k = store_key s key in
      let same : y ≡ x = ground (arith, str_eq_iff y x) in
      let reply : verdict (field_at r "revision" d k) y ≡ ok 1 =
        sym (versioned_delete_script_lem r k y d) ∙ h in
      let agreed : agrees (field_at r "revision" d k) y ≡ true = ground arith in
      (
        subst (λ z. agrees (field_at r "revision" d k) z ≡ true) same agreed,
        ground (
          arith,
          ap (hget_reply "revision") (lookup-versioned_delete_script r k y d k),
          str_eq_iff k k,
        ),
      )

  one-cases :
      (u : String) (q : Result ℕ)
      → (q ≡ ok 1)
        ⊎ ((counts r s key x (revision_if u q) ≡ 0)
            × (counts_bool r s key x (ok_map (λ n. n == 1) q) ≡ 0))
  one-cases u (err e) = inr (refl, refl)
  one-cases u (ok n) = elim (Bool-cases (n == 1)) [
    | inl yes_ ↦ inl (ground arith)
    | inr no_ ↦ inr (rw no_ refl, rw no_ refl)
  ]

  attempt-Won : (c : Call T) (w : World State) → Fresh r s key x c → Won c w
  unfolding Won attempt
  attempt-Won (creates u v d) w f = inl refl
  attempt-Won (swaps u y v d) w f = elim (Bool-cases (str_eq y x)) [
    | inr no_ ↦ inl (rw no_ refl)
    | inl yes_ ↦ elim (swap-cases r s u key y v d w) [
      | inl (p, (e, q)) ↦ inl (rw (yes_, q) refl)
      | inr (encoded, n, e, exp, valid, (p, q)) ↦
          elim (one-cases u
            (round_trip (versioned_swap_script r (store_key s key) y encoded u n) w).0) [
              | inr (none_, _) ↦ inl (rw (yes_, q) none_)
              | inl one ↦
                  let (ran, left) =
                    round_trip_ok (versioned_swap_script r (store_key s key) y encoded u n) w 1
                      one in
                  let (agreed, passed) = swap-won u y encoded n (arrival w) f yes_ ran in
                  inr (rw (yes_, q, one) refl, agreed, rw (p, left) passed)
            ]
    ]
  ]
  attempt-Won (deletes y) w f = elim (Bool-cases (str_eq y x)) [
    | inr no_ ↦ inl (rw no_ refl)
    | inl yes_ ↦ elim (delete-cases r s key y w) [
      | inl (p, (e, q)) ↦ inl (rw (yes_, q) refl)
      | inr (p, q) ↦
          elim (one-cases "" (round_trip (versioned_delete_script r (store_key s key) y) w).0) [
            | inr (_, none_) ↦ inl (rw (yes_, q) none_)
            | inl one ↦
                let (ran, left) =
                  round_trip_ok (versioned_delete_script r (store_key s key) y) w 1 one in
                let (agreed, passed) = delete-won y (arrival w) yes_ ran in
                inr (rw (yes_, q, one) refl, agreed, rw (p, left) passed)
          ]
    ]
  ]

  attempt-IsSafe :
      (c : Call T) (w : World State)
      → Fresh r s key x c
      → IsSafe (Passed r s key x) w
      → IsSafe (Passed r s key x) (attempt r s key x c w).1
  unfolding Runs
  attempt-IsSafe c w f h = elim (attempt-Runs c w f) [
    | inl p ↦ subst (IsSafe (Passed r s key x)) (sym p) h
    | inr (command, p, keeps) ↦
        subst (IsSafe (Passed r s key x)) (sym p)
          (round_trip-IsSafe (Passed r s key x) command keeps w h)
  ]

  attempt-NeverBack :
      (c : Call T) (w : World State)
      → Fresh r s key x c
      → NeverBack r s key x w
      → NeverBack r s key x (attempt r s key x c w).1
  unfolding Runs
  attempt-NeverBack c w f h = elim (attempt-Runs c w f) [
    | inl p ↦ subst (NeverBack r s key x) (sym p) h
    | inr (command, p, keeps) ↦ subst (NeverBack r s key x) (sym p) (All-round_trip _ command w h)
  ]

  -- Once the revision has passed, nothing goes by it any more.
  wins-Passed :
      (cs : List (Call T)) (w : World State)
      → All (Fresh r s key x) cs
      → IsSafe (Passed r s key x) w
      → wins r s key x cs w ≡ 0
  unfolding wins Won
  wins-Passed [] w f h = refl
  wins-Passed (c ∷ cs) w f h =
      let rest = wins-Passed cs (attempt r s key x c w).1 f.1 (attempt-IsSafe c w f.0 h) in
      elim (attempt-Won c w f.0) [
        | inl e ↦ rw (e, rest) refl
        | inr (one, agreed, left) ↦
            let passed = arrival-IsSafe (Passed r s key x) w h in absurd (ground arith)
      ]

  wins_bound :
      (cs : List (Call T)) (w : World State)
      → All (Fresh r s key x) cs
      → NeverBack r s key x w
      → wins r s key x cs w ≤ 1
  unfolding wins Won
  wins_bound [] w f h = omega arith
  wins_bound (c ∷ cs) w f h =
      let later = attempt-NeverBack c w f.0 h in
      elim (attempt-Won c w f.0) [
        | inl e ↦ let rest = wins_bound cs (attempt r s key x c w).1 f.1 later in rw e (omega arith)
        | inr (one, agreed, left) ↦
            let none_ =
              wins-Passed cs (attempt r s key x c w).1 f.1 (record { now = left; later = later }) in
            rw (one, none_) (omega arith)
      ]

-- No update is lost. Take any sequence of SetIfAbsent, CompareAndSwap and CompareAndDelete calls on
-- one key of a store, by any clients, where the identifiers that the calls draw differ from the
-- revision `x`. Requests may fail before or after they are run, and others may do anything between
-- them but bring `x` back once it has passed. Then of the CompareAndSwap and CompareAndDelete calls
-- that expect the revision `x`, one at most reports success.
pub one_update_wins :
    (r : Redis) {T : Type 0} (s : Option (VersionedStore T)) (key x : String) (cs : List (Call T))
    (w : World r.State)
    → All (Fresh r s key x) cs
    → NeverBack r s key x w
    → wins r s key x cs w ≤ 1
one_update_wins r s key x cs w f h = wins_bound r s key x cs w f h
