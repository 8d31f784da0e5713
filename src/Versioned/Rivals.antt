-- ===== src/Versioned/Rivals.antt =====
-- Rival calls on one key of a versioned store: whose revision they go by, and which get their way.
use xredis.Prelude.{
  ℕ, ◌+◌, ◌≡◌, ap, String, Bool, true, false, Option, some, List, [], ◌∷◌, All, ℤ, arith, str_eq,
  str_eq_iff, if◌then◌else◌,
}
use xredis.Exec.{Result, ok}
use xredis.Redis.{Redis, hget_reply}
use xredis.Client.{World, Event}
use xredis.Cas.Effect.{agrees}
use xredis.Versioned.{
  VersionedStore, versioned_create_script, versioned_swap_script, versioned_delete_script,
  set_if_absent, swap_versioned, delete_versioned, store_key,
}
use xredis.Versioned.Effect.{
  field_at, field_at-versioned_swap_script, lookup-versioned_delete_script,
  field_at-versioned_create_script,
}

-- The calls that write, each with the identifier that it draws.
pub data Call (T : Type 0) : Type 0 where
  creates : String → T → ℤ → Call T
  swaps : String → String → T → ℤ → Call T
  deletes : String → Call T

module _ (r : Redis) {T : Type 0} (s : Option (VersionedStore T)) (key x : String) where
  open r use {State, lookup}

  -- The revision at the key is not `x`.
  abbrev pub Passed : State → Type 0
  Passed d = agrees (field_at r "revision" d (store_key s key)) x ≡ false

  -- The identifier that the call draws is not `x`.
  abbrev pub Fresh : Call T → Type 0
  Fresh (creates u v d) = str_eq u x ≡ false
  Fresh (swaps u y v d) = str_eq u x ≡ false
  Fresh (deletes y) = Unit

  abbrev pub counts : Result (Option String) → ℕ
  counts (ok (some u)) = 1
  counts _ = 0

  abbrev pub counts_bool : Result Bool → ℕ
  counts_bool (ok true) = 1
  counts_bool _ = 0

  -- The call, with 1 if it went by the revision `x` and got its way.
  unfoldable pub attempt : Call T → World State → ℕ × World State
  attempt (creates u v d) w = (0, (set_if_absent r u s key v d w).1)
  attempt (swaps u y v d) w =
      let q = swap_versioned r u s key y v d w in ((if str_eq y x then counts q.0 else 0), q.1)
  attempt (deletes y) w =
      let q = delete_versioned r s key y w in ((if str_eq y x then counts_bool q.0 else 0), q.1)

  unfoldable pub wins : List (Call T) → World State → ℕ
  unfolding attempt
  wins [] w = 0
  wins (c ∷ cs) w = let rest = wins cs (attempt c w).1 in (attempt c w).0 + rest

  pub Passed-create :
      (u encoded : String) (n : ℤ) (d : State)
      → str_eq u x ≡ false
      → Passed d
      → Passed (versioned_create_script r (store_key s key) encoded u n d).1
  Passed-create u encoded n d f h =
      let k = store_key s key in
      ground
        (arith, field_at-versioned_create_script r k encoded u n d "revision" k, str_eq_iff u x)

  pub Passed-swap :
      (u y encoded : String) (n : ℤ) (d : State)
      → str_eq u x ≡ false
      → Passed d
      → Passed (versioned_swap_script r (store_key s key) y encoded u n d).1
  Passed-swap u y encoded n d f h =
      let k = store_key s key in
      ground
        (arith, field_at-versioned_swap_script r k y encoded u n d "revision" k, str_eq_iff u x)

  pub Passed-delete :
      (y : String) (d : State)
      → Passed d
      → Passed (versioned_delete_script r (store_key s key) y d).1
  Passed-delete y d h =
      let k = store_key s key in
      ground (arith, ap (hget_reply "revision") (lookup-versioned_delete_script r k y d k))

  -- What happens around the requests does not bring `x` back.
  abbrev pub NeverBack : World State → Type 0
  NeverBack w = All (λ (e : Event State). (d : State) → Passed d → Passed (e.others d)) w.schedule
