-- ===== src/Cas/Atomicity.antt =====
-- The contract of the four methods of cas.go, for every schedule.
use xredis.Prelude.{
  [], str_eq_iff, ℕ, zero, suc, ◌+◌, ◌/◌, ◌≡◌, String, Bool, false, Option, none, some, ℤ, pos,
  negsuc, arith, str_eq, ◌&&◌, not, if◌then◌else◌, inl, inr,
}
use xredis.Errors.{invalid_ttl}
use xredis.Exec.{ok, fail}
use xredis.Exec.Invert.{Result-cases}
use xredis.Redis.{
  Redis, Entry, str, hash, get_reply, hget_reply, ttl_deadline, deadline_of, get_field,
}
use xredis.Redis.Fields.{hget-field_put, deadline-field_put}
use xredis.Time.{update_expiration_to_ms}
use xredis.Client.{World, arrival, round_trip}
use xredis.Client.Trip.{asked_ok, round_trip_quiet}
use xredis.Cas.{
  differs, compare_and_delete, compare_and_swap, h_compare_and_swap, ttl_of,
  compare_and_swap_script, compare_and_delete_script, hash_compare_and_swap_script,
}
use xredis.Cas.Effect.{
  verdict, verdict_ok, compare_and_swap_script_lem, lookup-compare_and_swap_script,
  compare_and_delete_script_lem, lookup-compare_and_delete_script, hash_compare_and_swap_script_lem,
  lookup-hash_compare_and_swap_script,
}

-- The expiration that a caller asks for: KeepTTL keeps what the key had, zero is none, and a
-- positive duration counts in whole milliseconds, rounded up.
abbrev pub requested_deadline : ℤ → ℕ → Option Entry → Option ℕ
requested_deadline (pos zero) now old = none
requested_deadline (pos (suc n)) now old = some (now + (n + 1000000) / 1000000)
requested_deadline (negsuc n) now old = deadline_of old

pub deadline-update_expiration_to_ms :
    (d m : ℤ) (now : ℕ) (old : Option Entry)
    → update_expiration_to_ms d ≡ ok m
    → ttl_deadline (ttl_of m) now old ≡ requested_deadline d now old
unfolding update_expiration_to_ms
deadline-update_expiration_to_ms (pos zero) m now old h = ground arith
deadline-update_expiration_to_ms (pos (suc n)) m now old h = ground arith
deadline-update_expiration_to_ms (negsuc n) m now old h = ground arith

module _ (r : Redis) where
  open r use {State, lookup, clock}

  expiration_ok :
      (k x v : String) (d : ℤ) (w : World State) (b : Bool)
      → (compare_and_swap r k x v d w).0 ≡ ok b
      → (m : ℤ) × (update_expiration_to_ms d ≡ ok m)
  unfolding compare_and_swap
  expiration_ok k x v d w b h = elim (Result-cases (update_expiration_to_ms d)) [
    | inl found ↦ found
    | inr (e, p) ↦ absurd (ground arith)
  ]

  swapped :
      (k x v : String) (d m : ℤ) (w : World State) (b : Bool)
      → update_expiration_to_ms d ≡ ok m
      → (compare_and_swap r k x v d w).0 ≡ ok b
      → (verdict (get_reply (lookup (arrival w) k)) x ≡ ok (if b then 1 else 0))
        × ((compare_and_swap r k x v d w).1.server
            ≡ (compare_and_swap_script r k x v m (arrival w)).1)
  unfolding compare_and_swap
  swapped k x v d m w b e h = rw e ground (
    arith,
    asked_ok (compare_and_swap_script r k x v m) w b,
    compare_and_swap_script_lem r k x v m (arrival w),
  )

-- The key holds a string, and it is this one.
abbrev pub holds : Option Entry → String → Bool
holds none x = false
holds (some e) x = elim e.value [ str y ↦ str_eq y x | _ ↦ false ]

-- The hash at the key has this value in this field.
abbrev pub field_holds : Option Entry → String → String → Bool
field_holds none f x = false
field_holds (some e) f x = elim e.value [
  | hash fs ↦ elim (get_field f fs) [ none ↦ false | some y ↦ str_eq y x ]
  | _ ↦ false
]

module _ (r : Redis) where
  open r use {State, lookup, clock}

  -- When CompareAndSwap answers, it answers true exactly if the key, as the request found it, held
  -- the expected string. Then the key holds the new string, with the expiration that was asked
  -- for, and every other key what it held; otherwise every key holds what it held.
  pub compare_and_swap_atomic :
      (k x v : String) (d : ℤ) (w : World State) (b : Bool)
      → (compare_and_swap r k x v d w).0 ≡ ok b
      → (b ≡ holds (lookup (arrival w) k) x)
        × ((j : String)
            → lookup (compare_and_swap r k x v d w).1.server j ≡ (
                if b && str_eq k j
                then some (record {
                  value = str v;
                  deadline = requested_deadline d (clock (arrival w)) (lookup (arrival w) k);
                })
                else lookup (arrival w) j))
  compare_and_swap_atomic k x v d w b h =
      let (m, e) = expiration_ok r k x v d w b h in
      let (p, q) = swapped r k x v d m w b e h in
      (
        ground arith,
        λ j.
            rw
              (
                q,
                lookup-compare_and_swap_script r k x v m (arrival w) j,
                deadline-update_expiration_to_ms d m (clock (arrival w)) (lookup (arrival w) k) e,
              )
              (ground arith),
      )

  -- CompareAndDelete likewise: true exactly if the key held the expected string, and then the key
  -- is gone; no other key changes, and on false none does.
  pub compare_and_delete_atomic :
      (k x : String) (w : World State) (b : Bool)
      → (compare_and_delete r k x w).0 ≡ ok b
      → (b ≡ holds (lookup (arrival w) k) x)
        × ((j : String)
            → lookup (compare_and_delete r k x w).1.server j
              ≡ (if b && str_eq k j then none else lookup (arrival w) j))
  unfolding compare_and_delete
  compare_and_delete_atomic k x w b h =
      let (n, e, f, g) = asked_ok (compare_and_delete_script r k x) w b h in
      (
        ground (arith, compare_and_delete_script_lem r k x (arrival w)),
        λ j.
            rw (g, lookup-compare_and_delete_script r k x (arrival w) j)
              (ground (arith, compare_and_delete_script_lem r k x (arrival w))),
      )

  -- A negative expiration other than KeepTTL is refused before any request is made.
  pub compare_and_swap_invalid_ttl :
      (k x v : String) (n : ℕ) (w : World State)
      → compare_and_swap r k x v (negsuc (suc n)) w ≡ (fail invalid_ttl, w)
  unfolding compare_and_swap update_expiration_to_ms
  compare_and_swap_invalid_ttl k x v n w = ground arith

  -- HCompareAndSwap: true exactly if the hash field held the expected string. Then the field holds
  -- the new one, the other fields, the hash's expiration and the other keys are as they were; on
  -- false every key is.
  pub h_compare_and_swap_atomic :
      (k f x v : String) (w : World State) (b : Bool)
      → (h_compare_and_swap r k f x v w).0 ≡ ok b
      → (b ≡ field_holds (lookup (arrival w) k) f x)
        × ((g : String)
            → hget_reply g (lookup (h_compare_and_swap r k f x v w).1.server k)
              ≡ (if b && str_eq f g then ok (some v) else hget_reply g (lookup (arrival w) k)))
        × (deadline_of (lookup (h_compare_and_swap r k f x v w).1.server k)
            ≡ deadline_of (lookup (arrival w) k))
        × ((j : String)
            → (if str_eq k j then none else lookup (h_compare_and_swap r k f x v w).1.server j)
              ≡ (if str_eq k j then none else lookup (arrival w) j))
  unfolding h_compare_and_swap
  h_compare_and_swap_atomic k f x v w b h =
      let (n, e, d, g) = asked_ok (hash_compare_and_swap_script r k f x v) w b h in
      let reply = hash_compare_and_swap_script_lem r k f x v (arrival w) in
      let after = lookup-hash_compare_and_swap_script r k f x v (arrival w) in
      let old = lookup (arrival w) k in
      let (c, found, m) = verdict_ok (hget_reply f old) x n (ground arith) in
      (
        ground arith,
        (λ i. rw (g, after k) (ground (arith, str_eq_iff k k, hget-field_put f v i old c found))),
        rw (g, after k) (ground (arith, deadline-field_put f v old)),
        λ j. rw (g, after j) (ground arith),
      )

  -- Undisturbed, CompareAndDelete answers whether the string that the key holds, if any, is the
  -- expected one.
  pub compare_and_delete_quiet :
      (k x : String) (w : World State) (c : Option String)
      → w.schedule ≡ []
      → get_reply (lookup w.server k) ≡ ok c
      → (compare_and_delete r k x w).0 ≡ ok (not (differs c x))
  unfolding compare_and_delete
  compare_and_delete_quiet k x w c q h = ground (
    arith,
    round_trip_quiet (compare_and_delete_script r k x) w q,
    compare_and_delete_script_lem r k x w.server,
  )

  -- Whatever its answer, CompareAndDelete is one round trip of its script.
  pub compare_and_delete_trip :
      (k x : String) (w : World State)
      → (compare_and_delete r k x w).1 ≡ (round_trip (compare_and_delete_script r k x) w).1
  unfolding compare_and_delete
  compare_and_delete_trip k x w = ground arith
