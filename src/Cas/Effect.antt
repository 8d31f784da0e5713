-- ===== src/Cas/Effect.antt =====
-- What the scripts of cas.go reply and leave behind, as functions of the entry at the key.
use xredis.Prelude.{
  ℕ, ◌≡◌, refl, String, Bool, false, Option, none, some, [], ◌∷◌, ℤ, arith, str_eq, not, ◌&&◌,
  if◌then◌else◌,
}
use xredis.Exec.{Result, ok, err}
use xredis.Redis.{
  Redis, IsPositive, str, get_reply, ttl_deadline, hget_reply, fields_of, or_keep, entry_of_fields,
  put_field, remove_field, deadline_of,
}
use xredis.Cas.{
  differs, ttl_of, compare_and_delete_script, compare_and_swap_script,
  hash_compare_and_delete_script, hash_compare_and_swap_script,
}

-- The script goes on to its write.
abbrev pub agrees : Result (Option String) → String → Bool
agrees (ok current) expected = not (differs current expected)
agrees (err e) expected = false

abbrev pub verdict : Result (Option String) → String → Result ℕ
verdict (ok current) expected = ok (if differs current expected then 0 else 1)
verdict (err e) expected = err e

pub verdict_ok :
    (q : Result (Option String)) (x : String) (n : ℕ)
    → verdict q x ≡ ok n
    → (c : Option String) × (q ≡ ok c) × (n ≡ (if differs c x then 0 else 1))
verdict_ok (ok c) x n h = (c, refl, ground arith)
verdict_ok (err e) x n h = absurd (ground arith)

pub ttl_of-IsPositive : (n : ℤ) → IsPositive (ttl_of n)
ttl_of-IsPositive n = ground arith

module _ (r : Redis) where
  open r use {
    State, lookup, clock, get_lem, hget_lem, set_lem, lookup-set, del_lem, lookup-del, hset_lem,
    lookup-hset, hdel_lem, lookup-hdel,
  }

  pub compare_and_swap_script_lem :
      (k x v : String) (n : ℤ) (s : State)
      → (compare_and_swap_script r k x v n s).0 ≡ verdict (get_reply (lookup s k)) x
  unfolding compare_and_swap_script
  compare_and_swap_script_lem k x v n s =
      ground (arith, get_lem s k, set_lem k v (ttl_of n) s (ttl_of-IsPositive n))

  pub lookup-compare_and_swap_script :
      (k x v : String) (n : ℤ) (s : State) (j : String)
      → lookup (compare_and_swap_script r k x v n s).1 j ≡ (
          if agrees (get_reply (lookup s k)) x && str_eq k j
          then some
              (record { value = str v; deadline = ttl_deadline (ttl_of n) (clock s) (lookup s k) })
          else lookup s j)
  unfolding compare_and_swap_script
  lookup-compare_and_swap_script k x v n s j = ground (
    arith,
    get_lem s k,
    set_lem k v (ttl_of n) s (ttl_of-IsPositive n),
    lookup-set k v (ttl_of n) s j (ttl_of-IsPositive n),
  )

  pub compare_and_delete_script_lem :
      (k x : String) (s : State)
      → (compare_and_delete_script r k x s).0 ≡ verdict (get_reply (lookup s k)) x
  unfolding compare_and_delete_script
  compare_and_delete_script_lem k x s = ground (arith, get_lem s k, del_lem k s)

  pub lookup-compare_and_delete_script :
      (k x : String) (s : State) (j : String)
      → lookup (compare_and_delete_script r k x s).1 j
        ≡ (if agrees (get_reply (lookup s k)) x && str_eq k j then none else lookup s j)
  unfolding compare_and_delete_script
  lookup-compare_and_delete_script k x s j = ground (arith, get_lem s k, lookup-del k s j)

  pub hash_compare_and_swap_script_lem :
      (k f x v : String) (s : State)
      → (hash_compare_and_swap_script r k f x v s).0 ≡ verdict (hget_reply f (lookup s k)) x
  unfolding hash_compare_and_swap_script
  hash_compare_and_swap_script_lem k f x v s =
      ground (arith, hget_lem s k f, hset_lem k ((f, v) ∷ []) s)

  pub lookup-hash_compare_and_swap_script :
      (k f x v : String) (s : State) (j : String)
      → lookup (hash_compare_and_swap_script r k f x v s).1 j ≡ (
          if agrees (hget_reply f (lookup s k)) x && str_eq k j
          then or_keep
              (λ fs. entry_of_fields (put_field f v fs) (deadline_of (lookup s k)))
              (fields_of (lookup s k))
              (lookup s k)
          else lookup s j)
  unfolding hash_compare_and_swap_script
  lookup-hash_compare_and_swap_script k f x v s j =
      ground (arith, hget_lem s k f, hset_lem k ((f, v) ∷ []) s, lookup-hset k ((f, v) ∷ []) s j)

  pub hash_compare_and_delete_script_lem :
      (k f x : String) (s : State)
      → (hash_compare_and_delete_script r k f x s).0 ≡ verdict (hget_reply f (lookup s k)) x
  unfolding hash_compare_and_delete_script
  hash_compare_and_delete_script_lem k f x s = ground (arith, hget_lem s k f, hdel_lem k f s)

  pub lookup-hash_compare_and_delete_script :
      (k f x : String) (s : State) (j : String)
      → lookup (hash_compare_and_delete_script r k f x s).1 j ≡ (
          if agrees (hget_reply f (lookup s k)) x && str_eq k j
          then or_keep
              (λ fs. entry_of_fields (remove_field f fs) (deadline_of (lookup s k)))
              (fields_of (lookup s k))
              (lookup s k)
          else lookup s j)
  unfolding hash_compare_and_delete_script
  lookup-hash_compare_and_delete_script k f x s j =
      ground (arith, hget_lem s k f, hdel_lem k f s, lookup-hdel k f s j)
