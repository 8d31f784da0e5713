-- ===== src/Fenced/Script.antt =====
-- What the scripts of lock_fencing.go do to the fencing counter.
use xredis.Prelude.{
  ℕ, ◌+◌, ◌<◌, ◌≡◌, ◌≢◌, refl, ◌⊎◌, inl, inr, String, true, false, some, List, [], ◌∷◌, ℤ, pos,
  pos_part, ltb_ℤ, ◌+ℤ◌, arith, str_eq, str_eq_iff, ◌==◌, ◌∙◌, ap, Bool-cases,
}
use xredis.Exec.{Result, ok}
use xredis.Redis.{Redis, Any, int64, px, int_of, count_reply}
use xredis.Client.Counter.{counter, counter-with_deadline, incr-cases, counter-pexpire}
use xredis.Cas.{compare_and_delete_script}
use xredis.Cas.Effect.{lookup-compare_and_delete_script}
use xredis.Fenced.{
  lock_acquire_fenced_script, lock_extend_fenced_script, refresh, parse_fenced_lock_result,
}

module _ (r : Redis) where
  open r use {
    State, lookup, clock, read_int, show_int, read_int-show_int, exists_lem, incr_lem, lookup-incr,
    set_lem, lookup-set, pexpire_lem, lookup-pexpire, incr, set, lua,
  }

  -- PEXPIRE on any key leaves the counters.
  pub counter-refresh :
      (k : String) (ms : ℤ) (s : State) (j : String)
      → counter r (refresh r k ms s).1 j ≡ counter r s j
  counter-refresh k ms s j = elim (Bool-cases (ltb_ℤ (pos 0) ms)) [
    | inl up ↦ rw up (
        ap (int_of read_int) (lookup-pexpire k (pos_part ms) s j (ground arith))
        ∙ ground (
          arith,
          counter-with_deadline r (some (clock s + pos_part ms)) (lookup s k),
          str_eq_iff k j,
        ))
    | inr down ↦ rw down
  ]

  refresh_ok : (k : String) (ms : ℤ) (s : State) → (n : ℕ) × ((refresh r k ms s).0 ≡ ok n)
  refresh_ok k ms s = elim (Bool-cases (ltb_ℤ (pos 0) ms)) [
    | inl up ↦ rw up (count_reply (lookup s k), pexpire_lem k (pos_part ms) s (ground arith))
    | inr down ↦ rw down (0, refl)
  ]

  counter-set :
      (k t f : String) (ms : ℕ) (s : State)
      → str_eq k f ≡ false
      → 0 < ms
      → counter r (set k t (px ms) s).1 f ≡ counter r s f
  counter-set k t f ms s d p = ap (int_of read_int) (lookup-set k t (px ms) s f p ∙ rw d)

  -- Either the script grants nothing and leaves the counter, or it adds one to it and grants the
  -- new value, as Lua replies it.
  abbrev pub Counted : String → State → Result (List Any) × State → Type 0
  Counted f s q =
      ((counter r q.1 f ≡ counter r s f)
        × ((l : List Any) (t : ℤ) → q.0 ≡ ok l → parse_fenced_lock_result l ≢ ok (true, t)))
      ⊎ ((m : ℤ) × (counter r s f ≡ ok m)
          × (counter r q.1 f ≡ ok (m +ℤ pos 1))
          × (q.0 ≡ ok (int64 (pos 1) ∷ int64 (lua.reply (lua.int (m +ℤ pos 1))) ∷ [])))

  pub acquire-Counted :
      (k f t : String) (lock_ms counter_ms : ℤ) (s : State)
      → str_eq k f ≡ false
      → 0 < pos_part lock_ms
      → Counted f s (lock_acquire_fenced_script r k f t lock_ms counter_ms s)
  unfolding lock_acquire_fenced_script parse_fenced_lock_result
  acquire-Counted k f t lock_ms counter_ms s d p = elim (Bool-cases (r.exists s k == 1)) [
    | inl taken ↦ rw taken (inl (refl, λ l n e g. ground arith))
    | inr free ↦ rw free (elim (incr-cases r f s) [
      | inl (e, q, same) ↦ rw q (inl (same, λ l n h g. ground arith))
      | inr (m, q, old, new) ↦
          let s1 = (incr f s).1 in
          let s2 = (set k t (px (pos_part lock_ms)) s1).1 in
          let (i, quiet) = refresh_ok f counter_ms s2 in
          rw (q, set_lem k t (px (pos_part lock_ms)) s1 p, quiet)
            (inr (
              m,
              old,
              counter-refresh f counter_ms s2 f ∙ counter-set k t f (pos_part lock_ms) s1 d p ∙ new,
              refl,
            ))
    ])
  ]

  -- An extension leaves every counter.
  pub counter-extend :
      (k f t : String) (lock_ms counter_ms : ℤ) (s : State) (j : String)
      → 0 < pos_part lock_ms
      → counter r (lock_extend_fenced_script r k f t lock_ms counter_ms s).1 j ≡ counter r s j
  unfolding lock_extend_fenced_script
  counter-extend k f t lock_ms counter_ms s j p =
      let s1 = (r.pexpire k (pos_part lock_ms) s).1 in
      ground (
        arith,
        counter-pexpire r k (pos_part lock_ms) s j p,
        counter-refresh f counter_ms s1 j,
        refresh_ok f counter_ms s1,
        pexpire_lem k (pos_part lock_ms) s p,
      )

  -- So does a deletion of another key.
  pub counter-compare_and_delete_script :
      (k t f : String) (s : State)
      → str_eq k f ≡ false
      → counter r (compare_and_delete_script r k t s).1 f ≡ counter r s f
  counter-compare_and_delete_script k t f s d =
      ap (int_of read_int) (lookup-compare_and_delete_script r k t s f ∙ ground arith)
