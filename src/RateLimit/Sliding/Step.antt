-- ===== src/RateLimit/Sliding/Step.antt =====
-- What one run of the sliding-window script does to the set of requests at its key.
use xredis.Prelude.{
  ℕ, suc, ◌+◌, ◌<◌, ◌≡◌, refl, ap, ◌∙◌, ◌⊎◌, inl, inr, String, Option, none, some, List, [], ◌∷◌, ℤ,
  pos, pos_part, ◌<ℤ◌, ◌-ℤ◌, ltb, ltb_ℤ, length, str_eq_iff, arith, Bool-cases,
}
use xredis.Exec.{Result, ok}
use xredis.Exec.Invert.{Result-cases}
use xredis.Redis.{
  Redis, Entry, Any, members_of, entry_of_members, deadline_of, with_deadline, drop_upto,
  put_member,
}
use xredis.RateLimit.{parse_rate_limit_decision}
use xredis.RateLimit.Script.{Rejects}
use xredis.RateLimit.Sliding.{refresh_window, report, record_request, sliding_window_script}

members_of-entry_of_members :
    (ms : List (ℤ × String)) (t : Option ℕ) → members_of (entry_of_members ms t) ≡ ok ms
members_of-entry_of_members [] t = refl
members_of-entry_of_members (m ∷ ms) t = refl

deadline-entry_of_members :
    (ms : List (ℤ × String)) (t : Option ℕ)
    → (deadline_of (entry_of_members ms t) ≡ none) ⊎ (deadline_of (entry_of_members ms t) ≡ t)
deadline-entry_of_members [] t = inl refl
deadline-entry_of_members (m ∷ ms) t = inr refl

members_of-with_deadline :
    (t : Option ℕ) (e : Option Entry) → members_of (with_deadline t e) ≡ members_of e
members_of-with_deadline t none = refl
members_of-with_deadline t (some e) = refl

deadline-with_deadline :
    (t : Option ℕ) (e : Option Entry)
    → (deadline_of (with_deadline t e) ≡ none) ⊎ (deadline_of (with_deadline t e) ≡ t)
deadline-with_deadline t none = inl refl
deadline-with_deadline t (some e) = inr refl

module _ (r : Redis) (k : String) where
  open r use {
    State, clock, lookup, zrange_lem, zremrangebyscore, zremrangebyscore_lem,
    lookup-zremrangebyscore, clock-zremrangebyscore, zadd, zadd_lem, lookup-zadd, clock-zadd,
    pexpire, pexpire_lem, lookup-pexpire, clock-pexpire,
  }

  -- The requests at the key, and the clock.
  pub record Holds (s : State) (ms : List (ℤ × String)) (now : ℕ) : Type 0 where
    pub stored : members_of (lookup s k) ≡ ok ms
    pub at : clock s ≡ now

  -- The key has no deadline, the one that it had, or one a window from now.
  abbrev pub Expires : State → State → ℕ → Type 0
  Expires t s until =
      (deadline_of (lookup t k) ≡ none)
      ⊎ (deadline_of (lookup t k) ≡ deadline_of (lookup s k))
      ⊎ (deadline_of (lookup t k) ≡ some until)

  abbrev pub Renewed : State → ℕ → Type 0
  Renewed t until = (deadline_of (lookup t k) ≡ none) ⊎ (deadline_of (lookup t k) ≡ some until)

  pub pruned :
      (max : ℤ) (s : State) (ms : List (ℤ × String)) (now : ℕ)
      → Holds s ms now
      → Holds (zremrangebyscore k max s).1 (drop_upto max ms) now
        × ((deadline_of (lookup (zremrangebyscore k max s).1 k) ≡ none)
            ⊎ (deadline_of (lookup (zremrangebyscore k max s).1 k) ≡ deadline_of (lookup s k)))
  pruned max s ms now h =
      let after : lookup (zremrangebyscore k max s).1 k
          ≡ entry_of_members (drop_upto max ms) (deadline_of (lookup s k)) =
        lookup-zremrangebyscore k max s k ∙ ground (arith, str_eq_iff k k, h.stored) in
      (
        record {
          stored =
              ap members_of after
              ∙ members_of-entry_of_members (drop_upto max ms) (deadline_of (lookup s k));
          at = clock-zremrangebyscore k max s ∙ h.at;
        },
        rw after (deadline-entry_of_members (drop_upto max ms) (deadline_of (lookup s k))),
      )

  pub expiring :
      (n : ℕ) (s : State) (ms : List (ℤ × String)) (now : ℕ)
      → 0 < n
      → Holds s ms now
      → Holds (pexpire k n s).1 ms now × Renewed (pexpire k n s).1 (now + n)
  expiring n s ms now p h =
      let after : lookup (pexpire k n s).1 k ≡ with_deadline (some (now + n)) (lookup s k) =
        lookup-pexpire k n s k p ∙ ground (arith, str_eq_iff k k, h.at) in
      (
        record {
          stored =
              ap members_of after
              ∙ members_of-with_deadline (some (now + n)) (lookup s k)
              ∙ h.stored;
          at = clock-pexpire k n s ∙ h.at;
        },
        rw after (deadline-with_deadline (some (now + n)) (lookup s k)),
      )

  pub added :
      (score : ℤ) (m : String) (s : State) (ms : List (ℤ × String)) (now : ℕ)
      → Holds s ms now
      → Holds (zadd k score m s).1 (put_member score m ms) now
  added score m s ms now h =
      let after : lookup (zadd k score m s).1 k
          ≡ entry_of_members (put_member score m ms) (deadline_of (lookup s k)) =
        lookup-zadd k score m s k ∙ ground (arith, str_eq_iff k k, h.stored) in
      record {
        stored =
            ap members_of after
            ∙ members_of-entry_of_members (put_member score m ms) (deadline_of (lookup s k));
        at = clock-zadd k score m s ∙ h.at;
      }

  pub refreshed :
      (window : ℤ) (current : ℕ) (s : State) (ms : List (ℤ × String)) (now : ℕ)
      → 0 < pos_part window
      → Holds s ms now
      → Holds (refresh_window r k window current s).1 ms now
        × Expires (refresh_window r k window current s).1 s (now + pos_part window)
        × ((n : ℕ) × ((refresh_window r k window current s).0 ≡ ok n))
  unfolding refresh_window
  refreshed window current s ms now p h = elim (Bool-cases (ltb 0 current)) [
    | inr no_ ↦ rw no_ (h, inr (inl refl), (0, refl))
    | inl yes_ ↦ elim (Bool-cases (ltb_ℤ (r.pttl s k) (pos 0))) [
      | inr no_ ↦ rw (yes_, no_) (h, inr (inl refl), (0, refl))
      | inl low ↦
          let (held, until) = expiring (pos_part window) s ms now p h in
          rw (yes_, low)
            (
              held,
              elim until [ inl e ↦ inl e | inr e ↦ inr (inr e) ],
              (_, pexpire_lem k (pos_part window) s p),
            )
    ]
  ]

  chained :
      (s t u : State) (until : ℕ)
      → (deadline_of (lookup t k) ≡ none) ⊎ (deadline_of (lookup t k) ≡ deadline_of (lookup s k))
      → Expires u t until
      → Expires u s until
  chained s t u until p (inl e) = inl e
  chained s t u until (inl p) (inr (inl e)) = inl (e ∙ p)
  chained s t u until (inr p) (inr (inl e)) = inr (inl (e ∙ p))
  chained s t u until p (inr (inr e)) = inr (inr e)

  -- The report only reads, and a report of no allowance is read as a rejection.
  report_same :
      (limit window now allowed current : ℤ) (s : State)
      → (report r k limit window now allowed current s).1 ≡ s
  unfolding report
  report_same limit window now allowed current s = elim (Result-cases (r.zrange s k)) [
    | inl (ms, e) ↦ rw e refl
    | inr (x, e) ↦ rw e refl
  ]

  report-Rejects :
      (limit window now current : ℤ) (s : State)
      → Rejects (report r k limit window now (pos 0) current s).0
  unfolding report parse_rate_limit_decision
  report-Rejects limit window now current s l d e p = elim (Result-cases (r.zrange s k)) [
    | inl (ms, f) ↦ ground arith
    | inr (x, f) ↦ absurd (ground arith)
  ]

  -- Either the script rejects and only drops what the window has left behind, or it found fewer
  -- requests than the limit in the window and adds this one, for a whole window.
  abbrev pub Stepped :
      State → Result (List Any) × State → ℤ → ℤ → String → ℕ → List (ℤ × String) → Type 0
  Stepped s q limit window m now ms =
      (Holds q.1 ms now × Expires q.1 s (now + pos_part window) × Rejects q.0)
      ⊎ ((pos (length ms) <ℤ limit)
          × Holds q.1 (put_member (pos now) m ms) now
          × Renewed q.1 (now + pos_part window))

  recorded :
      (limit window : ℤ) (m : String) (s t : State) (ms : List (ℤ × String)) (now : ℕ)
      → 0 < pos_part window
      → Holds t ms now
      → Expires t s (now + pos_part window)
      → Stepped s (record_request r k limit window m (pos now) (length ms) t) limit window m now ms
  unfolding record_request
  recorded limit window m s t ms now p h kept = elim (Bool-cases (ltb_ℤ (pos (length ms)) limit)) [
    | inr full ↦ inl (
      rw (full, report_same limit window (pos now) (pos 0) (pos (length ms)) t) h,
      rw (full, report_same limit window (pos now) (pos 0) (pos (length ms)) t) kept,
      rw full (report-Rejects limit window (pos now) (pos (length ms)) t),
    )
    | inl room ↦
        let (a, adds) = zadd_lem k (pos now) m t ms h.stored in
        let t1 : State = (zadd k (pos now) m t).1 in
        let (last, until) =
          expiring (pos_part window) t1 (put_member (pos now) m ms) now p
            (added (pos now) m t ms now h) in
        let ran = pexpire_lem k (pos_part window) t1 p in
        let same =
          report_same limit window (pos now) (pos 1) (pos (suc (length ms)))
            (pexpire k (pos_part window) t1).1 in
        inr (ground arith, rw (room, adds, ran, same) last, rw (room, adds, ran, same) until)
  ]

  pub sliding_window_script-Stepped :
      (limit window : ℤ) (m : String) (s : State) (ms : List (ℤ × String)) (now : ℕ)
      → 0 < pos_part window
      → Holds s ms now
      → Stepped s
          (sliding_window_script r k limit window m s)
          limit
          window
          m
          now
          (drop_upto (pos now -ℤ window) ms)
  unfolding sliding_window_script
  sliding_window_script-Stepped limit window m s ms now p h =
      let max : ℤ = pos now -ℤ window in
      let left : List (ℤ × String) = drop_upto max ms in
      let (n, dropped) = zremrangebyscore_lem k max s ms h.stored in
      let (held, old) = pruned max s ms now h in
      let s1 : State = (zremrangebyscore k max s).1 in
      let (again, kept, (c, ran)) = refreshed window (length left) s1 left now p held in
      let s2 : State = (refresh_window r k window (length left) s1).1 in
      rw (h.at, dropped, zrange_lem s1 k, held.stored, ran)
        (recorded limit window m s s2 left now p again
          (chained s s1 s2 (now + pos_part window) old kept))
