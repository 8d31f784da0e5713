-- ===== src/Client/Counter.antt =====
-- Counters: a string that holds an integer, and which only grows while nobody takes it back.
use xredis.Prelude.{
  ap, ℕ, ◌+◌, ◌<◌, ◌≡◌, refl, sym, subst, ◌⊎◌, inl, inr, String, Option, none, some, List, [], ◌∷◌,
  All, ℤ, pos, ltb_ℤ, ◌+ℤ◌, ◌≤ℤ◌, arith, str_eq_iff, ◌∙◌, Bool-cases,
}
use xredis.Errors.{Error}
use xredis.Exec.{Result, ok, err, Exec}
use xredis.Exec.Invert.{Result-cases}
use xredis.Redis.{Redis, Entry, with_deadline, int_of, str_entry, max_int64, not_integer}
use xredis.Client.{World, Event, round_trip}
use xredis.Client.Safe.{IsSafe, SamePlace, round_trip-IsSafe, All-round_trip}

module _ (r : Redis) where
  open r use {
    State, lookup, read_int, show_int, read_int-show_int, incr_lem, lookup-incr, incr, clock,
    lookup-pexpire,
  }

  -- The counter that a key holds, if it holds one; a missing key counts as 0.
  abbrev pub counter : State → String → Result ℤ
  counter s k = int_of read_int (lookup s k)

  pub counter-with_deadline :
      (t : Option ℕ) (e : Option Entry) → int_of read_int (with_deadline t e) ≡ int_of read_int e
  counter-with_deadline t none = refl
  counter-with_deadline t (some e) = refl

  pub counter-str_entry :
      (old : Option Entry) (n : ℤ) → int_of read_int (str_entry show_int old n) ≡ ok n
  counter-str_entry old n = ground (arith, read_int-show_int n)

  pub incr-cases :
      (f : String) (s : State)
      → ((e : Error) × ((incr f s).0 ≡ err e) × (counter (incr f s).1 f ≡ counter s f))
        ⊎ ((m : ℤ) × ((incr f s).0 ≡ ok (m +ℤ pos 1))
            × (counter s f ≡ ok m)
            × (counter (incr f s).1 f ≡ ok (m +ℤ pos 1)))
  incr-cases f s = elim (Result-cases (counter s f)) [
    | inr (e, q) ↦ inl (e, incr_lem f s ∙ rw q, ground (arith, lookup-incr f s f, str_eq_iff f f))
    | inl (m, q) ↦ elim (Bool-cases (ltb_ℤ m max_int64)) [
      | inr full ↦ inl (
        not_integer,
        incr_lem f s ∙ rw q (rw full),
        ground (arith, lookup-incr f s f, str_eq_iff f f),
      )
      | inl room ↦ inr (
        m,
        incr_lem f s ∙ rw q (rw room),
        q,
        ground
            (arith, lookup-incr f s f, str_eq_iff f f, counter-str_entry (lookup s f) (m +ℤ pos 1)),
      )
    ]
  ]

  -- PEXPIRE on any key leaves the counters.
  pub counter-pexpire :
      (k : String) (ms : ℕ) (s : State) (j : String)
      → 0 < ms
      → counter (r.pexpire k ms s).1 j ≡ counter s j
  counter-pexpire k ms s j p =
      ap (int_of read_int) (lookup-pexpire k ms s j p)
      ∙ ground (arith, counter-with_deadline (some (clock s + ms)) (lookup s k), str_eq_iff k j)

  -- The counter is a number, and not below this one.
  abbrev pub AtLeast : String → ℤ → State → Type 0
  AtLeast f n s = (m : ℤ) × (counter s f ≡ ok m) × (n ≤ℤ m)

  -- Whatever the counter has reached, it keeps: others may add to it, and do not reset it.
  abbrev pub Leaves : String → Event State → Type 0
  Leaves f e = (n : ℤ) (s : State) → AtLeast f n s → AtLeast f n (e.others s)

module _ (r : Redis) (f : String) where
  open r use {State}

  -- The start, and what may come: the counter has reached this number and nobody takes it back.
  pub record Stands (n : ℤ) (w : World State) : Type 0 where
    pub reached : AtLeast r f n w.server
    pub kept : All (Leaves r f) w.schedule

  pub Leaves-at :
      (n : ℤ) (l : List (Event State))
      → All (Leaves r f) l
      → All (λ (e : Event State). (s : State) → AtLeast r f n s → AtLeast r f n (e.others s)) l
  Leaves-at n [] h = tt
  Leaves-at n (e ∷ l) h = (h.0 n, Leaves-at n l h.1)

  pub Stands-IsSafe : {n : ℤ} {w : World State} → Stands n w → IsSafe (AtLeast r f n) w
  Stands-IsSafe {n} {w} h = record { now = h.reached; later = Leaves-at n w.schedule h.kept }

  pub Stands-same : {n : ℤ} {u v : World State} → SamePlace u v → Stands n v → Stands n u
  Stands-same {n} p h = record {
    reached = subst (AtLeast r f n) (sym p.0) h.reached;
    kept = subst (All (Leaves r f)) (sym p.1) h.kept;
  }

  pub Stands-round_trip :
      {A : Type 0} (n : ℤ) (command : Exec State A) (w : World State)
      → ((s : State) → AtLeast r f n s → AtLeast r f n (command s).1)
      → Stands n w
      → Stands n (round_trip command w).1
  Stands-round_trip n command w keeps h = record {
    reached = (round_trip-IsSafe (AtLeast r f n) command keeps w (Stands-IsSafe h)).now;
    kept = All-round_trip (Leaves r f) command w h.kept;
  }
