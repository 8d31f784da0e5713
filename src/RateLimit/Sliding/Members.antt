-- ===== src/RateLimit/Sliding/Members.antt =====
-- Sorted sets of requests: how many are later than a time, through the commands of the script.
use xredis.Prelude.{
  ℕ, ◌+◌, ◌≤◌, ◌≡◌, refl, String, false, List, [], ◌∷◌, All, ℤ, ◌≤ℤ◌, ltb_ℤ, length, str_eq, arith,
  if◌then◌else◌,
}
use xredis.Redis.{drop_upto, without_member, insert_scored, put_member}

-- How many members are scored above `c`.
abbrev pub recent : ℤ → List (ℤ × String) → ℕ
recent c [] = 0
recent c ((n, m) ∷ ms) = (if ltb_ℤ c n then 1 else 0) + recent c ms

-- No member is `m`.
abbrev pub Lacks : String → List (ℤ × String) → Type 0
Lacks m ms = All (λ (p : ℤ × String). str_eq p.1 m ≡ false) ms

-- Every score is at most `c`.
abbrev pub Upto : ℤ → List (ℤ × String) → Type 0
Upto c ms = All (λ (p : ℤ × String). p.0 ≤ℤ c) ms

pub recent-drop_upto :
    (max c : ℤ) (ms : List (ℤ × String)) → max ≤ℤ c → recent c (drop_upto max ms) ≡ recent c ms
recent-drop_upto max c [] h = refl
recent-drop_upto max c ((n, m) ∷ ms) h = ground (arith, recent-drop_upto max c ms h)

pub recent-insert_scored :
    (c n : ℤ) (m : String) (ms : List (ℤ × String))
    → recent c (insert_scored n m ms) ≡ (if ltb_ℤ c n then 1 else 0) + recent c ms
recent-insert_scored c n m [] = ground arith
recent-insert_scored c n m ((k, x) ∷ ms) = ground (arith, recent-insert_scored c n m ms)

pub without_member-Lacks :
    (m : String) (ms : List (ℤ × String)) → Lacks m ms → without_member m ms ≡ ms
without_member-Lacks m [] h = refl
without_member-Lacks m ((n, x) ∷ ms) h = ground (arith, without_member-Lacks m ms h.1)

pub recent-put_member :
    (c n : ℤ) (m : String) (ms : List (ℤ × String))
    → Lacks m ms
    → recent c (put_member n m ms) ≡ (if ltb_ℤ c n then 1 else 0) + recent c ms
recent-put_member c n m ms h = rw (without_member-Lacks m ms h) (recent-insert_scored c n m ms)

pub recent-le-length : (c : ℤ) (ms : List (ℤ × String)) → recent c ms ≤ length ms
recent-le-length c [] = omega arith
recent-le-length c ((n, m) ∷ ms) = ground (arith, recent-le-length c ms)

pub recent-Upto : (c d : ℤ) (ms : List (ℤ × String)) → Upto d ms → d ≤ℤ c → recent c ms ≡ 0
recent-Upto c d [] h up = refl
recent-Upto c d ((n, m) ∷ ms) h up = ground (arith, recent-Upto c d ms h.1 up)

module _ (P : ℤ × String → Type 0) where
  pub All-drop_upto : (max : ℤ) (ms : List (ℤ × String)) → All P ms → All P (drop_upto max ms)
  All-drop_upto max [] h = tt
  All-drop_upto max ((n, m) ∷ ms) h = ground (arith, All-drop_upto max ms h.1)

  All-insert_scored :
      (n : ℤ) (m : String) (ms : List (ℤ × String))
      → P (n, m)
      → All P ms
      → All P (insert_scored n m ms)
  All-insert_scored n m [] p h = (p, tt)
  All-insert_scored n m ((k, x) ∷ ms) p h = ground (arith, All-insert_scored n m ms p h.1)

  pub All-put_member :
      (n : ℤ) (m : String) (ms : List (ℤ × String))
      → P (n, m)
      → All P ms
      → Lacks m ms
      → All P (put_member n m ms)
  All-put_member n m ms p h free =
      rw (without_member-Lacks m ms free) (All-insert_scored n m ms p h)
