-- ===== src/RateLimit/Token/Times.antt =====
-- Times of requests in a list.
use xredis.Prelude.{
  ℕ, ◌+◌, ◌≡◌, refl, List, [], ◌∷◌, All, ℤ, ◌≤ℤ◌, ◌<ℤ◌, eqb_ℤ, arith, if◌then◌else◌,
}

-- How many of the times are `t`.
abbrev pub count : ℤ → List ℤ → ℕ
count t [] = 0
count t (u ∷ ts) = (if eqb_ℤ t u then 1 else 0) + count t ts

abbrev pub Before : ℤ → List ℤ → Type 0
Before t log = All (λ (u : ℤ). u <ℤ t) log

abbrev pub NotAfter : ℤ → List ℤ → Type 0
NotAfter t log = All (λ (u : ℤ). u ≤ℤ t) log

pub count-Before : (t : ℤ) (log : List ℤ) → Before t log → count t log ≡ 0
count-Before t [] p = refl
count-Before t (u ∷ log) p = ground (arith, count-Before t log p.1, p.0)

pub Before-NotAfter : (t u : ℤ) (log : List ℤ) → t <ℤ u → NotAfter t log → Before u log
Before-NotAfter t u [] h p = tt
Before-NotAfter t u (v ∷ log) h p = (omega arith, Before-NotAfter t u log h p.1)

pub NotAfter-mono : (t u : ℤ) (log : List ℤ) → t ≤ℤ u → NotAfter t log → NotAfter u log
NotAfter-mono t u [] h p = tt
NotAfter-mono t u (v ∷ log) h p = (omega arith, NotAfter-mono t u log h p.1)

pub NotAfter-Before : (t u : ℤ) (log : List ℤ) → t ≤ℤ u → Before t log → NotAfter u log
NotAfter-Before t u [] h p = tt
NotAfter-Before t u (v ∷ log) h p = (omega arith, NotAfter-Before t u log h p.1)
