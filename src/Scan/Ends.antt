-- ===== src/Scan/Ends.antt =====
-- The loop of scanNode ends wherever SCAN does.
use xredis.Prelude.{
  ℕ, zero, suc, ◌<◌, ◌≡◌, ◌≢◌, refl, sym, ◌∙◌, ◌⊎◌, inl, inr, String, Option, none, some, List,
  arith, Option-cases,
}
use xredis.Errors.{Error, stuck}
use xredis.Exec.{Exec, Result, ok, err}
use xredis.Exec.Invert.{Result-cases}
use xredis.Scan.{ScanOptions, KeyScanner, scan_page, handed, scan_node}
use xredis.Scan.Loop.{at_cursor, scan_node_step, further_step}

same_error :
    {A B : Type 0} (e f : Error)
    → ◌≡◌ {A = Result A} (err e) (err f)
    → ◌≡◌ {A = Result B} (err e) (err f)
same_error e f h = let p : e ≡ f = ground arith in λ i. err (p i)

module _ {W : Type 0} (ctx_err : W → Option Error) (client : KeyScanner W)
    (fn : List String → Exec W (Unit {0})) where
  -- A round that goes on ranks what is left below what there was.
  abbrev pub Shrinks : (ScanOptions → W → ℕ) → Type 0
  Shrinks rank =
      (o : ScanOptions) (w u v : W) (keys : List String) (next : ℕ)
      → scan_page client o w ≡ (ok (keys, suc next), u)
      → handed fn keys u ≡ (ok tt, v)
      → rank (at_cursor ctx_err client fn o (suc next)) v < rank o w

  -- What the loop calls does not itself report that the model is stuck.
  pub record Sound : Type 0 where
    pub context : (w : W) → ctx_err w ≢ some stuck
    pub page : (o : ScanOptions) (w : W) → (scan_page client o w).0 ≢ err stuck
    pub handler : (keys : List String) (w : W) → (handed fn keys w).0 ≢ err stuck

  -- A round: it ends the loop whatever the fuel, or goes on.
  abbrev Round : ScanOptions → W → Type 0
  Round o w =
      ((q : Result (Unit {0}) × W) × (Sound → q.0 ≢ err stuck)
        × ((fuel : ℕ) → scan_node ctx_err (suc fuel) client o fn w ≡ q))
      ⊎ ((keys : List String) × (next : ℕ) × (u : W) × (v : W) × (ctx_err w ≡ none)
          × (scan_page client o w ≡ (ok (keys, suc next), u))
          × (handed fn keys u ≡ (ok tt, v)))

  handled :
      (o : ScanOptions) (w u v : W) (keys : List String) (next : ℕ)
      → ctx_err w ≡ none
      → scan_page client o w ≡ (ok (keys, next), u)
      → handed fn keys u ≡ (ok tt, v)
      → Round o w
  handled o w u v keys zero a b c = inl (
    (ok tt, v),
    (λ s e. absurd (ground arith)),
    λ fuel. scan_node_step ctx_err client fn fuel o w u v keys 0 a b c,
  )
  handled o w u v keys (suc next) a b c = inr (keys, next, u, v, a, b, c)

  rounds : (o : ScanOptions) (w : W) → Round o w
  unfolding scan_node
  rounds o w = elim (Option-cases (ctx_err w)) [
    | inr (e, p) ↦ inl ((err e, w), (λ s f. s.context w (ground arith)), λ fuel. rw p refl)
    | inl p ↦ elim (Result-cases (scan_page client o w).0) [
      | inr (e, q) ↦ inl (
        (err e, (scan_page client o w).1),
        (λ s f. s.page o w (q ∙ same_error e stuck f)),
        λ fuel. rw (p, q) refl,
      )
      | inl ((keys, next), q) ↦
          let u : W = (scan_page client o w).1 in
          elim (Result-cases (handed fn keys u).0) [
            | inr (e, f) ↦ inl (
              (err e, (handed fn keys u).1),
              (λ s g. s.handler keys u (f ∙ g)),
              λ fuel. rw (p, q, f) refl,
            )
            | inl (t, f) ↦
                handled o w u (handed fn keys u).1 keys next p (λ i. (q i, u))
                  (λ i. (f i, (handed fn keys u).1))
          ]
    ]
  ]

  module _ (rank : ScanOptions → W → ℕ) (shrinks : Shrinks rank) where
    stable :
        (f g : ℕ) (o : ScanOptions) (w : W)
        → rank o w < f
        → rank o w < g
        → scan_node ctx_err f client o fn w ≡ scan_node ctx_err g client o fn w
    stable zero g o w p q = absurd (omega (arith, p))
    stable (suc f) zero o w p q = absurd (omega (arith, q))
    stable (suc f) (suc g) o w p q = elim (rounds o w) [
      | inl (out, sound, e) ↦ e f ∙ sym (e g)
      | inr (keys, next, u, v, a, b, c) ↦
          let less = shrinks o w u v keys next b c in
          further_step ctx_err client fn f o w u v keys next a b c
          ∙ stable f g (at_cursor ctx_err client fn o (suc next)) v (omega (arith, p, less))
              (omega (arith, q, less))
          ∙ sym (further_step ctx_err client fn g o w u v keys next a b c)
    ]

    never_stuck :
        (f : ℕ) (o : ScanOptions) (w : W)
        → Sound
        → rank o w < f
        → (scan_node ctx_err f client o fn w).0 ≢ err stuck
    never_stuck zero o w s p = absurd (omega (arith, p))
    never_stuck (suc f) o w s p = elim (rounds o w) [
      | inl (out, sound, e) ↦ rw (e f) (sound s)
      | inr (keys, next, u, v, a, b, c) ↦
          let less = shrinks o w u v keys next b c in
          rw (further_step ctx_err client fn f o w u v keys next a b c)
            (never_stuck f (at_cursor ctx_err client fn o (suc next)) v s (omega (arith, p, less)))
    ]

-- scanNode ends. If some rank of the options and the state goes down with every page that gives a
-- further cursor (SCAN comes to an end), then with fuel above the rank the loop does not run out,
-- and what it returns and leaves does not depend on the fuel.
pub scan_node_ends :
    {W : Type 0} (ctx_err : W → Option Error) (client : KeyScanner W)
    (fn : List String → Exec W (Unit {0})) (rank : ScanOptions → W → ℕ) (opts : ScanOptions) (w : W)
    (fuel more : ℕ)
    → Shrinks ctx_err client fn rank
    → Sound ctx_err client fn
    → rank opts w < fuel
    → rank opts w < more
    → ((scan_node ctx_err fuel client opts fn w).0 ≢ err stuck)
      × (scan_node ctx_err fuel client opts fn w ≡ scan_node ctx_err more client opts fn w)
scan_node_ends ctx_err client fn rank opts w fuel more shrinks sound p q = (
  never_stuck ctx_err client fn rank shrinks fuel opts w sound p,
  stable ctx_err client fn rank shrinks fuel more opts w p q,
)
