-- ===== src/Scan/Loop.antt =====
-- The loop of scanNode against a relation: which keys a scan hands over, and where it ends.
use xredis.Prelude.{
  ℕ, zero, suc, ◌≤◌, ◌≡◌, refl, sym, ap, ◌∙◌, inl, inr, String, Option, none, List, ◌++◌, arith,
  ◌==◌, Bool-cases, Option-cases, if◌then◌else◌,
}
use xredis.Errors.{Error}
use xredis.Exec.{Exec, Result, ok}
use xredis.Exec.Invert.{Result-cases}
use xredis.Scan.{ScanOptions, KeyScanner, scan_page, handed, scan_node}

module _ {W : Type 0} (ctx_err : W → Option Error) (client : KeyScanner W)
    (fn : List String → Exec W (Unit {0})) where
  abbrev pub at_cursor : ScanOptions → ℕ → ScanOptions
  at_cursor opts n = record opts { cursor = n }

  -- A whole scan from the options' cursor: the context stands, each page is read, its keys are
  -- handled, and the scan goes on at the cursor that the page gave, until that is zero.
  pub data Visits : ScanOptions → W → List String → W → Type 0 where
    last :
        {opts : ScanOptions} {w u v : W} {keys : List String}
        → ctx_err w ≡ none
        → scan_page client opts w ≡ (ok (keys, 0), u)
        → handed fn keys u ≡ (ok tt, v)
        → Visits opts w keys v
    further :
        {opts : ScanOptions} {w u v x : W} {keys rest all : List String} {next : ℕ}
        → ctx_err w ≡ none
        → scan_page client opts w ≡ (ok (keys, suc next), u)
        → handed fn keys u ≡ (ok tt, v)
        → Visits (at_cursor opts (suc next)) v rest x
        → all ≡ keys ++ rest
        → Visits opts w all x

  abbrev pub pages : {opts : ScanOptions} {w v : W} {keys : List String} → Visits opts w keys v → ℕ
  pages (last a b c) = 1
  pages (further a b c d e) = suc (pages d)

  -- One round of the loop.
  pub scan_node_step :
      (fuel : ℕ) (opts : ScanOptions) (w u v : W) (keys : List String) (next : ℕ)
      → ctx_err w ≡ none
      → scan_page client opts w ≡ (ok (keys, next), u)
      → handed fn keys u ≡ (ok tt, v)
      → scan_node ctx_err (suc fuel) client opts fn w ≡ (
          if next == 0
          then (ok tt, v)
          else scan_node ctx_err fuel client (at_cursor opts next) fn v)
  unfolding scan_node
  scan_node_step fuel opts w u v keys next a b c = elim (Bool-cases (next == 0)) [
    | inl e ↦ rw (a, b, c, e) refl
    | inr e ↦ rw (a, b, c, e) refl
  ]

  abbrev pair : W → Result (Unit {0}) × W
  pair z = (ok tt, z)

  pub further_step :
      (fuel : ℕ) (opts : ScanOptions) (w u v : W) (keys : List String) (next : ℕ)
      → ctx_err w ≡ none
      → scan_page client opts w ≡ (ok (keys, suc next), u)
      → handed fn keys u ≡ (ok tt, v)
      → scan_node ctx_err (suc fuel) client opts fn w
        ≡ scan_node ctx_err fuel client (at_cursor opts (suc next)) fn v
  further_step fuel opts w u v keys next a b c =
      ground (arith, scan_node_step fuel opts w u v keys (suc next) a b c)

  -- Fuel for each page is enough.
  pub Visits-scan_node :
      {opts : ScanOptions} {w v : W} {keys : List String} (p : Visits opts w keys v) (fuel : ℕ)
      → pages p ≤ fuel
      → scan_node ctx_err fuel client opts fn w ≡ (ok tt, v)
  Visits-scan_node (last a b c) zero h = absurd (omega (arith, h))
  Visits-scan_node (further a b c d e) zero h = absurd (omega (arith, h))
  Visits-scan_node (last a b c) (suc fuel) h = scan_node_step fuel _ _ _ _ _ 0 a b c
  Visits-scan_node (further a b c d e) (suc fuel) h =
      further_step fuel _ _ _ _ _ _ a b c ∙ Visits-scan_node d fuel (omega (arith, h))

  -- What a successful scan has read and handled in its first round.
  first_round :
      (fuel : ℕ) (opts : ScanOptions) (w v : W)
      → scan_node ctx_err (suc fuel) client opts fn w ≡ (ok tt, v)
      → (ctx_err w ≡ none)
        × ((keys : List String) × (next : ℕ) × (u : W) × (x : W) × (scan_page client opts w
              ≡ (ok (keys, next), u))
            × (handed fn keys u ≡ (ok tt, x)))
  unfolding scan_node
  first_round fuel opts w v h = elim (Option-cases (ctx_err w)) [
    | inr (e, p) ↦ absurd (ground arith)
    | inl p ↦ elim (Result-cases (scan_page client opts w).0) [
      | inr (e, q) ↦ absurd (ground arith)
      | inl ((keys, next), q) ↦
          let u : W = (scan_page client opts w).1 in
          elim (Result-cases (handed fn keys u).0) [
            | inr (e, f) ↦ absurd (ground arith)
            | inl (t, f) ↦ (
              p,
              (
                keys,
                next,
                u,
                (handed fn keys u).1,
                λ i. (q i, u),
                λ i. (f i, (handed fn keys u).1),
              ),
            )
          ]
    ]
  ]

  visited :
      (fuel : ℕ) (opts : ScanOptions) (w u x v : W) (keys : List String) (next : ℕ)
      → ((o : ScanOptions) (a b : W)
          → scan_node ctx_err fuel client o fn a ≡ (ok tt, b)
          → (ks : List String) × Visits o a ks b)
      → ctx_err w ≡ none
      → scan_page client opts w ≡ (ok (keys, next), u)
      → handed fn keys u ≡ (ok tt, x)
      → scan_node ctx_err (suc fuel) client opts fn w ≡ (ok tt, v)
      → (ks : List String) × Visits opts w ks v
  visited fuel opts w u x v keys zero ih a b c h =
      let same : x ≡ v = ground (arith, scan_node_step fuel opts w u x keys 0 a b c) in
      (keys, last a b (c ∙ ap (λ (z : W). pair z) same))
  visited fuel opts w u x v keys (suc next) ih a b c h =
      let (rest, d) =
        ih (at_cursor opts (suc next)) x v
          (sym (further_step fuel opts w u x keys next a b c) ∙ h) in
      (keys ++ rest, further a b c d refl)

  -- A scan that succeeds has visited.
  pub scan_node-Visits :
      (fuel : ℕ) (opts : ScanOptions) (w v : W)
      → scan_node ctx_err fuel client opts fn w ≡ (ok tt, v)
      → (keys : List String) × Visits opts w keys v
  scan_node-Visits zero opts w v h = absurd (unfold scan_node in ground arith)
  scan_node-Visits (suc fuel) opts w v h =
      let (a, (keys, next, u, x, b, c)) = first_round fuel opts w v h in
      visited fuel opts w u x v keys next (λ o y z e. scan_node-Visits fuel o y z e) a b c h
