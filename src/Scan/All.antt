-- ===== src/Scan/All.antt =====
-- ScanAll returns the keys of every page, in the order of the pages.
use mathlib.Core.List.{append-nil, append_assoc}
use xredis.Prelude.{
  ℕ, suc, ◌≡◌, ◌↔◌, refl, sym, ap, subst, ◌∙◌, String, Option, List, [], ◌∷◌, ◌++◌, arith, is_empty,
  Bool-cases, inl, inr,
}
use xredis.Errors.{Error}
use xredis.Exec.{Exec, Result, ok, err}
use xredis.Client.{Client, standalone}
use xredis.Scan.{
  ScanOptions, KeyScanner, scan_page, handed, scan_node, scan_each_batch, scan_all, collecting,
  append_batch, collected, validate_scan,
}
use xredis.Scan.Loop.{Visits, last, further, pages, Visits-scan_node, scan_node-Visits}

-- A handler that does nothing.
abbrev pub idle : {W : Type 0} → List String → Exec W (Unit {0})
idle keys w = (ok tt, w)

pair_ok :
    {A W : Type 0} (l m : A) (w v : W)
    → ◌≡◌ {A = Result A × W} (ok l, w) (ok m, v)
    → (l ≡ m) × (w ≡ v)
pair_ok l m w v h = let p : ok l ≡ ok m = λ i. (h i).0 in (ground arith, λ i. (h i).1)

module _ {W : Type 0} (ctx_err : W → Option Error) (conn : KeyScanner W) where
  abbrev Both : Type 0
  Both = W × List String

  abbrev ctx_both : Both → Option Error
  ctx_both p = ctx_err p.0

  handed-append :
      (keys : List String) (p : Both) → handed append_batch keys p ≡ (ok tt, (p.0, p.1 ++ keys))
  handed-append [] p = λ i. (ok tt, (p.0, sym (append-nil p.1) i))
  handed-append (k ∷ ks) p = refl

  handed-idle : (keys : List String) (w : W) → handed idle keys w ≡ (ok tt, w)
  handed-idle [] w = refl
  handed-idle (k ∷ ks) w = refl

  page_beside :
      (opts : ScanOptions) (w : W) (keys : List String)
      → scan_page (collecting conn) opts (w, keys)
        ≡ ((scan_page conn opts w).0, ((scan_page conn opts w).1, keys))
  unfolding scan_page
  page_beside opts w keys = elim (Bool-cases (is_empty opts.type)) [
    | inl e ↦ rw e refl
    | inr e ↦ rw e refl
  ]

  -- What a page of the collecting scanner says of the page.
  page_of :
      (opts : ScanOptions) (p u : Both) (keys : List String) (next : ℕ)
      → scan_page (collecting conn) opts p ≡ (ok (keys, next), u)
      → (scan_page conn opts p.0 ≡ (ok (keys, next), u.0)) × (u.1 ≡ p.1)
  page_of opts p u keys next h =
      let e = sym (page_beside opts p.0 p.1) ∙ h in
      ((λ i. ((e i).0, (e i).1.0)), sym (λ i. (e i).1.1))

  appended :
      (keys : List String) (u v : Both)
      → handed append_batch keys u ≡ (ok tt, v)
      → (v.0 ≡ u.0) × (v.1 ≡ u.1 ++ keys)
  appended keys u v h = let e = sym h ∙ handed-append keys u in ((λ i. (e i).1.0), λ i. (e i).1.1)

  forget :
      {opts : ScanOptions} {p q : Both} {keys : List String}
      → Visits ctx_both (collecting conn) append_batch opts p keys q
      → (q.1 ≡ p.1 ++ keys) × Visits ctx_err conn idle opts p.0 keys q.0
  forget {opts} {p} {q} (last {u = u} {keys = keys} a b c) =
      let (page, same) = page_of opts p u keys 0 b in
      let (w, out) = appended keys u q c in
      (out ∙ ap (λ (l : List String). l ++ keys) same, last a page (rw w (handed-idle keys u.0)))
  forget {opts} {p} {q}
        (further {u = u} {v = v} {keys = keys} {rest = rest} {next = next} a b c d e) =
      let (page, same) = page_of opts p u keys (suc next) b in
      let (w, out) = appended keys u v c in
      let (more, there) = forget d in
      (
        more
            ∙ ap (λ (l : List String). l ++ rest) (out ∙ ap (λ (l : List String). l ++ keys) same)
            ∙ append_assoc p.1 keys rest
            ∙ ap (λ (l : List String). p.1 ++ l) (sym e),
        further a page (rw w (handed-idle keys u.0)) there e,
      )

  remember :
      {opts : ScanOptions} {w v : W} {keys : List String}
      (d : Visits ctx_err conn idle opts w keys v) (acc out : List String)
      → out ≡ acc ++ keys
      → (p : Visits ctx_both (collecting conn) append_batch opts (w, acc) keys (v, out)) × (pages
            ctx_both
            (collecting conn)
            append_batch
            p
          ≡ pages ctx_err conn idle d)
  remember {opts} {w} {v} (last {u = u} {keys = keys} a b c) acc out h =
      let same : u ≡ v = ap (λ (x : Result (Unit {0}) × W). x.1) (sym (handed-idle keys u) ∙ c) in
      (
        last a (page_beside opts w acc ∙ λ i. ((b i).0, ((b i).1, acc)))
            (handed-append keys (u, acc) ∙ λ i. (ok tt, (same i, sym h i))),
        refl,
      )
  remember {opts} {w} {v}
        (further {u = u} {v = x} {keys = keys} {rest = rest} {next = next} a b c d e) acc out h =
      let same : u ≡ x = ap (λ (y : Result (Unit {0}) × W). y.1) (sym (handed-idle keys u) ∙ c) in
      let total : out ≡ (acc ++ keys) ++ rest =
        h ∙ ap (λ (l : List String). acc ++ l) e ∙ sym (append_assoc acc keys rest) in
      let (more, count) = remember d (acc ++ keys) out total in
      (
        further a (page_beside opts w acc ∙ λ i. ((b i).0, ((b i).1, acc)))
            (handed-append keys (u, acc) ∙ λ i. (ok tt, (same i, acc ++ keys))) more e,
        λ i. suc (count i),
      )

  collected_ok :
      (q : Result (Unit {0}) × Both) (v : W) (keys : List String)
      → collected q ≡ (ok keys, v)
      → q ≡ (ok tt, (v, keys))
  collected_ok (ok u, (w, l)) v keys h =
      let (p, e) = pair_ok l keys w v h in λ i. (ok u, (e i, p i))
  collected_ok (err e, (w, l)) v keys h = absurd (ground arith)

  scan_all-keys :
      (fuel : ℕ) (opts : ScanOptions) (w v : W) (keys : List String)
      → collected (scan_node ctx_both fuel (collecting conn) opts append_batch (w, []))
        ≡ (ok keys, v)
      → Visits ctx_err conn idle opts w keys v
  scan_all-keys fuel opts w v keys h =
      let q =
        collected_ok (scan_node ctx_both fuel (collecting conn) opts append_batch (w, [])) v keys
          h in
      let (seen, d) =
        scan_node-Visits ctx_both (collecting conn) append_batch fuel opts (w, []) (v, keys) q in
      let (same, there) = forget d in
      subst (λ (l : List String). Visits ctx_err conn idle opts w l v) (sym same) there

  keys-scan_all :
      (opts : ScanOptions) (w v : W) (keys : List String)
      → Visits ctx_err conn idle opts w keys v
      → (fuel : ℕ) × (collected
            (scan_node ctx_both fuel (collecting conn) opts append_batch (w, []))
          ≡ (ok keys, v))
  keys-scan_all opts w v keys d =
      let (p, e) = remember d [] keys refl in
      let n : ℕ = pages ctx_both (collecting conn) append_batch p in
      (n, ap collected (Visits-scan_node ctx_both (collecting conn) append_batch p n (omega arith)))

single_node :
    {W : Type 0} (ctx_err : W → Option Error) (conn : KeyScanner W)
    (masters shards : (KeyScanner (W × List String) → Exec (W × List String) (Unit {0}))
      → Exec (W × List String) (Unit {0}))
    (c : Option Client) (opts : ScanOptions) (w : W) (fuel : ℕ)
    → validate_scan c opts ≡ ok standalone
    → scan_all ctx_err fuel conn masters shards c opts w
      ≡ collected (
          scan_node
            (λ (p : W × List String). ctx_err p.0)
            fuel
            (collecting conn)
            (record opts { cursor = 0 })
            append_batch
            (w, []))
unfolding scan_all scan_each_batch
single_node ctx_err conn masters shards c opts w fuel h = rw h refl

-- ScanAll returns the keys of every page in order. On a single node, with options that are
-- accepted, it returns `keys` (the loop has enough fuel) exactly if reading page after page from
-- cursor zero, with the context standing before each, gives `keys` in all and ends at cursor zero.
-- So an error of any page gives no keys, and the cursor of the options plays no part.
pub scan_all_iff :
    {W : Type 0} (ctx_err : W → Option Error) (conn : KeyScanner W)
    (masters shards : (KeyScanner (W × List String) → Exec (W × List String) (Unit {0}))
      → Exec (W × List String) (Unit {0}))
    (c : Option Client) (opts : ScanOptions) (w v : W) (keys : List String)
    → validate_scan c opts ≡ ok standalone
    → ((fuel : ℕ) × (scan_all ctx_err fuel conn masters shards c opts w ≡ (ok keys, v)))
      ↔ Visits ctx_err conn idle (record opts { cursor = 0 }) w keys v
scan_all_iff ctx_err conn masters shards c opts w v keys h = (
  λ (fuel, e).
      scan_all-keys ctx_err conn fuel (record opts { cursor = 0 }) w v keys
        (sym (single_node ctx_err conn masters shards c opts w fuel h) ∙ e),
  λ d.
      let (fuel, e) = keys-scan_all ctx_err conn (record opts { cursor = 0 }) w v keys d in
      (fuel, single_node ctx_err conn masters shards c opts w fuel h ∙ e),
)
