-- ===== src/Examples/Scan.antt =====
-- scan.go over a server with two pages: "a" at cursor 0, which goes on at 7, and "b" and "c" there.
use xredis.Prelude.{
  sym, ◌∙◌, inl, inr, Bool-cases, is_empty, ◌≡◌, ◌≢◌, refl, ℕ, suc, ◌==◌, String, Option, none,
  some, List, [], ◌∷◌, pos, arith, if◌then◌else◌,
}
use xredis.Errors.{Error, stuck}
use xredis.Exec.{Exec, Result, ok, err}
use xredis.Scan.{
  ScanOptions, KeyScanner, scan_page, scan_node, handed, scan_all, validate_scan, scan_each_batch,
}
use xredis.Scan.Loop.{Visits}
use xredis.Scan.All.{idle, scan_all_iff}
use xredis.Scan.Ends.{Shrinks, Sound, scan_node_ends}
use xredis.Examples.Lock.{client}

-- The state counts the pages that were read.
abbrev page : ℕ → Exec ℕ (List String × ℕ)
page cursor n = (ok (if cursor == 0 then ("a" ∷ [], 7) else ("b" ∷ "c" ∷ [], 0)), suc n)

abbrev two_pages : KeyScanner ℕ
two_pages = record {
  scan = λ cursor pattern count. page cursor;
  scan_type = λ cursor pattern count type. page cursor;
}

abbrev everything : ScanOptions
everything = record { cursor = 3; pattern = ""; count = pos 0; type = "" }

abbrev stands : ℕ → Option Error
stands n = none

-- no nodes
abbrev no_nodes :
    (KeyScanner (ℕ × List String) → Exec (ℕ × List String) (Unit {0}))
    → Exec (ℕ × List String) (Unit {0})
no_nodes body w = (ok tt, w)

scan_all_iff_example :
    Visits stands two_pages idle (record everything { cursor = 0 }) 0 ("a" ∷ "b" ∷ "c" ∷ []) 2
unfolding scan_all scan_each_batch scan_node scan_page validate_scan
scan_all_iff_example =
    (scan_all_iff stands two_pages no_nodes no_nodes (some client) everything 0 2
        ("a" ∷ "b" ∷ "c" ∷ []) refl).0
      (2, refl)

abbrev cursor_rank : ScanOptions → ℕ → ℕ
cursor_rank o n = if o.cursor == 0 then 1 else 0

next_of : Result (List String × ℕ) → ℕ
next_of (ok (keys, next)) = next
next_of (err e) = 0

scan_page_lem : (o : ScanOptions) (w : ℕ) → scan_page two_pages o w ≡ page o.cursor w
unfolding scan_page
scan_page_lem o w = elim (Bool-cases (is_empty o.type)) [ inl e ↦ rw e refl | inr e ↦ rw e refl ]

cursor_rank-Shrinks : Shrinks stands two_pages idle cursor_rank
unfolding next_of
cursor_rank-Shrinks o w u v keys next p h =
    let q : next_of (page o.cursor w).0 ≡ suc next =
      λ i. next_of ((sym (scan_page_lem o w) ∙ p) i).0 in
    elim (Bool-cases (o.cursor == 0)) [ inl e ↦ rw e ground arith | inr e ↦ absurd (ground arith) ]

no_error : (keys : List String) (w : ℕ) → (handed idle keys w).0 ≢ err stuck
no_error [] w h = absurd (ground arith)
no_error (k ∷ ks) w h = absurd (ground arith)

two_pages-Sound : Sound stands two_pages idle
two_pages-Sound = record {
  context = λ w h. absurd (ground arith);
  page = λ o w h. absurd (ground (arith, scan_page_lem o w));
  handler = λ keys w h. no_error keys w h;
}

scan_node_ends_example :
    (scan_node stands 2 two_pages (record everything { cursor = 0 }) idle 0).0 ≢ err stuck
scan_node_ends_example =
    (scan_node_ends stands two_pages idle cursor_rank (record everything { cursor = 0 }) 0 2 3
      cursor_rank-Shrinks two_pages-Sound (omega arith) (omega arith)).0
