-- ===== src/Scan.antt =====
-- scan.go: SCAN page by page. The server's SCAN, a handler, the context and go-redis's iteration
-- over the nodes of a cluster are parameters; they act on a state `W` of their choice. A nil
-- handler is `none`. The loop of scanNode runs on fuel.
pub mod Loop
pub mod All
pub mod Ends
use xredis.Prelude.{
  ℕ, zero, suc, String, Bool, true, false, Option, none, some, List, [], ◌∷◌, ◌++◌, ℤ, pos, ltb_ℤ,
  ◌==◌, is_empty, if◌then◌else◌,
}
use xredis.Errors.{Error, invalid_scan, stuck}
use xredis.Exec.{Exec, Result, ok, err, fail, pure, lift, ◌>>=◌, ◌>>◌}
use xredis.Client.{Client, Topology, standalone, cluster, ring}

pub record ScanOptions : Type 0 where
  pub cursor : ℕ
  pub pattern : String
  pub count : ℤ
  pub type : String

-- keyScanner
pub record KeyScanner (W : Type 0) : Type 0 where
  pub scan : ℕ → String → ℤ → Exec W (List String × ℕ)
  pub scan_type : ℕ → String → ℤ → String → Exec W (List String × ℕ)

-- validateScan, for the type of the connection
unfoldable pub validate_scan : Option Client → ScanOptions → Result Topology
validate_scan none opts = fail invalid_scan
validate_scan (some c) opts = elim c.conn [
  | none ↦ fail invalid_scan
  | some t ↦ if ltb_ℤ opts.count (pos 0) then fail invalid_scan else ok t
]

-- `ctx.Err()`
abbrev pub checked : Option Error → Result (Unit {0})
checked none = ok tt
checked (some e) = err e

module _ {W : Type 0} where
  unfoldable pub scan_page : KeyScanner W → ScanOptions → Exec W (List String × ℕ)
  scan_page client opts =
      if is_empty opts.type
      then client.scan opts.cursor opts.pattern opts.count
      else client.scan_type opts.cursor opts.pattern opts.count opts.type

  -- A batch of no keys is not handed over.
  abbrev pub handed : (List String → Exec W (Unit {0})) → List String → Exec W (Unit {0})
  handed fn [] = pure tt
  handed fn (k ∷ ks) = fn (k ∷ ks)

  module _ (ctx_err : W → Option Error) where
    unfoldable pub scan_node :
        ℕ → KeyScanner W → ScanOptions → (List String → Exec W (Unit {0})) → Exec W (Unit {0})
    unfolding scan_page
    scan_node zero client opts fn w = (err stuck, w)
    scan_node (suc fuel) client opts fn w =
        let more = λ (next : ℕ). scan_node fuel client (record opts { cursor = next }) fn in
        (do
          lift (checked (ctx_err w))
          (keys, next) ← scan_page client opts
          handed fn keys
          if next == 0 then pure tt else more next)
          w

    -- ScanEachBatch; `masters` and `shards` are ForEachMaster and ForEachShard
    module _ (fuel : ℕ) (conn : KeyScanner W)
        (masters shards : (KeyScanner W → Exec W (Unit {0})) → Exec W (Unit {0})) where
      abbrev pub from_start : ScanOptions → ScanOptions
      from_start opts = record opts { cursor = 0 }

      abbrev pub on_nodes :
          Topology → ScanOptions → (List String → Exec W (Unit {0})) → Exec W (Unit {0})
      on_nodes standalone opts fn = scan_node fuel conn (from_start opts) fn
      on_nodes cluster opts fn = masters (λ client. scan_node fuel client (from_start opts) fn)
      on_nodes ring opts fn = shards (λ client. scan_node fuel client (from_start opts) fn)

      unfoldable pub scan_each_batch :
          Option Client → ScanOptions → Option (List String → Exec W (Unit {0})) → Exec W (Unit {0})
      unfolding scan_node validate_scan
      scan_each_batch c opts fn = do
        topology ← lift (validate_scan c opts)
        elim fn [ none ↦ lift (fail invalid_scan) | some fn ↦ on_nodes topology opts fn ]

      -- the loop over the keys of a batch
      unfoldable pub each_key : (String → Exec W (Unit {0})) → List String → Exec W (Unit {0})
      each_key fn [] = pure tt
      each_key fn (key ∷ keys) = let rest = each_key fn keys in (do fn key; rest)

      unfoldable pub scan_each :
          Option Client → ScanOptions → Option (String → Exec W (Unit {0})) → Exec W (Unit {0})
      unfolding scan_each_batch each_key
      scan_each c opts none = lift (fail invalid_scan)
      scan_each c opts (some fn) = scan_each_batch c opts (some (each_key fn))

      -- ScanDelete and ScanUnlink, with DeleteMany and UnlinkMany
      unfoldable pub scan_delete :
          (Option Client → List String → Exec W (Unit {0}))
          → Option Client
          → ScanOptions
          → Exec W (Unit {0})
      unfolding scan_each_batch
      scan_delete delete_many c opts = scan_each_batch c opts (some (delete_many c))

      unfoldable pub scan_unlink :
          (Option Client → List String → Exec W (Unit {0}))
          → Option Client
          → ScanOptions
          → Exec W (Unit {0})
      unfolding scan_each_batch
      scan_unlink unlink_many c opts = scan_each_batch c opts (some (unlink_many c))

  -- Scan: one page
  unfoldable pub scan : KeyScanner W → Option Client → ScanOptions → Exec W (List String × ℕ)
  unfolding scan_page validate_scan
  scan conn c opts = do t ← lift (validate_scan c opts); scan_page conn opts

-- ScanAll
module _ {W : Type 0} where
  -- The handler appends each batch to a slice that stands beside the state
  abbrev pub beside : {A : Type 0} → Exec W A → Exec (W × List String) A
  beside command (w, keys) = ((command w).0, ((command w).1, keys))

  abbrev pub collecting : KeyScanner W → KeyScanner (W × List String)
  collecting conn = record {
    scan = λ cursor pattern count. beside (conn.scan cursor pattern count);
    scan_type = λ cursor pattern count type. beside (conn.scan_type cursor pattern count type);
  }

  abbrev pub append_batch : List String → Exec (W × List String) (Unit {0})
  append_batch batch (w, keys) = (ok tt, (w, keys ++ batch))

  abbrev pub collected : Result (Unit {0}) × (W × List String) → Result (List String) × W
  collected (ok u, (w, keys)) = (ok keys, w)
  collected (err e, (w, keys)) = (err e, w)

  unfoldable pub scan_all :
      (W → Option Error)
      → ℕ
      → KeyScanner W
      → ((KeyScanner (W × List String) → Exec (W × List String) (Unit {0}))
          → Exec (W × List String) (Unit {0}))
      → ((KeyScanner (W × List String) → Exec (W × List String) (Unit {0}))
          → Exec (W × List String) (Unit {0}))
      → Option Client
      → ScanOptions
      → Exec W (List String)
  unfolding scan_each_batch
  scan_all ctx_err fuel conn masters shards c opts w = collected (
      scan_each_batch (λ (s : W × List String). ctx_err s.0) fuel (collecting conn) masters shards c
        opts (some append_batch) (w, []))
