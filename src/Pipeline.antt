-- ===== src/Pipeline.antt =====
-- pipeline.go: many commands in one pipeline. `Pipelined` of go-redis sends what the function has
-- queued, or nothing and its error if it returns one; sending is a parameter, and so is a call of
-- one command. A value is whatever type the caller gives; SetStructMany encodes it first.
pub mod Queue
use xredis.Prelude.{
  String, Bool, true, false, Option, none, some, List, [], ◌∷◌, ℤ, pos, ltb_ℤ, if◌then◌else◌,
}
use xredis.Errors.{invalid_pipeline, invalid_ttl, invalid_hash_object, panic}
use xredis.Exec.{Exec, Result, ok, err, fail}
use xredis.Client.{Client, Topology, standalone, cluster, ring}

pub record SetItem (V : Type 0) : Type 0 where
  pub key : String
  pub value : V
  pub expiration : ℤ

pub record HSetItem (V : Type 0) : Type 0 where
  pub key : String
  pub values : List V
  pub expiration : ℤ

pub data Command (V : Type 0) : Type 0 where
  set_command : String → V → ℤ → Command V
  hset_command : String → List V → Command V
  expire_command : String → ℤ → Command V
  del_command : List String → Command V
  unlink_command : List String → Command V

unfoldable pub validate_pipeline_client : Option Client → Result Topology
validate_pipeline_client none = fail invalid_pipeline
validate_pipeline_client (some c) = elim c.conn [ none ↦ fail invalid_pipeline | some t ↦ ok t ]

abbrev pub is_none : {A : Type 0} → List A → Bool
is_none [] = true
is_none (x ∷ xs) = false

module _ {V : Type 0} where
  -- A queued command, before those that the rest of the loop queues.
  abbrev pub queued : Command V → Result (List (Command V)) → Result (List (Command V))
  queued c (ok cs) = ok (c ∷ cs)
  queued c (err e) = err e

  -- the loop of SetMany
  unfoldable pub queue_sets : List (SetItem V) → Result (List (Command V))
  queue_sets [] = ok []
  queue_sets (item ∷ items) =
      let rest = queue_sets items in
      if ltb_ℤ item.expiration (pos 0)
      then fail invalid_ttl
      else queued (set_command item.key item.value item.expiration) rest

  abbrev pub queue_expire : String → ℤ → Result (List (Command V)) → Result (List (Command V))
  queue_expire key expiration rest =
      if ltb_ℤ (pos 0) expiration then queued (expire_command key expiration) rest else rest

  -- the loop of HSetMany
  unfoldable pub queue_hsets : List (HSetItem V) → Result (List (Command V))
  queue_hsets [] = ok []
  queue_hsets (item ∷ items) =
      let rest = queue_hsets items in
      if ltb_ℤ item.expiration (pos 0)
      then fail invalid_ttl
      else if is_none item.values
      then fail invalid_hash_object
      else queued (hset_command item.key item.values) (queue_expire item.key item.expiration rest)

  -- the loops of DeleteMany and UnlinkMany over a cluster or a ring
  unfoldable pub queue_each : (List String → Command V) → List String → List (Command V)
  queue_each command [] = []
  queue_each command (key ∷ keys) = command (key ∷ []) ∷ queue_each command keys

-- the loop of SetStructMany
unfoldable pub queue_structs :
    {V : Type 0} → (V → Result String) → List (SetItem V) → Result (List (Command String))
queue_structs marshal [] = ok []
queue_structs marshal (item ∷ items) =
    let rest = queue_structs marshal items in
    if ltb_ℤ item.expiration (pos 0) then fail invalid_ttl else elim (marshal item.value) [
      | err e ↦ err e
      | ok encoded ↦ queued (set_command item.key encoded item.expiration) rest
    ]

module _ {W V : Type 0} (send : List (Command V) → Exec W (Unit {0}))
    (call : Command V → Exec W (Unit {0})) where
  abbrev pub pipelined : Result (List (Command V)) → Exec W (Unit {0})
  pipelined (ok cs) w = send cs w
  pipelined (err e) w = (err e, w)

  -- The checks that each method starts with.
  abbrev pub on_client : Option Client → Bool → (Topology → Exec W (Unit {0})) → Exec W (Unit {0})
  on_client c empty body w = elim (validate_pipeline_client c) [
    | err e ↦ (err e, w)
    | ok t ↦ if empty then (ok tt, w) else body t w
  ]

  unfoldable pub set_many : Option Client → List (SetItem V) → Exec W (Unit {0})
  unfolding queue_sets validate_pipeline_client
  set_many c items = on_client c (is_none items) (λ t. pipelined (queue_sets items))

  unfoldable pub h_set_many : Option Client → List (HSetItem V) → Exec W (Unit {0})
  unfolding queue_hsets validate_pipeline_client
  h_set_many c items = on_client c (is_none items) (λ t. pipelined (queue_hsets items))

  -- `switch c.conn.(type)`
  abbrev pub by_topology : (List String → Command V) → List String → Topology → Exec W (Unit {0})
  by_topology command keys standalone = call (command keys)
  by_topology command keys cluster = pipelined (ok (queue_each command keys))
  by_topology command keys ring = pipelined (ok (queue_each command keys))

  unfoldable pub delete_many : Option Client → List String → Exec W (Unit {0})
  unfolding queue_each validate_pipeline_client
  delete_many c keys = on_client c (is_none keys) (by_topology (λ ks. del_command ks) keys)

  unfoldable pub unlink_many : Option Client → List String → Exec W (Unit {0})
  unfolding queue_each validate_pipeline_client
  unlink_many c keys = on_client c (is_none keys) (by_topology (λ ks. unlink_command ks) keys)

unfoldable pub set_struct_many :
    {W V : Type 0}
    → (List (Command String) → Exec W (Unit {0}))
    → (V → Result String)
    → Option Client
    → List (SetItem V)
    → Exec W (Unit {0})
unfolding queue_structs validate_pipeline_client
set_struct_many send marshal c [] w = elim (validate_pipeline_client c) [
  | err e ↦ (err e, w)
  | ok t ↦ (ok tt, w)
]
set_struct_many send marshal c (item ∷ items) w = elim (validate_pipeline_client c) [
  | err e ↦ (err e, w)
  | ok t ↦ elim (queue_structs marshal (item ∷ items)) [ err e ↦ (err e, w) | ok cs ↦ send cs w ]
]
