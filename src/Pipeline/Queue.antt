-- ===== src/Pipeline/Queue.antt =====
-- What the methods of pipeline.go send: one batch that holds every item in order, or nothing.
use xredis.Prelude.{
  ◌≡◌, refl, String, Bool, false, ◌||◌, Option, none, some, ◌++◌, Option-cases, inl, inr, List, [],
  ◌∷◌, pos, ltb_ℤ, if◌then◌else◌, arith, map,
}
use xredis.Errors.{Sentinel, invalid_ttl, invalid_hash_object}
use xredis.Exec.{Exec, Result, ok, err, fail}
use xredis.Client.{Client}
use xredis.Pipeline.{
  SetItem, HSetItem, Command, set_command, hset_command, expire_command, queue_sets, queue_structs,
  queue_hsets, h_set_many, set_many, set_struct_many, is_none, validate_pipeline_client,
}

abbrev pub unless : {A : Type 0} → Option Sentinel → A → Result A
unless none a = ok a
unless (some e) a = fail e

module _ {V : Type 0} where
  -- Some item has a negative expiration.
  abbrev pub has_negative : List (SetItem V) → Bool
  has_negative [] = false
  has_negative (item ∷ items) = ltb_ℤ item.expiration (pos 0) || has_negative items

  abbrev pub command_of : SetItem V → Command V
  command_of item = set_command item.key item.value item.expiration

  queue_sets_lem :
      (items : List (SetItem V))
      → queue_sets items
        ≡ (if has_negative items then fail invalid_ttl else ok (map command_of items))
  unfolding queue_sets
  queue_sets_lem [] = refl
  queue_sets_lem (item ∷ items) = ground (arith, queue_sets_lem items)

  -- The first item that is refused, and why: a negative expiration before a lack of values.
  abbrev pub first_error : List (HSetItem V) → Option Sentinel
  first_error [] = none
  first_error (item ∷ items) =
      let rest = first_error items in
      if ltb_ℤ item.expiration (pos 0)
      then some invalid_ttl
      else if is_none item.values
      then some invalid_hash_object
      else rest

  abbrev pub hset_commands : HSetItem V → List (Command V)
  hset_commands item =
      hset_command item.key item.values
      ∷ (if ltb_ℤ (pos 0) item.expiration then expire_command item.key item.expiration ∷ [] else [])

  abbrev pub all_commands : List (HSetItem V) → List (Command V)
  all_commands [] = []
  all_commands (item ∷ items) = hset_commands item ++ all_commands items

  queue_hsets_lem :
      (items : List (HSetItem V))
      → queue_hsets items ≡ unless (first_error items) (all_commands items)
  unfolding queue_hsets
  queue_hsets_lem [] = refl
  queue_hsets_lem (item ∷ items) = elim (Option-cases (first_error items)) [
    | inl e ↦ ground (arith, queue_hsets_lem items)
    | inr (x, e) ↦ ground (arith, queue_hsets_lem items)
  ]

  abbrev pub encode_item : (V → String) → SetItem V → SetItem String
  encode_item f item = record { key = item.key; value = f item.value; expiration = item.expiration }

  queue_structs-queue_sets :
      (marshal : V → Result String) (f : V → String) (items : List (SetItem V))
      → ((v : V) → marshal v ≡ ok (f v))
      → queue_structs marshal items ≡ queue_sets (map (encode_item f) items)
  unfolding queue_structs queue_sets
  queue_structs-queue_sets marshal f [] h = refl
  queue_structs-queue_sets marshal f (item ∷ items) h =
      rw (h item.value, queue_structs-queue_sets marshal f items h) refl

-- SetMany is all or nothing: with a connected client and an item, it sends one batch with the SET of
-- each item, in order, or, if some item has a negative expiration, nothing, and the error is
-- ErrInvalidTTL. Without items it does nothing; without a connection it is refused.
pub set_many_all_or_nothing :
    {W V : Type 0} (send : List (Command V) → Exec W (Unit {0}))
    (call : Command V → Exec W (Unit {0})) (c : Option Client) (items : List (SetItem V)) (w : W)
    → set_many send call c items w ≡ (elim (validate_pipeline_client c) [
      | err e ↦ (err e, w)
      | ok t ↦
          if is_none items
          then (ok tt, w)
          else if has_negative items
          then (fail invalid_ttl, w)
          else send (map command_of items) w
    ])
unfolding set_many
set_many_all_or_nothing send call c items w = ground (arith, queue_sets_lem items)

-- HSetMany is all or nothing too. Unless the check of the client fails, it sends nothing and
-- succeeds without items; it sends nothing and returns the error of the first item that is refused,
-- for a negative expiration or else a lack of values; or it sends one batch with the HSET of each
-- item and its EXPIRE if its expiration is positive, in order.
pub h_set_many_all_or_nothing :
    {W V : Type 0} (send : List (Command V) → Exec W (Unit {0}))
    (call : Command V → Exec W (Unit {0})) (c : Option Client) (items : List (HSetItem V)) (w : W)
    → h_set_many send call c items w ≡ (elim (validate_pipeline_client c) [
      | err e ↦ (err e, w)
      | ok t ↦ if is_none items then (ok tt, w) else elim (first_error items) [
        | some e ↦ (fail e, w)
        | none ↦ send (all_commands items) w
      ]
    ])
unfolding h_set_many
h_set_many_all_or_nothing send call c items w = elim (Option-cases (first_error items)) [
  | inl e ↦ ground (arith, queue_hsets_lem items)
  | inr (x, e) ↦ ground (arith, queue_hsets_lem items)
]

-- If the codec encodes every value, SetStructMany is SetMany of the encoded items.
pub set_struct_many-set_many :
    {W V : Type 0} (send : List (Command String) → Exec W (Unit {0}))
    (call : Command String → Exec W (Unit {0})) (marshal : V → Result String) (f : V → String)
    (c : Option Client) (items : List (SetItem V)) (w : W)
    → ((v : V) → marshal v ≡ ok (f v))
    → set_struct_many send marshal c items w ≡ set_many send call c (map (encode_item f) items) w
unfolding set_struct_many set_many
set_struct_many-set_many send call marshal f c [] w h = ground arith
set_struct_many-set_many send call marshal f c (item ∷ items) w h =
    ground (arith, queue_structs-queue_sets marshal f (item ∷ items) h)
