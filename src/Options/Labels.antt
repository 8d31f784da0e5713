-- ===== src/Options/Labels.antt =====
-- The labels of a client's metrics, over any calls of WithMetricLabel.
use xredis.Prelude.{
  ◌≡◌, refl, ◌∙◌, String, Bool, not, ◌&&◌, ap, inl, inr, ◌||◌, Option, none, some, List, [], ◌∷◌,
  arith, is_empty, str_eq, str_eq_iff, if◌then◌else◌, Bool-cases,
}
use xredis.Redis.{get_field}
use xredis.Redis.Fields.{get_field-put_field}
use xredis.Options.{Runtime, apply_each, unset, new_options}
use xredis.Options.Telemetry.{is_reserved, with_metric_label}

-- The value of the last of the calls for a key.
abbrev pub last_value : String → List (String × String) → Option String
last_value key [] = none
last_value key ((k, v) ∷ calls) = elim (last_value key calls) [
  | some w ↦ some w
  | none ↦ if str_eq k key then some v else none
]

abbrev pub refused : String → Bool
refused key = is_empty key || is_reserved key

module _ {H : Type 0} where
  abbrev pub label_options : List (String × String) → List (Option (Runtime H → Runtime H))
  label_options [] = []
  label_options ((k, v) ∷ calls) = some (with_metric_label k v) ∷ label_options calls

  -- One call: its own key alone changes, if that is not refused.
  get_field-with_metric_label :
      (key k v : String) (o : Runtime H)
      → get_field key (with_metric_label k v o).metric_labels
        ≡ (if str_eq k key && not (refused key) then some v else get_field key o.metric_labels)
  unfolding with_metric_label
  get_field-with_metric_label key k v o = elim (Bool-cases (str_eq k key)) [
    | inl same ↦
        let alike : refused k ≡ refused key = ap refused ((str_eq_iff k key).0 same) in
        elim (Bool-cases (refused key)) [
          | inl bad ↦ rw (alike, bad, same) refl
          | inr fine ↦
              rw (alike, fine, same) (get_field-put_field k v key o.metric_labels ∙ rw same refl)
        ]
    | inr other ↦ elim (Bool-cases (refused k)) [
      | inl bad ↦ rw (bad, other) refl
      | inr fine ↦ rw (fine, other) (get_field-put_field k v key o.metric_labels ∙ rw other refl)
    ]
  ]

  labels_from :
      (key : String) (calls : List (String × String)) (o : Runtime H)
      → get_field key (apply_each (label_options calls) o).metric_labels ≡ (
          if refused key then get_field key o.metric_labels else elim (last_value key calls) [
            | some w ↦ some w
            | none ↦ get_field key o.metric_labels
          ])
  labels_from key [] o = ground arith
  labels_from key ((k, v) ∷ calls) o = ground (
    arith,
    labels_from key calls (with_metric_label k v o),
    get_field-with_metric_label key k v o,
  )

-- The labels of a client's metrics never clash with the attributes that the library sets. After any
-- calls of WithMetricLabel, a key that is empty or starts with `redis.client.` has no label, and any
-- other key has the value of the last call for it, if there was one.
pub new_options-label_options :
    {H : Type 0} (json : H) (uuid key : String) (calls : List (String × String))
    → get_field key (new_options json uuid (label_options calls)).metric_labels
      ≡ (if refused key then none else last_value key calls)
unfolding new_options
new_options-label_options json uuid key calls = ground (arith, labels_from key calls (unset json))
