-- ===== src/Redis/Data.antt =====
-- What a Redis data set holds, and the replies and effects that the Redis documentation gives for
-- a command from the entry at its key. The interface in Redis.antt states its laws with these.
use xredis.Prelude.{
  ℕ, ◌+◌, ◌-◌, ◌<◌, String, Option, none, some, List, [], ◌∷◌, ℤ, pos, negsuc, ◌+ℤ◌, ltb_ℤ, leb_ℤ,
  str_eq, if◌then◌else◌,
}
use xredis.Errors.{Error, reply}
use xredis.Exec.{Result, ok, err}

pub data Value : Type 0 where
  str : String → Value
  hash : List (String × String) → Value
  zset : List (ℤ × String) → Value

-- The deadline is a time of the server in milliseconds; without one the key stays.
pub record Entry : Type 0 where
  pub value : Value
  pub deadline : Option ℕ

-- The options PX and KEEPTTL of SET, and neither.
pub data Ttl : Type 0 where
  no_ttl : Ttl
  px : ℕ → Ttl
  keep_ttl : Ttl

abbrev pub IsPositive : Ttl → Type 0
IsPositive no_ttl = Unit
IsPositive (px ms) = 0 < ms
IsPositive keep_ttl = Unit

abbrev pub deadline_of : Option Entry → Option ℕ
deadline_of none = none
deadline_of (some e) = e.deadline

abbrev pub ttl_deadline : Ttl → ℕ → Option Entry → Option ℕ
ttl_deadline no_ttl now old = none
ttl_deadline (px ms) now old = some (now + ms)
ttl_deadline keep_ttl now old = deadline_of old

abbrev pub wrong_type : Error
wrong_type = reply "WRONGTYPE Operation against a key holding the wrong kind of value"

abbrev pub not_integer : Error
not_integer = reply "ERR value is not an integer or out of range"

abbrev pub max_int64 : ℤ
max_int64 = pos 9223372036854775807

-- An element of a reply as go-redis hands it over, an `any`.
pub data Any : Type 0 where
  nil : Any
  int64 : ℤ → Any
  string : String → Any
  bytes : String → Any

-- Hash fields.
abbrev pub get_field : String → List (String × String) → Option String
get_field f [] = none
get_field f ((g, v) ∷ fs) = if str_eq g f then some v else get_field f fs

abbrev pub put_field : String → String → List (String × String) → List (String × String)
put_field f v [] = (f, v) ∷ []
put_field f v ((g, w) ∷ fs) = if str_eq g f then (f, v) ∷ fs else (g, w) ∷ put_field f v fs

abbrev pub put_fields : List (String × String) → List (String × String) → List (String × String)
put_fields [] fs = fs
put_fields ((f, v) ∷ new) fs = put_fields new (put_field f v fs)

abbrev pub remove_field : String → List (String × String) → List (String × String)
remove_field f [] = []
remove_field f ((g, w) ∷ fs) =
    let rest = remove_field f fs in if str_eq g f then rest else (g, w) ∷ rest

-- Sorted sets, lowest score first.
abbrev pub drop_upto : ℤ → List (ℤ × String) → List (ℤ × String)
drop_upto max [] = []
drop_upto max ((n, m) ∷ ms) =
    let rest = drop_upto max ms in if leb_ℤ n max then rest else (n, m) ∷ rest

abbrev pub without_member : String → List (ℤ × String) → List (ℤ × String)
without_member m [] = []
without_member m ((n, x) ∷ ms) =
    let rest = without_member m ms in if str_eq x m then rest else (n, x) ∷ rest

abbrev pub insert_scored : ℤ → String → List (ℤ × String) → List (ℤ × String)
insert_scored n m [] = (n, m) ∷ []
insert_scored n m ((k, x) ∷ ms) =
    if leb_ℤ k n then (k, x) ∷ insert_scored n m ms else (n, m) ∷ (k, x) ∷ ms

abbrev pub put_member : ℤ → String → List (ℤ × String) → List (ℤ × String)
put_member n m ms = insert_scored n m (without_member m ms)

-- What each command replies, and what it leaves at its key, from what the key held.
abbrev pub get_reply : Option Entry → Result (Option String)
get_reply none = ok none
get_reply (some e) = elim e.value [ str v ↦ ok (some v) | _ ↦ err wrong_type ]

abbrev pub count_reply : Option Entry → ℕ
count_reply none = 0
count_reply (some e) = 1

abbrev pub pttl_reply : ℕ → Option Entry → ℤ
pttl_reply now none = negsuc 1
pttl_reply now (some e) = elim e.deadline [ none ↦ negsuc 0 | some t ↦ pos (t - now) ]

abbrev pub with_deadline : Option ℕ → Option Entry → Option Entry
with_deadline t none = none
with_deadline t (some e) = some (record e { deadline = t })

abbrev pub hget_reply : String → Option Entry → Result (Option String)
hget_reply f none = ok none
hget_reply f (some e) = elim e.value [ hash fs ↦ ok (get_field f fs) | _ ↦ err wrong_type ]

abbrev pub bulk : Option String → Any
bulk none = nil
bulk (some v) = string v

abbrev pub get_fields : List (String × String) → List String → List Any
get_fields fs [] = []
get_fields fs (f ∷ names) = bulk (get_field f fs) ∷ get_fields fs names

abbrev pub fields_of : Option Entry → Result (List (String × String))
fields_of none = ok []
fields_of (some e) = elim e.value [ hash fs ↦ ok fs | _ ↦ err wrong_type ]

abbrev pub members_of : Option Entry → Result (List (ℤ × String))
members_of none = ok []
members_of (some e) = elim e.value [ zset ms ↦ ok ms | _ ↦ err wrong_type ]

abbrev pub ok_map {ℓ κ} : {A : Type ℓ} {B : Type κ} → (A → B) → Result A → Result B
ok_map f (ok a) = ok (f a)
ok_map f (err e) = err e

abbrev pub hmget_reply : List String → Option Entry → Result (List Any)
hmget_reply names e = ok_map (λ fs. get_fields fs names) (fields_of e)

-- An aggregate that is left empty is removed with its key.
abbrev pub entry_of_fields : List (String × String) → Option ℕ → Option Entry
entry_of_fields [] t = none
entry_of_fields (f ∷ fs) t = some (record { value = hash (f ∷ fs); deadline = t })

abbrev pub entry_of_members : List (ℤ × String) → Option ℕ → Option Entry
entry_of_members [] t = none
entry_of_members (m ∷ ms) t = some (record { value = zset (m ∷ ms); deadline = t })

abbrev pub or_keep {ℓ} : {A : Type ℓ} → (A → Option Entry) → Result A → Option Entry → Option Entry
or_keep f (ok a) old = f a
or_keep f (err e) old = old

abbrev pub field_count : Option String → ℕ
field_count none = 0
field_count (some v) = 1

abbrev pub new_count : Option String → ℕ
new_count none = 1
new_count (some v) = 0

-- HSET replies how many of the fields are new.
abbrev pub count_new : List (String × String) → List (String × String) → ℕ
count_new [] fs = 0
count_new ((f, v) ∷ new) fs = new_count (get_field f fs) + count_new new (put_field f v fs)

-- The number that INCR and DECR start from: a missing key counts as 0.
abbrev pub int_of : (String → Option ℤ) → Option Entry → Result ℤ
int_of read none = ok (pos 0)
int_of read (some e) = elim e.value [
  | str v ↦ elim (read v) [ none ↦ err not_integer | some n ↦ ok n ]
  | _ ↦ err wrong_type
]

abbrev pub incr_int : Result ℤ → Result ℤ
incr_int (ok n) = if ltb_ℤ n max_int64 then ok (n +ℤ pos 1) else err not_integer
incr_int (err e) = err e

abbrev pub str_entry : (ℤ → String) → Option Entry → ℤ → Option Entry
str_entry show old n = some (record { value = str (show n); deadline = deadline_of old })
