-- ===== src/Reflect.antt =====
-- reflect.go and raw_value.go, over a model of Go's types. The type parameter of a function is an
-- argument here; reflect is a library, of which `convertible` (reflect.Value.CanConvert) is a
-- parameter.
pub mod Decode
use mathlib.Core.Bool.{decide}
use xredis.Prelude.{
  inl, inr, str_eq_iff, arith, Bool-cases, String, Bool, true, false, ◌&&◌, ◌||◌, List, [], ◌∷◌,
  str_eq, not, if◌then◌else◌,
}
use xredis.Errors.{known, wrap, invalid_entry, unsupported_type}
use xredis.Exec.{Result, ok, err, fail, ◌>>>◌}

-- The predeclared types that raw_value.go names; uint8 is also byte.
pub data Basic : Type 0 where
  bool string int int8 int16 int32 int64 uint uint8 uint16 uint32 uint64 float32 float64 : Basic

-- `struct` and `interface_` are told apart by their text; a defined type has a name with its package.
pub data GoType : Type 0 where
  basic : Basic → GoType
  pointer : GoType → GoType
  slice : GoType → GoType
  struct : String → GoType
  interface_ : String → GoType
  defined : String → GoType → GoType

String-discrete : Discrete String
String-discrete a b = elim (Bool-cases (str_eq a b)) [
  | inl same ↦ yes ((str_eq_iff a b).0 same)
  | inr other ↦ no (λ e. ground (arith, str_eq_iff a b, e, other))
]

-- Whether two types are identical.
unfoldable pub GoType-discrete : Discrete GoType
unfolding String-discrete
GoType-discrete = hlevel String-discrete

unfoldable pub type_eq : GoType → GoType → Bool
unfolding GoType-discrete
type_eq a b = decide (GoType-discrete a b)

-- The underlying type, which says of which Kind a type is.
unfoldable pub underlying : GoType → GoType
underlying (defined n t) = underlying t
underlying (basic b) = basic b
underlying (pointer t) = pointer t
underlying (slice t) = slice t
underlying (struct s) = struct s
underlying (interface_ s) = interface_ s

-- validateConcreteType
unfoldable pub validate_concrete_type : GoType → Result (Unit {0})
unfolding underlying
validate_concrete_type type = elim (underlying type) [
  | interface_ s ↦ err (wrap "interface value type is not supported" (known unsupported_type))
  | _ ↦ ok tt
]

abbrev pub byte_slice : GoType
byte_slice = slice (basic uint8)

abbrev pub time_time : GoType
time_time = defined "time.Time" (struct "wall uint64; ext int64; loc *Location")

abbrev pub time_duration : GoType
time_duration = defined "time.Duration" (basic int64)

abbrev pub net_ip : GoType
net_ip = defined "net.IP" byte_slice

-- The cases of the type switch.
abbrev pub raw_types : List GoType
raw_types =
    basic string
    ∷ pointer (basic string)
    ∷ byte_slice
    ∷ basic int
    ∷ pointer (basic int)
    ∷ basic int8
    ∷ pointer (basic int8)
    ∷ basic int16
    ∷ pointer (basic int16)
    ∷ basic int32
    ∷ pointer (basic int32)
    ∷ basic int64
    ∷ pointer (basic int64)
    ∷ basic uint
    ∷ pointer (basic uint)
    ∷ basic uint8
    ∷ pointer (basic uint8)
    ∷ basic uint16
    ∷ pointer (basic uint16)
    ∷ basic uint32
    ∷ pointer (basic uint32)
    ∷ basic uint64
    ∷ pointer (basic uint64)
    ∷ basic float32
    ∷ pointer (basic float32)
    ∷ basic float64
    ∷ pointer (basic float64)
    ∷ basic bool
    ∷ pointer (basic bool)
    ∷ time_time
    ∷ pointer time_time
    ∷ time_duration
    ∷ pointer time_duration
    ∷ net_ip
    ∷ []

unfoldable pub is_one_of : GoType → List GoType → Bool
unfolding type_eq
is_one_of type [] = false
is_one_of type (t ∷ ts) = type_eq type t || is_one_of type ts

-- isRawValueType: the dynamic type of the zero value, which is the type itself unless that is an
-- interface, whose zero value is nil and has none
unfoldable pub is_raw_value_type : GoType → Bool
unfolding underlying is_one_of
is_raw_value_type type = elim (underlying type) [
  | interface_ s ↦ false
  | _ ↦ is_one_of type raw_types
]

-- A value with its type: something of type `C`, or a pointer to it.
pub data Content (C : Type 0) : Type 0 where
  plain : C → Content C
  address : C → Content C

pub record Value (C : Type 0) : Type 0 where
  pub type : GoType
  pub content : Content C

module _ (convertible : GoType → GoType → Bool) {C : Type 0} where
  -- `value.Convert(typ)` behind its check, and the assertion `value.Interface().(T)`
  unfoldable pub represent : GoType → Value C → Result (Value C)
  unfolding type_eq
  represent type value =
      (if type_eq value.type type
        then ok value
        else if convertible value.type type
        then ok (record value { type = type })
        else fail invalid_entry)
      >>> λ converted. if type_eq converted.type type then ok converted else fail invalid_entry

  -- decodeInto; `decode` is given the type of the destination, and what it writes there comes back
  unfoldable pub decode_into : GoType → (GoType → Result C) → Result (Value C)
  unfolding underlying represent
  decode_into type decode = elim (underlying type) [
    | pointer elem ↦ decode (pointer elem) >>> λ written.
        represent type (record { type = pointer elem; content = address written })
    | _ ↦ decode (pointer type) >>> λ written. ok (record { type = type; content = plain written })
  ]
