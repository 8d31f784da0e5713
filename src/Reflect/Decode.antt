-- ===== src/Reflect/Decode.antt =====
-- What decodeInto answers.
use mathlib.Core.Bool.{decide}
use xredis.Prelude.{◌≡◌, refl, sym, ap, Bool, true, arith, Bool-cases, inl, inr}
use xredis.Exec.{Result, ok, ◌>>>◌}
use xredis.Exec.Invert.{Result-cases}
use xredis.Reflect.{
  GoType, basic, pointer, slice, struct, interface_, defined, GoType-discrete, type_eq, underlying,
  Content, plain, address, represent, decode_into,
}

decide_sound : {a b : GoType} (d : Dec (a ≡ b)) → decide d ≡ true → a ≡ b
unfolding decide
decide_sound (yes e) h = e
decide_sound (no f) h = absurd (ground arith)

decide_refl : {a : GoType} (d : Dec (a ≡ a)) → decide d ≡ true
unfolding decide
decide_refl (yes e) = refl
decide_refl (no f) = absurd (f refl)

type_eq_sound : (a b : GoType) → type_eq a b ≡ true → a ≡ b
unfolding type_eq
type_eq_sound a b h = decide_sound (GoType-discrete a b) h

pub type_eq_refl : (a : GoType) → type_eq a a ≡ true
unfolding type_eq
type_eq_refl a = decide_refl (GoType-discrete a a)

-- The destination that decode gets, and what its writing makes of a value.
abbrev pub destination : GoType → GoType
destination type = elim (underlying type) [ pointer elem ↦ pointer elem | _ ↦ pointer type ]

abbrev pub stored : {C : Type 0} → GoType → C → Content C
stored type c = elim (underlying type) [ pointer elem ↦ address c | _ ↦ plain c ]

module _ (convertible : GoType → GoType → Bool) {C : Type 0} where
  -- The conversion always goes through, and gives the type that was asked for.
  represented :
      (type elem : GoType) (c : Content C)
      → ((a b : GoType) → underlying a ≡ underlying b → convertible a b ≡ true)
      → underlying type ≡ pointer elem
      → represent convertible type (record { type = pointer elem; content = c })
        ≡ ok (record { type = type; content = c })
  unfolding represent underlying
  represented type elem c law h = elim (Bool-cases (type_eq (pointer elem) type)) [
    | inl same ↦
        rw (same, same)
          (ap (λ (t : GoType). ok (record { type = t; content = c }))
            (type_eq_sound (pointer elem) type same))
    | inr other ↦ rw (other, law (pointer elem) type (sym h), type_eq_refl type) refl
  ]

  decoded :
      (type u : GoType) (decode : GoType → Result C)
      → ((a b : GoType) → underlying a ≡ underlying b → convertible a b ≡ true)
      → underlying type ≡ u
      → decode_into convertible type decode
        ≡ (decode (destination type) >>> λ c. ok (record { type = type; content = stored type c }))
  unfolding decode_into
  decoded type (pointer elem) decode law h = elim (Result-cases (decode (pointer elem))) [
    | inl (c, p) ↦
        rw (decode_into, destination, stored, h, p) (represented type elem (address c) law h)
    | inr (e, p) ↦ rw (decode_into, destination, stored, h, p) refl
  ]
  decoded type (basic b) decode law h = rw (decode_into, destination, stored, h) refl
  decoded type (slice t) decode law h = rw (decode_into, destination, stored, h) refl
  decoded type (struct s) decode law h = rw (decode_into, destination, stored, h) refl
  decoded type (interface_ s) decode law h = rw (decode_into, destination, stored, h) refl
  decoded type (defined n t) decode law h = rw (decode_into, destination, stored, h) refl

-- What decodeInto answers, for any type and any decoding. The decoder gets a pointer to the type, or
-- for a pointer type a pointer to what that points to, and its error is the answer; if it succeeds,
-- the answer is what it wrote, behind a pointer if the type is one, as a value of exactly the type
-- asked for. If types with one underlying type convert to each other, decodeInto itself never
-- answers ErrInvalidEntry, also for defined pointer types.
pub decode_into_lem :
    (convertible : GoType → GoType → Bool) {C : Type 0} (type : GoType) (decode : GoType → Result C)
    → ((a b : GoType) → underlying a ≡ underlying b → convertible a b ≡ true)
    → decode_into convertible type decode
      ≡ (decode (destination type) >>> λ c. ok (record { type = type; content = stored type c }))
decode_into_lem convertible type decode law =
    decoded convertible type (underlying type) decode law refl
