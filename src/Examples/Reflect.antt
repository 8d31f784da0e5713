-- ===== src/Examples/Reflect.antt =====
-- reflect.go on a defined pointer type.
use xredis.Prelude.{String, ◌≡◌, Bool, true, subst}
use xredis.Exec.{Result, ok}
use xredis.Reflect.{GoType, pointer, struct, defined, underlying, type_eq, address, decode_into}
use xredis.Reflect.Decode.{type_eq_refl, decode_into_lem}

abbrev user : GoType
user = defined "shop.UserPointer" (pointer (struct "Name string"))

abbrev convertible : GoType → GoType → Bool
convertible a b = type_eq (underlying a) (underlying b)

abbrev bob : GoType → Result String
bob destination = ok "bob"

decode_into_lem_example :
    decode_into convertible user bob ≡ ok (record { type = user; content = address "bob" })
unfolding underlying
decode_into_lem_example = decode_into_lem convertible user bob (λ a b same.
    subst (λ (t : GoType). type_eq (underlying a) t ≡ true) same (type_eq_refl (underlying a)))
