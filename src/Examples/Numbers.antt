-- ===== src/Examples/Numbers.antt =====
-- Numbers for the in-memory server: integers as text, in unary, and natural numbers for those of
-- Lua, with a division that rounds down. They obey the laws of the interfaces.
use Prim.Native.Char.{code}
use native.Mathlib.Nat.{le-div_iff_mul-le, div-le_self}
use xredis.Prelude.{
  ℕ, zero, suc, ◌+◌, ◌-◌, ◌*◌, ◌/◌, ◌≤◌, ◌≤ℤ◌, ◌≡◌, ◌==◌, refl, inl, String, Option, none, some,
  true, ℤ, pos, negsuc, pos_part, ltb, leb, arith, if◌then◌else◌,
}
use xredis.Redis.Number.{LuaNumber, exact}

unary : ℕ → String
unary zero = String.[]
unary (suc n) = String.◌∷◌ "1" (unary n)

unary_length : String → ℕ
unary_length String.[] = 0
unary_length (String.◌∷◌ c s) = suc (unary_length s)

unfoldable pub show_int : ℤ → String
unfolding unary
show_int (pos n) = String.◌∷◌ "+" (unary n)
show_int (negsuc n) = String.◌∷◌ "-" (unary n)

unfoldable pub read_int : String → Option ℤ
unfolding unary_length
read_int String.[] = none
read_int (String.◌∷◌ c s) =
    if code c == b'-' then some (negsuc (unary_length s)) else some (pos (unary_length s))

unary_length-unary : (n : ℕ) → unary_length (unary n) ≡ n
unfolding unary unary_length
unary_length-unary zero = refl
unary_length-unary (suc n) = λ i. suc (unary_length-unary n i)

pub read_int-show_int_lem : (n : ℤ) → read_int (show_int n) ≡ some n
unfolding read_int show_int
read_int-show_int_lem (pos n) = λ i. some (pos (unary_length-unary n i))
read_int-show_int_lem (negsuc n) = λ i. some (negsuc (unary_length-unary n i))

pub least : ℕ → ℕ → ℕ
least m n = if leb m n then m else n

pub at_least_one : (d k n : ℕ) → 1 ≤ n → n ≤ d * k → leb 1 ((d * k) / n) ≡ true
at_least_one d k n p h =
    let q : 1 ≤ (d * k) / n =
      (le-div_iff_mul-le {k = n} {x = 1} {y = d * k} (omega arith)).1 (omega arith) in
    ground arith

pub least-leb : (m x : ℕ) → leb (least m x) m ≡ true
unfolding least
least-leb m x = ground arith

pub leb-least : (z m x : ℕ) → leb z m ≡ true → leb z x ≡ true → leb z (least m x) ≡ true
unfolding least
leb-least z m x p q = ground arith

pub int_mono : (m n : ℤ) → m ≤ℤ n → leb (pos_part m) (pos_part n) ≡ true
int_mono (pos m) (pos n) h = ground arith
int_mono (pos m) (negsuc n) h = absurd (omega arith)
int_mono (negsuc m) (pos n) h = ground arith
int_mono (negsuc m) (negsuc n) h = ground arith

pub int_below : (m : ℕ) (n : ℤ) → 1 ≤ m → leb m (pos_part n) ≡ true → pos m ≤ℤ n
int_below m (pos n) p h = ground arith
int_below m (negsuc n) p h = absurd (ground arith)

pub above : (n : ℤ) → pos exact ≤ℤ n → pos exact ≤ℤ pos (pos_part n)
above (pos n) h = h
above (negsuc n) h = absurd (omega arith)

pub below : (n : ℤ) → n ≤ℤ pos 0 → pos (pos_part n) ≤ℤ pos 0
below (pos n) h = h
below (negsuc n) h = omega arith

mul_mono : (a b k : ℕ) → a ≤ b → a * k ≤ b * k
mul_mono a b k h = grind arith

pub quotient_le : (c n k x : ℕ) → pos (((c - x) * n) / k) ≤ℤ pos (c * n)
quotient_le c n k x =
    let whole : ((c - x) * n) / k ≤ (c - x) * n = div-le_self ((c - x) * n) k in
    let less : (c - x) * n ≤ c * n = mul_mono (c - x) c n (omega arith) in
    omega (arith, whole, less)

abbrev pub read_whole : String → Option ℕ
read_whole v = elim (read_int v) [ none ↦ none | some z ↦ some (pos_part z) ]

pub read_whole-read_int :
    (v : String) (n : ℤ) → read_int v ≡ some n → read_whole v ≡ some (pos_part n)
read_whole-read_int v n h = rw (read_whole, h) refl

abbrev pub whole_numbers : LuaNumber
whole_numbers = record {
  Number = ℕ;
  int = λ z. pos_part z;
  leb = λ m n. leb m n;
  ltb = λ m n. ltb m n;
  add = λ m n. m + n;
  sub = λ m n. m - n;
  mul = λ m n. m * n;
  div = λ m n. m / n;
  reply = λ m. pos m;
  min = least;
  floor = λ m. pos m;
  ceil = λ m. pos m;
  tostring = λ m. show_int (pos m);
  tonumber = λ v. read_whole v;
  leb-int = λ m n h. int_mono m n h;
  leb-int_below = λ m n p q h. int_below m n p h;
  reply-int = λ n h. refl;
  reply-int_above = λ n h. inl (above n h);
  reply-int_below = λ n h. below n h;
  leb_trans = λ x y z p q. ground arith;
  min-leb = λ m x. least-leb (pos_part m) x;
  leb-min = λ z m x p q. leb-least z (pos_part m) x p q;
  sub-leb = λ x m p h. ground arith;
  leb-sub = λ x h. ground arith;
  leb-add = λ x y p q. ground arith;
  leb-add_one = λ x y p q. ground arith;
  leb-div = λ d k n p a q h. ground arith;
  leb-div_one = λ d k n a p b h. at_least_one d k n p h;
  ceil-refill = λ c n k x p o q h low high. quotient_le c n k x;
  tonumber-tostring = λ x m a p q. (x, rw (read_whole, read_int-show_int_lem (pos x)) refl, p, q);
}
