-- ===== src/Redis/Number.antt =====
-- The numbers of the Lua interpreter in the server, which is not part of the repository: a
-- parameter of the scripts that calculate. They are doubles: a whole number is rounded to one, and
-- so is the result of a calculation. Rounding keeps the order, and whole numbers up to 2 ^ 53; the
-- other laws speak of bounds by whole numbers of at most 14 digits, which `tostring` keeps too.
use xredis.Prelude.{ℕ, suc, ◌*◌, ◌≤◌, ◌≤ℤ◌, ◌≡◌, ◌⊎◌, String, Option, some, Bool, true, ℤ, pos}

-- The number up to which doubles have every whole number.
abbrev pub exact : ℕ
exact = 9007199254740992

-- The largest number up to which `tostring` ("%.14g") writes every whole number out.
abbrev pub largest : ℕ
largest = 100000000000000

pub record LuaNumber : Type 1 where
  pub Number : Type 0
  -- a whole number as Lua has it: the nearest double
  pub int : ℤ → Number
  pub leb : Number → Number → Bool
  pub ltb : Number → Number → Bool
  pub add : Number → Number → Number
  pub sub : Number → Number → Number
  pub mul : Number → Number → Number
  pub div : Number → Number → Number
  -- the integer that a number becomes in the reply of a script: an int64, without the fraction
  pub reply : Number → ℤ
  -- math.min, and math.floor and math.ceil as the reply and PEXPIRE take them
  pub min : Number → Number → Number
  pub floor : Number → ℤ
  pub ceil : Number → ℤ
  -- tostring and tonumber
  pub tostring : Number → String
  pub tonumber : String → Option Number
  pub leb-int : (m n : ℤ) → m ≤ℤ n → leb (int m) (int n) ≡ true
  pub leb-int_below :
      (m : ℕ) (n : ℤ) → 1 ≤ m → m ≤ exact → leb (int (pos m)) (int n) ≡ true → pos m ≤ℤ n
  -- A number that no int64 holds, from the largest ones, may become a negative one.
  pub reply-int : (n : ℕ) → n ≤ exact → reply (int (pos n)) ≡ pos n
  pub reply-int_above :
      (n : ℤ) → pos exact ≤ℤ n → (pos exact ≤ℤ reply (int n)) ⊎ (reply (int n) ≤ℤ pos 0)
  pub reply-int_below : (n : ℤ) → n ≤ℤ pos 0 → reply (int n) ≤ℤ pos 0
  pub leb_trans : (x y z : Number) → leb x y ≡ true → leb y z ≡ true → leb x z ≡ true
  pub min-leb : (m : ℤ) (x : Number) → leb (min (int m) x) (int m) ≡ true
  pub leb-min :
      (z : Number) (m : ℤ) (x : Number)
      → leb z (int m) ≡ true
      → leb z x ≡ true
      → leb z (min (int m) x) ≡ true
  -- One token less.
  pub sub-leb :
      (x : Number) (m : ℕ)
      → suc m ≤ largest
      → leb x (int (pos (suc m))) ≡ true
      → leb (sub x (int (pos 1))) (int (pos m)) ≡ true
  pub leb-sub :
      (x : Number) → leb (int (pos 1)) x ≡ true → leb (int (pos 0)) (sub x (int (pos 1))) ≡ true
  -- Sums and quotients of what is not negative, and a sum with a part of at least one.
  pub leb-add :
      (x y : Number)
      → leb (int (pos 0)) x ≡ true
      → leb (int (pos 0)) y ≡ true
      → leb (int (pos 0)) (add x y) ≡ true
  pub leb-add_one :
      (x y : Number)
      → leb (int (pos 0)) x ≡ true
      → leb (int (pos 1)) y ≡ true
      → leb (int (pos 1)) (add x y) ≡ true
  pub leb-div :
      (d k n : ℕ)
      → 1 ≤ k
      → k ≤ largest
      → 1 ≤ n
      → n ≤ largest
      → leb (int (pos 0)) (div (mul (int (pos d)) (int (pos k))) (int (pos n))) ≡ true
  -- A quotient of whole numbers, if the first is not below the second.
  pub leb-div_one :
      (d k n : ℕ)
      → k ≤ largest
      → 1 ≤ n
      → n ≤ largest
      → n ≤ d * k
      → leb (int (pos 1)) (div (mul (int (pos d)) (int (pos k))) (int (pos n))) ≡ true
  -- What fills up a bucket of `c` tokens takes no longer than to fill it up from none, at one
  -- token in `n`.
  pub ceil-refill :
      (c n k : ℕ) (x : Number)
      → 1 ≤ c
      → 1 ≤ n
      → 1 ≤ k
      → c * n ≤ largest
      → leb (int (pos 0)) x ≡ true
      → leb x (int (pos c)) ≡ true
      → ceil (div (mul (sub (int (pos c)) x) (int (pos n))) (int (pos k))) ≤ℤ pos (c * n)
  -- A number that is written and read is still within whole bounds.
  pub tonumber-tostring :
      (x : Number) (m : ℕ)
      → m ≤ largest
      → leb (int (pos 0)) x ≡ true
      → leb x (int (pos m)) ≡ true
      → (y : Number) × (tonumber (tostring x) ≡ some y)
        × (leb (int (pos 0)) y ≡ true)
        × (leb y (int (pos m)) ≡ true)
