-- ===== src/RateLimit/Token/Bucket.antt =====
-- The invariant of a token bucket: what its hash has left of the capacity.
use xredis.Prelude.{
  ℕ, ◌+◌, ◌-◌, ◌*◌, ◌<◌, ◌≤◌, ◌≡◌, refl, ap, ◌∙◌, ◌⊎◌, inl, inr, String, true, false, Option, none,
  some, List, [], ◌∷◌, ℤ, pos, ◌-ℤ◌, arith, Bool-cases, ltb_ℤ,
}
use xredis.Exec.{ok}
use xredis.Redis.{Redis, Any, string, nil, hget_reply, deadline_of}
use xredis.RateLimit.Token.{available, refilled}
use xredis.RateLimit.Token.Times.{
  count, Before, NotAfter, count-Before, Before-NotAfter, NotAfter-mono, NotAfter-Before,
}
use xredis.Redis.Number.{LuaNumber, largest}
use xredis.RateLimit.Token.Step.{Holds, hmget_pair}

sub_pos : (u now : ℕ) → u ≤ now → pos now -ℤ pos u ≡ pos (now - u)
unfolding ◌-ℤ◌
sub_pos u now h = ground arith

-- The capacity, the refill and the window of a bucket are in the range of the laws.
pub record Sizes (c refill n : ℕ) : Type 0 where
  pub capacity_pos : 1 ≤ c
  pub capacity_le : c ≤ largest
  pub refill_pos : 1 ≤ refill
  pub refill_le : refill ≤ largest
  pub window_pos : 1 ≤ n
  pub window_le : n ≤ largest

module _ (r : Redis) (lua : LuaNumber) (k : String) (c refill n : ℕ) where
  open r use {State, clock, lookup, show_int, hmget, hmget_lem}
  open lua use {Number, int, leb}

  -- From no tokens to `m`.
  abbrev pub Within : Number → ℕ → Type 0
  Within x m = (leb (int (pos 0)) x ≡ true) × (leb x (int (pos m)) ≡ true)

  -- A key that is gone, and every request was before now.
  abbrev pub Fresh : List ℤ → State → Type 0
  Fresh log s = (lookup s k ≡ none) × Before (pos (clock s)) log

  -- With the key every request was before its deadline.
  abbrev pub Lasts : List ℤ → State → Type 0
  Lasts log s = (t : ℕ) → deadline_of (lookup s k) ≡ some t → Before (pos t) log

  -- A hash with at most `m` tokens, which were counted at `u`; with the requests allowed then they
  -- are no more than the capacity.
  pub record Filled (log : List ℤ) (s : State) : Type 0 where
    pub tokens : Number
    pub text : String
    pub most : ℕ
    pub filled_at : ℕ
    pub now : ℕ
    pub holds : Holds r lua k (some text) (some (show_int (pos filled_at))) now s
    pub reads : lua.tonumber text ≡ some tokens
    pub within : Within tokens most
    pub past : filled_at ≤ now
    pub room : count (pos filled_at) log + most ≤ c
    pub lasts : Lasts log s
    pub upto : NotAfter (pos filled_at) log

  abbrev pub Bucket : List ℤ → State → Type 0
  Bucket log s = Fresh log s ⊎ Filled log s

  -- The tokens that a request finds at time `now`.
  pub record Found (log : List ℤ) (s : State) : Type 0 where
    pub fields : List Any
    pub a : Option String
    pub b : Option String
    pub now : ℕ
    pub holds : Holds r lua k a b now s
    pub answered : hmget s k ("tokens" ∷ "updated_at" ∷ []) ≡ ok fields
    pub most : ℕ
    pub within : Within (available r lua (pos c) (pos refill) (pos n) (pos now) fields) most
    pub room : count (pos now) log + most ≤ c
    pub lasts : Lasts log s
    pub upto : NotAfter (pos now) log

  abbrev pub found_tokens : (log : List ℤ) (s : State) → Found log s → Number
  found_tokens log s f = available r lua (pos c) (pos refill) (pos n) (pos f.now) f.fields

  capacity-Within : Sizes c refill n → Within (int (pos c)) c
  capacity-Within z =
      (lua.leb-int (pos 0) (pos c) (omega arith), lua.leb-int (pos c) (pos c) (omega arith))

  refilled-Within :
      (u now : ℕ) (x : Number) (m : ℕ)
      → Sizes c refill n
      → u < now
      → Within x m
      → Within (refilled r lua (pos c) (pos refill) (pos n) (pos now) (pos u) x) c
  unfolding refilled
  refilled-Within u now x m z h w =
      let more : Number =
        lua.div (lua.mul (int (pos (now - u))) (int (pos refill))) (int (pos n)) in
      let later : ltb_ℤ (pos u) (pos now) ≡ true = ground arith in
      let sum =
        lua.leb-add x more w.0
          (lua.leb-div (now - u) refill n z.refill_pos z.refill_le z.window_pos z.window_le) in
      rw (later, sub_pos u now (omega arith))
        (
          lua.leb-min (int (pos 0)) (pos c) (lua.add x more) (capacity-Within z).0 sum,
          lua.min-leb (pos c) (lua.add x more),
        )

  -- After the time of one token there is one.
  refilled-one :
      (u now : ℕ) (x : Number)
      → Sizes c refill n
      → n ≤ (now - u) * refill
      → leb (int (pos 0)) x ≡ true
      → leb (int (pos 1)) (refilled r lua (pos c) (pos refill) (pos n) (pos now) (pos u) x) ≡ true
  unfolding refilled
  refilled-one u now x z h w =
      let more : Number =
        lua.div (lua.mul (int (pos (now - u))) (int (pos refill))) (int (pos n)) in
      let gap : u < now = elapsed u now refill z.window_pos h in
      let later : ltb_ℤ (pos u) (pos now) ≡ true = ground arith in
      let sum =
        lua.leb-add_one x more w
          (lua.leb-div_one (now - u) refill n z.refill_le z.window_pos z.window_le h) in
      rw (later, sub_pos u now (omega arith))
        (lua.leb-min (int (pos 1)) (pos c) (lua.add x more)
          (lua.leb-int (pos 1) (pos c) (omega (arith, z.capacity_pos))) sum)
    where
      elapsed : (u now k : ℕ) {m : ℕ} → 1 ≤ m → m ≤ (now - u) * k → u < now
      elapsed u now k p q = ground arith

  not_later : (u now : ℕ) → u ≤ now → ltb_ℤ (pos now) (pos u) ≡ false
  not_later u now h = ground arith

  pub available_fresh :
      (now : ℕ)
      → available r lua (pos c) (pos refill) (pos n) (pos now) (nil ∷ nil ∷ []) ≡ int (pos c)
  unfolding available refilled
  available_fresh now = rw (not_later now now (omega arith), not_later now now (omega arith)) refl

  pub available_filled :
      (s : State) (now u : ℕ) (text : String) (x : Number)
      → u ≤ now
      → clock s ≡ now
      → lua.tonumber text ≡ some x
      → available r lua
          (pos c)
          (pos refill)
          (pos n)
          (pos now)
          (string text ∷ string (show_int (pos u)) ∷ [])
        ≡ refilled r lua (pos c) (pos refill) (pos n) (pos now) (pos u) x
  unfolding available
  available_filled s now u text x h at e =
      rw (r.read_time-show_int s u (omega (arith, h, at)), e, not_later u now h) refl

  -- Nothing is filled up at the time of the last fill.
  refilled_same :
      (u : ℕ) (x : Number) → refilled r lua (pos c) (pos refill) (pos n) (pos u) (pos u) x ≡ x
  unfolding refilled
  refilled_same u x = rw (not_later u u (omega arith)) refl

  -- A new bucket is full.
  pub Fresh-Found :
      (log : List ℤ) (s : State)
      → Sizes c refill n
      → Fresh log s
      → (f : Found log s) × (leb (int (pos 1)) (found_tokens log s f) ≡ true)
  Fresh-Found log s z (gone, before) =
      let tokens_gone : hget_reply "tokens" (lookup s k) ≡ ok none =
        ap (hget_reply "tokens") gone in
      let updated_gone : hget_reply "updated_at" (lookup s k) ≡ ok none =
        ap (hget_reply "updated_at") gone in
      (
        record {
          fields = nil ∷ nil ∷ [];
          a = none;
          b = none;
          now = clock s;
          holds = record { tokens_at = tokens_gone; updated = updated_gone; at = refl };
          answered =
              hmget_lem s k ("tokens" ∷ "updated_at" ∷ [])
              ∙ hmget_pair "tokens" "updated_at" (lookup s k) none none tokens_gone updated_gone;
          most = c;
          within = rw (available_fresh (clock s)) (capacity-Within z);
          room = omega (arith, count-Before (pos (clock s)) log before);
          lasts = λ t d. absurd (ground (arith, gone));
          upto = NotAfter-Before (pos (clock s)) (pos (clock s)) log (omega arith) before;
        },
        rw (available_fresh (clock s))
            (lua.leb-int (pos 1) (pos c) (omega (arith, z.capacity_pos))),
      )

  -- With the clock where it was the tokens are those that are stored; later there may be as many as
  -- the capacity, but no request was allowed since.
  found_most :
      (log : List ℤ) (s : State) (f : Filled log s)
      → Sizes c refill n
      → (m : ℕ) × Within
          (refilled r lua (pos c) (pos refill) (pos n) (pos f.now) (pos f.filled_at) f.tokens)
          m
        × (count (pos f.now) log + m ≤ c)
  found_most log s f z = elim (Bool-cases (ltb_ℤ (pos f.filled_at) (pos f.now))) [
    | inl later ↦ (
      c,
      refilled-Within f.filled_at f.now f.tokens f.most z (ground arith) f.within,
      omega (
        arith,
        count-Before (pos f.now) log
            (Before-NotAfter (pos f.filled_at) (pos f.now) log (ground arith) f.upto),
      ),
    )
    | inr same ↦
        let here : f.now ≡ f.filled_at = ground (arith, f.past) in
        (f.most, rw (here, refilled_same f.filled_at f.tokens) f.within, rw here f.room)
  ]

  -- One that rested for the time of a token has one.
  pub Filled-Found :
      (log : List ℤ) (s : State)
      → Sizes c refill n
      → (g : Filled log s)
      → (f : Found log s) × (n ≤ (g.now - g.filled_at) * refill
          → leb (int (pos 1)) (found_tokens log s f) ≡ true)
  Filled-Found log s z f =
      let (m, within, room) = found_most log s f z in
      (
        record {
          fields = string f.text ∷ string (show_int (pos f.filled_at)) ∷ [];
          a = some f.text;
          b = some (show_int (pos f.filled_at));
          now = f.now;
          holds = f.holds;
          answered =
              hmget_lem s k ("tokens" ∷ "updated_at" ∷ [])
              ∙ hmget_pair "tokens" "updated_at" (lookup s k) (some f.text)
                  (some (show_int (pos f.filled_at))) f.holds.tokens_at f.holds.updated;
          most = m;
          within =
              rw (available_filled s f.now f.filled_at f.text f.tokens f.past f.holds.at f.reads)
                within;
          room = room;
          lasts = f.lasts;
          upto = NotAfter-mono (pos f.filled_at) (pos f.now) log (omega (arith, f.past)) f.upto;
        },
        λ rested.
            rw (available_filled s f.now f.filled_at f.text f.tokens f.past f.holds.at f.reads)
              (refilled-one f.filled_at f.now f.tokens z rested f.within.0),
      )

  pub Bucket-Found : (log : List ℤ) (s : State) → Sizes c refill n → Bucket log s → Found log s
  Bucket-Found log s z (inl f) = (Fresh-Found log s z f).0
  Bucket-Found log s z (inr f) = (Filled-Found log s z f).0
