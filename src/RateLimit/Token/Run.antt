-- ===== src/RateLimit/Token/Run.antt =====
-- What a run of the token-bucket script does to the bucket at its key.
use xredis.Prelude.{
  ℕ, zero, suc, ◌+◌, ◌*◌, ◌≤◌, ◌≡◌, subst, sym, refl, ◌⊎◌, inl, inr, String, true, false, some,
  List, ◌∷◌, ℤ, pos, arith, Bool-cases,
}
use xredis.Errors.{Error}
use xredis.Exec.{Result, err}
use xredis.Redis.{Redis, Any}
use xredis.RateLimit.Token.{take_token, token_bucket_script}
use xredis.RateLimit.Token.Bucket.{
  Sizes, Within, Lasts, Filled, Bucket, Found, found_tokens, Bucket-Found,
}
use xredis.RateLimit.Token.Times.{count, NotAfter, Before-NotAfter}
use xredis.Redis.Number.{LuaNumber, largest}
use xredis.RateLimit.Token.Step.{
  Holds, Later, Decides, store_tokens-Holds, store_tokens-Decides, ttl_small,
}

module _ (r : Redis) (lua : LuaNumber) (k : String) (c refill n : ℕ) where
  open r use {State, clock}
  open lua use {Number, int, leb}

  -- What a run leaves, `x` tokens that were counted now.
  left_over :
      (log : List ℤ) (t : State) (x : Number) (m now : ℕ)
      → Sizes c refill n
      → Within r lua k c refill n x m
      → count (pos now) log + m ≤ c
      → NotAfter (pos now) log
      → Holds r lua k (some (lua.tostring x)) (some (r.show_int (pos now))) now t
      → Lasts r lua k c refill n log t
      → Filled r lua k c refill n log t
  left_over log t x m now z w room upto held lasts =
      let (y, reads, low, high) =
        lua.tonumber-tostring x m (omega (arith, z.capacity_le, room)) w.0 w.1 in
      record {
        tokens = y;
        text = lua.tostring x;
        most = m;
        filled_at = now;
        now = now;
        holds = held;
        reads = reads;
        within = (low, high);
        past = omega arith;
        room = room;
        lasts = lasts;
        upto = upto;
      }

  abbrev script : State → Result (List Any) × State
  script s = token_bucket_script r lua k (pos c) (pos refill) (pos n) s

  -- One token less.
  taken :
      (x : Number) (m : ℕ)
      → m ≤ largest
      → leb (int (pos 1)) x ≡ true
      → Within r lua k c refill n x m
      → (l : ℕ) × (m ≡ suc l) × Within r lua k c refill n (lua.sub x (int (pos 1))) l
  taken x zero h one w = absurd (
      omega (
        arith,
        lua.leb-int_below 1 (pos 0) (omega arith) (omega arith) (lua.leb_trans _ _ _ one w.1),
      ))
  taken x (suc l) h one w = (l, refl, (lua.leb-sub x one, lua.sub-leb x l (omega arith) w.1))

  -- The request is allowed, and no more are at this time than the capacity.
  abbrev pub Grants : List ℤ → ℕ → Result (List Any) × State → Type 0
  Grants log now q =
      Decides r lua k true q.0
      × Filled r lua k c refill n (pos now ∷ log) q.1
      × (count (pos now) (pos now ∷ log) ≤ c)

  -- PEXPIRE was refused: nobody is allowed, and the bucket has what was stored before.
  abbrev pub Refuses : List ℤ → Result (List Any) × State → Type 0
  Refuses log q = ((e : Error) × (q.0 ≡ err e)) × Filled r lua k c refill n log q.1

  -- What comes before a deadline that is later than now, or was there before.
  Lasts-Later :
      (log : List ℤ) (t : State) (now : ℕ)
      → NotAfter (pos now) log
      → Later r lua k t now
      → Lasts r lua k c refill n log t
  Lasts-Later log t now upto later d h =
      Before-NotAfter (pos now) (pos d) log (omega (arith, later d h)) upto

  -- A run decides by whether there is a token, and leaves the bucket with the request counted.
  pub script-allows :
      (log : List ℤ) (s : State) (f : Found r lua k c refill n log s)
      → Sizes c refill n
      → leb (int (pos 1)) (found_tokens r lua k c refill n log s f) ≡ true
      → Grants log f.now (script s) ⊎ Refuses log (script s)
  unfolding token_bucket_script take_token
  script-allows log s f z one =
      let (l, more, within) =
        taken (found_tokens r lua k c refill n log s f) f.most
          (omega (arith, z.capacity_le, f.room)) one f.within in
      let x : Number = lua.sub (found_tokens r lua k c refill n log s f) (int (pos 1)) in
      let (held, told) =
        store_tokens-Holds r lua k (pos c) (pos refill) (pos n) true x f.a f.b f.now s z.window_pos
          f.holds in
      let counted : count (pos f.now) (pos f.now ∷ log) + l ≤ c = ground (arith, f.room, more) in
      let later : NotAfter (pos f.now) (pos f.now ∷ log) = (omega arith, f.upto) in
      rw (f.holds.at, f.answered, one)
        (elim told [
          | inl (decides, late) ↦ inl (
            decides,
            left_over (pos f.now ∷ log) _ x l f.now z within counted later held
                (Lasts-Later (pos f.now ∷ log) _ f.now later late),
            omega (arith, counted),
          )
          | inr (e, refused, kept) ↦ inr (
            (e, refused),
            left_over log _ x l f.now z within (omega (arith, f.room, more)) f.upto held
                (λ t d. f.lasts t (kept t d)),
          )
        ])

  -- With a small bucket PEXPIRE is not refused.
  pub script-Decides :
      (log : List ℤ) (s : State) (f : Found r lua k c refill n log s)
      → Sizes c refill n
      → c * n ≤ largest
      → leb (int (pos 1)) (found_tokens r lua k c refill n log s f) ≡ true
      → Decides r lua k true (script s).0
  unfolding token_bucket_script take_token
  script-Decides log s f z small one =
      let (l, more, within) =
        taken (found_tokens r lua k c refill n log s f) f.most
          (omega (arith, z.capacity_le, f.room)) one f.within in
      let x : Number = lua.sub (found_tokens r lua k c refill n log s f) (int (pos 1)) in
      let high : leb x (int (pos c)) ≡ true =
        lua.leb_trans x (int (pos l)) (int (pos c)) within.1
          (lua.leb-int (pos l) (pos c) (omega (arith, f.room, more))) in
      rw (f.holds.at, f.answered, one)
        (store_tokens-Decides r lua k (pos c) (pos refill) (pos n) true x f.a f.b f.now s
          z.window_pos
          (ttl_small r lua k c refill n x z.capacity_pos z.window_pos z.refill_pos z.window_le small
            within.0 high)
          f.holds)

  pub script-rejects :
      (log : List ℤ) (s : State) (f : Found r lua k c refill n log s)
      → Sizes c refill n
      → leb (int (pos 1)) (found_tokens r lua k c refill n log s f) ≡ false
      → (Decides r lua k false (script s).0 ⊎ ((e : Error) × ((script s).0 ≡ err e)))
        × Filled r lua k c refill n log (script s).1
  unfolding token_bucket_script take_token
  script-rejects log s f z none_ =
      let x : Number = found_tokens r lua k c refill n log s f in
      let (held, told) =
        store_tokens-Holds r lua k (pos c) (pos refill) (pos n) false x f.a f.b f.now s z.window_pos
          f.holds in
      rw (f.holds.at, f.answered, none_)
        (elim told [
          | inl (decides, late) ↦ (
            inl decides,
            left_over log _ x f.most f.now z f.within f.room f.upto held
                (Lasts-Later log _ f.now f.upto late),
          )
          | inr (e, refused, kept) ↦ (
            inr (e, refused),
            left_over log _ x f.most f.now z f.within f.room f.upto held
                (λ t d. f.lasts t (kept t d)),
          )
        ])

  -- The ways a run may go: the request is allowed, rejected, or fails.
  abbrev pub Ran : List ℤ → State → Result (List Any) × State → Type 0
  Ran log s q =
      Grants log (clock s) q
      ⊎ ((Decides r lua k false q.0 ⊎ ((e : Error) × (q.0 ≡ err e)))
          × Filled r lua k c refill n log q.1)

  pub script-Ran :
      (log : List ℤ) (s : State)
      → Sizes c refill n
      → Bucket r lua k c refill n log s
      → Ran log s (token_bucket_script r lua k (pos c) (pos refill) (pos n) s)
  script-Ran log s z h =
      let f = Bucket-Found r lua k c refill n log s z h in
      elim (Bool-cases (leb (int (pos 1)) (found_tokens r lua k c refill n log s f))) [
        | inl one ↦ elim (script-allows log s f z one) [
          | inl granted ↦
              inl (subst (λ (now : ℕ). Grants log now (script s)) (sym f.holds.at) granted)
          | inr (failed, kept) ↦ inr (inr failed, kept)
        ]
        | inr none_ ↦ inr (script-rejects log s f z none_)
      ]
