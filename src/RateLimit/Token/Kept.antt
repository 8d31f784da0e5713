-- ===== src/RateLimit/Token/Kept.antt =====
-- What keeps the invariant of a token bucket: time, and a request that nobody heard of.
use xredis.Prelude.{
  ℕ, refl, sym, ap, ◌∙◌, inl, inr, ◌⊎◌, ◌≡◌, String, List, [], ◌∷◌, ℤ, pos, ◌≤ℤ◌, arith,
}
use xredis.Redis.{Redis, hget_reply, deadline_of}
use xredis.RateLimit.Sliding.Kept.{OnlyTime}
use xredis.Redis.Number.{LuaNumber}
use xredis.RateLimit.Token.Bucket.{Filled, Fresh, Bucket}
use xredis.RateLimit.Token.Times.{Before}

Before-mono : (t u : ℤ) (log : List ℤ) → t ≤ℤ u → Before t log → Before u log
Before-mono t u [] h p = tt
Before-mono t u (v ∷ log) h p = (omega arith, Before-mono t u log h p.1)

module _ (r : Redis) (lua : LuaNumber) (k : String) (c refill n : ℕ) where
  open r use {State, clock, lookup}

  -- A bucket stays as it was filled, or is gone.
  pub Filled-others :
      (window : ℤ) (log : List ℤ) (others : State → State) (s : State)
      → OnlyTime r k window others
      → (f : Filled r lua k c refill n log s)
      → Fresh r lua k c refill n log (others s)
        ⊎ ((g : Filled r lua k c refill n log (others s)) × (g.filled_at ≡ f.filled_at))
  Filled-others window log others s e f = elim (e s).1 [
    | inl same ↦ inr (
      record {
        tokens = f.tokens;
        text = f.text;
        most = f.most;
        filled_at = f.filled_at;
        now = clock (others s);
        holds = record {
          tokens_at = ap (hget_reply "tokens") same ∙ f.holds.tokens_at;
          updated = ap (hget_reply "updated_at") same ∙ f.holds.updated;
          at = refl;
        };
        reads = f.reads;
        within = f.within;
        past = omega (arith, (e s).0, f.past, f.holds.at);
        room = f.room;
        lasts = λ t d. f.lasts t (sym (ap deadline_of same) ∙ d);
        upto = f.upto;
      },
      refl,
    )
    | inr (t, d, up, gone) ↦
        inl
          (gone, Before-mono (pos t) (pos (clock (others s))) log (omega (arith, up)) (f.lasts t d))
  ]

  pub Fresh-others :
      (window : ℤ) (log : List ℤ) (others : State → State) (s : State)
      → OnlyTime r k window others
      → Fresh r lua k c refill n log s
      → Fresh r lua k c refill n log (others s)
  Fresh-others window log others s e (gone, before) =
      let later =
        Before-mono (pos (clock s)) (pos (clock (others s))) log (omega (arith, (e s).0)) before in
      elim (e s).1 [ inl same ↦ (same ∙ gone, later) | inr (t, d, up, gone') ↦ (gone', later) ]

  pub Bucket-others :
      (window : ℤ) (log : List ℤ) (others : State → State) (s : State)
      → OnlyTime r k window others
      → Bucket r lua k c refill n log s
      → Bucket r lua k c refill n log (others s)
  Bucket-others window log others s e (inl f) = inl (Fresh-others window log others s e f)
  Bucket-others window log others s e (inr f) = elim (Filled-others window log others s e f) [
    | inl gone ↦ inl gone
    | inr (g, _) ↦ inr g
  ]

  pub Filled-forget :
      (t : ℤ) (log : List ℤ) (s : State)
      → Filled r lua k c refill n (t ∷ log) s
      → Filled r lua k c refill n log s
  Filled-forget t log s f = record {
    tokens = f.tokens;
    text = f.text;
    most = f.most;
    filled_at = f.filled_at;
    now = f.now;
    holds = f.holds;
    reads = f.reads;
    within = f.within;
    past = f.past;
    room = omega (arith, f.room);
    lasts = λ u d. (f.lasts u d).1;
    upto = f.upto.1;
  }
