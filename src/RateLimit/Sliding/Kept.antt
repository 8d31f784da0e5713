-- ===== src/RateLimit/Sliding/Kept.antt =====
-- The invariant of a sliding window: what its set remembers of the requests that were allowed.
use xredis.Prelude.{
  ℕ, suc, ◌+◌, ◌<◌, ◌≤◌, ◌≡◌, refl, sym, ap, ◌∙◌, ◌⊎◌, inl, inr, String, false, none, some, List,
  [], ◌∷◌, All, ℤ, pos, pos_part, ◌-ℤ◌, ◌<ℤ◌, ◌≤ℤ◌, ltb_ℤ, arith, -ℤ_parts, if◌then◌else◌, str_eq,
  length,
}
use xredis.Redis.{Redis, deadline_of, drop_upto, put_member, members_of}
use xredis.RateLimit.Sliding.Members.{
  recent, Lacks, Upto, recent-drop_upto, recent-put_member, recent-le-length, recent-Upto,
  All-drop_upto, All-put_member,
}
use xredis.RateLimit.Sliding.Step.{Holds, Expires, Renewed}

-- How many of the times are above `c`.
abbrev pub recent_times : ℤ → List ℤ → ℕ
recent_times c [] = 0
recent_times c (t ∷ ts) = (if ltb_ℤ c t then 1 else 0) + recent_times c ts

-- Times of requests, the last one first: each has at most `limit` in the window that it ends.
abbrev pub Spaced : ℤ → ℤ → List ℤ → Type 0
Spaced limit window [] = Unit
Spaced limit window (t ∷ ts) =
    (pos (suc (recent_times (t -ℤ window) ts)) ≤ℤ limit) × Spaced limit window ts

Upto-mono : (c d : ℤ) (ms : List (ℤ × String)) → c ≤ℤ d → Upto c ms → Upto d ms
Upto-mono c d [] h p = tt
Upto-mono c d ((n, m) ∷ ms) h p = (omega arith, Upto-mono c d ms h p.1)

pub Lacks-none : (coming : List String) → All (λ (m : String). Lacks m []) coming
Lacks-none [] = tt
Lacks-none (m ∷ coming) = (tt, Lacks-none coming)

-- Members that differ from each other.
abbrev pub Distinct : List String → Type 0
Distinct [] = Unit
Distinct (m ∷ ms) = All (λ (x : String). str_eq m x ≡ false) ms × Distinct ms

fresh_drop :
    (max : ℤ) (ms : List (ℤ × String)) (coming : List String)
    → All (λ (m : String). Lacks m ms) coming
    → All (λ (m : String). Lacks m (drop_upto max ms)) coming
fresh_drop max ms [] h = tt
fresh_drop max ms (m ∷ coming) h = (
  All-drop_upto (λ (p : ℤ × String). str_eq p.1 m ≡ false) max ms h.0,
  fresh_drop max ms coming h.1,
)

fresh_put :
    (n : ℤ) (m : String) (ms : List (ℤ × String)) (coming : List String)
    → Lacks m ms
    → All (λ (x : String). str_eq m x ≡ false) coming
    → All (λ (x : String). Lacks x ms) coming
    → All (λ (x : String). Lacks x (put_member n m ms)) coming
fresh_put n m ms [] f d h = tt
fresh_put n m ms (x ∷ coming) f d h = (
  All-put_member (λ (p : ℤ × String). str_eq p.1 x ≡ false) n m ms d.0 h.0 f,
  fresh_put n m ms coming f d.1 h.1,
)

module _ (r : Redis) (k : String) (window : ℤ) where
  open r use {State, clock, lookup}

  -- What the key holds, beside the times of the requests that were allowed and the members that
  -- are yet to come.
  pub record Kept (log : List ℤ) (coming : List String) (s : State) : Type 0 where
    pub members : List (ℤ × String)
    pub now : ℕ
    pub holds : Holds r k s members now
    pub past : Upto (pos now) members
    pub fresh : All (λ (m : String). Lacks m members) coming
    pub covers : (c : ℤ) → (pos now -ℤ window) ≤ℤ c → recent_times c log ≤ recent c members
    pub lasting : (t : ℕ) → deadline_of (lookup s k) ≡ some t → Upto (pos t -ℤ window) members

  -- Others leave the key alone: time passes, and the key is gone once its deadline is reached.
  abbrev pub OnlyTime : (State → State) → Type 0
  OnlyTime others =
      (s : State)
      → (clock s ≤ clock (others s))
        × ((lookup (others s) k ≡ lookup s k)
            ⊎ ((t : ℕ) × (deadline_of (lookup s k) ≡ some t)
                × (t ≤ clock (others s))
                × (lookup (others s) k ≡ none)))

  pub Kept-others :
      (log : List ℤ) (coming : List String) (others : State → State) (s : State)
      → OnlyTime others
      → Kept log coming s
      → Kept log coming (others s)
  Kept-others log coming others s e h = elim (e s).1 [
    | inl same ↦ record {
      members = h.members;
      now = clock (others s);
      holds = record { stored = ap members_of same ∙ h.holds.stored; at = refl };
      past =
          Upto-mono (pos h.now) (pos (clock (others s))) h.members
            (omega (arith, (e s).0, h.holds.at)) h.past;
      fresh = h.fresh;
      covers = λ c p. h.covers c (
          omega (
            arith,
            (e s).0,
            h.holds.at,
            p,
            -ℤ_parts (pos h.now) window,
            -ℤ_parts (pos (clock (others s))) window,
          ));
      lasting = λ t p. h.lasting t (sym (ap deadline_of same) ∙ p);
    }
    | inr (t, d, up, gone) ↦ record {
      members = [];
      now = clock (others s);
      holds = record { stored = ap members_of gone; at = refl };
      past = tt;
      fresh = Lacks-none coming;
      covers = λ c p.
          let none_ : recent c h.members ≡ 0 =
            recent-Upto c (pos t -ℤ window) h.members (h.lasting t d) (
              omega (
                arith,
                p,
                up,
                -ℤ_parts (pos t) window,
                -ℤ_parts (pos (clock (others s))) window,
              )) in
          let most : recent_times c log ≤ recent c h.members = h.covers c (
            omega (
              arith,
              p,
              (e s).0,
              h.holds.at,
              -ℤ_parts (pos h.now) window,
              -ℤ_parts (pos (clock (others s))) window,
            )) in
          omega (arith, none_, most);
      lasting = λ u p. tt;
    }
  ]

  -- A request that was not allowed, or that nobody was told of.
  pub Kept-skip :
      (log : List ℤ) (m : String) (coming : List String) (s : State)
      → Kept log (m ∷ coming) s
      → Kept log coming s
  Kept-skip log m coming s h = record {
    members = h.members;
    now = h.now;
    holds = h.holds;
    past = h.past;
    fresh = h.fresh.1;
    covers = h.covers;
    lasting = h.lasting;
  }

  pub Kept-forget :
      (t : ℤ) (log : List ℤ) (coming : List String) (s : State)
      → Kept (t ∷ log) coming s
      → Kept log coming s
  Kept-forget t log coming s h = record {
    members = h.members;
    now = h.now;
    holds = h.holds;
    past = h.past;
    fresh = h.fresh;
    covers = λ c p. omega (arith, h.covers c p);
    lasting = h.lasting;
  }

  -- A run that rejects.
  pub Kept-reject :
      (log : List ℤ) (coming : List String) (s t : State) (h : Kept log coming s)
      → 0 < pos_part window
      → Holds r k t (drop_upto (pos h.now -ℤ window) h.members) h.now
      → Expires r k t s (h.now + pos_part window)
      → Kept log coming t
  Kept-reject log coming s t h p held until =
      let max : ℤ = pos h.now -ℤ window in
      let left : Upto (pos h.now) (drop_upto max h.members) =
        All-drop_upto (λ (x : ℤ × String). x.0 ≤ℤ pos h.now) max h.members h.past in
      record {
        members = drop_upto max h.members;
        now = h.now;
        holds = held;
        past = left;
        fresh = fresh_drop max h.members coming h.fresh;
        covers = λ c q. rw (recent-drop_upto max c h.members q) (h.covers c q);
        lasting = λ d e. elim until [
          | inl gone ↦ absurd (ground arith)
          | inr (inl old) ↦
              All-drop_upto (λ (x : ℤ × String). x.0 ≤ℤ (pos d -ℤ window)) max h.members
                (h.lasting d (sym old ∙ e))
          | inr (inr new) ↦
              Upto-mono (pos h.now) (pos d -ℤ window) (drop_upto max h.members) (later d e new) left
        ];
      }
    where
      later :
          (d : ℕ)
          → deadline_of (lookup t k) ≡ some d
          → deadline_of (lookup t k) ≡ some (h.now + pos_part window)
          → pos h.now ≤ℤ (pos d -ℤ window)
      later d e new =
          let same : d ≡ h.now + pos_part window = ground arith in
          omega (arith, same, -ℤ_parts (pos d) window)

  -- A run that admits a request: it has room in the window that ends now.
  pub Kept-admit :
      (limit : ℤ) (log : List ℤ) (m : String) (coming : List String) (s t : State)
      (h : Kept log (m ∷ coming) s)
      → 0 < pos_part window
      → Distinct (m ∷ coming)
      → pos (length (drop_upto (pos h.now -ℤ window) h.members)) <ℤ limit
      → Holds r k t (put_member (pos h.now) m (drop_upto (pos h.now -ℤ window) h.members)) h.now
      → Renewed r k t (h.now + pos_part window)
      → Kept (pos h.now ∷ log) coming t
        × (pos (suc (recent_times (pos h.now -ℤ window) log)) ≤ℤ limit)
  Kept-admit limit log m coming s t h p apart room held until =
      let max : ℤ = pos h.now -ℤ window in
      let left : List (ℤ × String) = drop_upto max h.members in
      let free : Lacks m left =
        All-drop_upto (λ (x : ℤ × String). str_eq x.1 m ≡ false) max h.members h.fresh.0 in
      let old : Upto (pos h.now) left =
        All-drop_upto (λ (x : ℤ × String). x.0 ≤ℤ pos h.now) max h.members h.past in
      let now_ : Upto (pos h.now) (put_member (pos h.now) m left) =
        All-put_member (λ (x : ℤ × String). x.0 ≤ℤ pos h.now) (pos h.now) m left (omega arith) old
          free in
      (
        record {
          members = put_member (pos h.now) m left;
          now = h.now;
          holds = held;
          past = now_;
          fresh =
              fresh_put (pos h.now) m left coming free apart.0
                (fresh_drop max h.members coming h.fresh.1);
          covers = λ c q.
              rw (recent-put_member c (pos h.now) m left free, recent-drop_upto max c h.members q)
                (omega (arith, h.covers c q));
          lasting = λ d e. elim until [
            | inl gone ↦ absurd (ground arith)
            | inr new ↦
                let same : d ≡ h.now + pos_part window = ground arith in
                Upto-mono (pos h.now) (pos d -ℤ window) (put_member (pos h.now) m left)
                  (omega (arith, same, -ℤ_parts (pos d) window)) now_
          ];
        },
        omega (
          arith,
          room,
          h.covers max (omega arith),
          recent-drop_upto max max h.members (omega arith),
          recent-le-length max left,
        ),
      )
