-- ===== src/Commands/Values.antt =====
-- What the methods of commands.go write and read back.
use xredis.Prelude.{
  ℕ, suc, ◌+◌, ◌*◌, ◌≡◌, inl, inr, refl, false, String, Option, some, List, [], ◌∷◌, pos, ltb_ℤ,
  eqb_ℤ, sym, ap, ◌∙◌, arith, str_eq, str_eq_iff, if◌then◌else◌,
}
use xredis.Exec.{Result, ok, ask, lift, continue, Exec}
use xredis.Exec.Invert.{Result-cases}
use xredis.Redis.{Redis, fields_of, put_fields, entry_of_fields, deadline_of, with_deadline}
use xredis.Redis.More.{MoreCommands}
use xredis.Codec.{Codec}
use xredis.Client.{World, arrival, round_trip}
use xredis.Client.Trip.{round_trip_ok}
use xredis.Client.Strings.{written, got}
use xredis.Commands.{
  get_struct, set_struct, h_set, both, read_reply, unmarshalled, missing_ok, present,
}

not_negative : (n : ℕ) → ltb_ℤ (pos n) (pos 0) ≡ false
not_negative n = ground arith

not_zero : (n : ℕ) → eqb_ℤ (pos (suc n)) (pos 0) ≡ false
not_zero n = ground arith

read_reply_lem :
    {S A : Type 0} (decode : String → Result A) (command : Exec S (Option String)) (w : World S)
    (y : Option String)
    → (round_trip command w).0 ≡ ok y
    → read_reply decode command w ≡ (missing_ok (present decode y), (round_trip command w).1)
read_reply_lem decode command w y p = rw (read_reply, p) refl

both_ok :
    {S A B : Type 0} (first : Exec S A) (second : Exec S B) (s : S)
    → (both first second s).0 ≡ ok tt
    → (a : A) × ((first s).0 ≡ ok a)
both_ok first second s h = elim (Result-cases (first s).0) [
  | inl found ↦ found
  | inr (e, p) ↦ absurd (ground arith)
]

module _ (r : Redis) (x : MoreCommands r) where
  open r use {State, lookup, clock, ttl_arg}

  get_struct_lem :
      {A : Type 0} (codec : Codec A) (key : String) (w : World State) (e : String) (v : A)
      → round_trip (ask (λ s. r.get s key)) w ≡ (ok (some e), w)
      → codec.unmarshal e ≡ ok v
      → get_struct r x codec key w ≡ (ok (some v), w)
  unfolding get_struct
  get_struct_lem codec key w e v p d =
      let q : read_reply (λ u. ok u) (ask (λ s. r.get s key)) w ≡ (ok (some e), w) =
        read_reply_lem (λ u. ok u) (ask (λ s. r.get s key)) w (some e) (ap (λ q. q.0) p) ∙ λ i.
        (ok (some e), (p i).1) in
      (λ i. continue (q i).0 (λ stored. lift (unmarshalled codec stored)) (q i).1)
      ∙ rw (unmarshalled, d) refl

  -- What SetStruct stores, GetStruct gives back: undisturbed, for a ttl that is not negative, if
  -- the codec's decoding inverts its encoding at the value.
  pub get_struct-set_struct :
      {A : Type 0} (codec : Codec A) (key : String) (v : A) (e : String) (n : ℕ) (w : World State)
      → codec.marshal v ≡ ok e
      → codec.unmarshal e ≡ ok v
      → w.schedule ≡ []
      → ((set_struct r x codec key v (pos n) w).0 ≡ ok tt)
        × ((get_struct r x codec key (set_struct r x codec key v (pos n) w).1).0 ≡ ok (some v))
  unfolding set_struct
  get_struct-set_struct codec key v e n w enc dec q =
      let (done, quiet, there) = written r key e n w q in
      let back = got r key (round_trip (r.set key e (ttl_arg (pos n))) w).1 (some e) quiet there in
      rw
        (
          not_negative n,
          enc,
          done,
          get_struct_lem codec key (round_trip (r.set key e (ttl_arg (pos n))) w).1 e v back dec,
        )
        (refl, refl)

  h_set_lem :
      {V : Type 0} (flatten : List V → List (String × String)) (key : String) (n : ℕ) (v : V)
      (values : List V) (w : World State)
      → h_set r x flatten key (pos (suc n)) (v ∷ values) w
        ≡ round_trip
            (both (r.hset key (flatten (v ∷ values))) (x.expire key (x.seconds (pos (suc n)))))
            w
  unfolding h_set
  h_set_lem flatten key n v values w = rw (not_negative (suc n), not_zero n) refl

  -- HSet with a positive ttl and some values sets the fields and the expiration in one step: when it
  -- succeeds, the key held a hash or nothing as the request found it; now it holds that hash with
  -- the new fields put in, until the ttl in seconds from the server's present, and every other key
  -- holds what it held.
  pub h_set_expires :
      {V : Type 0} (flatten : List V → List (String × String)) (key : String) (n : ℕ) (v : V)
      (values : List V) (w : World State)
      → (h_set r x flatten key (pos (suc n)) (v ∷ values) w).0 ≡ ok tt
      → (fs : List (String × String)) × (fields_of (lookup (arrival w) key) ≡ ok fs)
        × ((j : String)
            → lookup (h_set r x flatten key (pos (suc n)) (v ∷ values) w).1.server j ≡ (
                if str_eq key j
                then with_deadline (some (clock (arrival w) + x.seconds (pos (suc n)) * 1000)) (
                    entry_of_fields
                      (put_fields (flatten (v ∷ values)) fs)
                      (deadline_of (lookup (arrival w) key)))
                else lookup (arrival w) j))
  h_set_expires flatten key n v values w h =
      let new = flatten (v ∷ values) in
      let second = x.expire key (x.seconds (pos (suc n))) in
      let sent = h_set_lem flatten key n v values w in
      let (a, b) =
        round_trip_ok (both (r.hset key new) second) w tt (ap (λ q. q.0) (sym sent) ∙ h) in
      let (m, p) = both_ok (r.hset key new) second (arrival w) a in
      elim (Result-cases (fields_of (lookup (arrival w) key))) [
        | inr (e, q) ↦ absurd (ground (arith, r.hset_lem key new (arrival w)))
        | inl (fs, q) ↦ (
          fs,
          q,
          λ j.
              rw
                (
                  sent,
                  b,
                  x.lookup-expire key (x.seconds (pos (suc n))) (r.hset key new (arrival w)).1 j
                      (x.seconds_pos n),
                  r.lookup-hset key new (arrival w) j,
                  r.lookup-hset key new (arrival w) key,
                  r.clock-hset key new (arrival w),
                  q,
                )
                (ground (arith, str_eq_iff key key)),
        )
      ]
