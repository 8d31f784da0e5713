-- ===== src/Client/Safe.antt =====
-- Invariants of the data set across requests: what every command and everyone else keeps, a
-- sequence of requests keeps.
use xredis.Prelude.{◌≡◌, List, [], ◌∷◌, All, sym, subst, refl}
use xredis.Exec.{Exec}
use xredis.Client.{
  World, Event, Fault, delivered, refused, lost_reply, round_trip, arrival, arrive, depart,
}

-- It holds now, and what happens around the coming requests keeps it.
pub record IsSafe {S : Type 0} (P : S → Type 0) (w : World S) : Type 0 where
  pub now : P w.server
  pub later : All (λ (e : Event S). (s : S) → P s → P (e.others s)) w.schedule

-- Two worlds with the same data set and the same things to come.
abbrev pub SamePlace : {S : Type 0} → World S → World S → Type 0
SamePlace u v = (u.server ≡ v.server) × (u.schedule ≡ v.schedule)

module _ {S : Type 0} (P : S → Type 0) where
  abbrev Keeps : List (Event S) → Type 0
  Keeps l = All (λ (e : Event S). (s : S) → P s → P (e.others s)) l

  pub IsSafe-same : {u v : World S} → SamePlace u v → IsSafe P v → IsSafe P u
  IsSafe-same p h = record { now = subst P (sym p.0) h.now; later = subst Keeps (sym p.1) h.later }

  arrival_now :
      (w : World S) (l : List (Event S)) → w.schedule ≡ l → Keeps l → P w.server → P (arrival w)
  arrival_now w [] e k p = rw (e, arrival) p
  arrival_now w (event ∷ rest) e k p = rw (e, arrival) (k.0 w.server p)

  pub arrival-IsSafe : (w : World S) → IsSafe P w → P (arrival w)
  arrival-IsSafe w h = arrival_now w w.schedule refl h.later h.now

module _ {S A : Type 0} (P : S → Type 0) (command : Exec S A)
    (keeps : (s : S) → P s → P (command s).1) where
  arrive-IsSafe : (f : Fault) (w : World S) → IsSafe P w → IsSafe P (arrive command f w).1
  arrive-IsSafe delivered w h = record { now = keeps w.server h.now; later = h.later }
  arrive-IsSafe (refused e) w h = h
  arrive-IsSafe (lost_reply e) w h = record { now = keeps w.server h.now; later = h.later }

  depart-IsSafe :
      (l : List (Event S)) (w : World S) → Keeps P l → IsSafe P w → IsSafe P (depart command w l).1
  depart-IsSafe [] w k h = arrive-IsSafe delivered w h
  depart-IsSafe (event ∷ rest) w k h =
      arrive-IsSafe event.fault _ (record { now = k.0 w.server h.now; later = k.1 })

  pub round_trip-IsSafe : (w : World S) → IsSafe P w → IsSafe P (round_trip command w).1
  unfolding round_trip
  round_trip-IsSafe w h = depart-IsSafe w.schedule w h.later h

module _ {S A : Type 0} (Q : Event S → Type 0) (command : Exec S A) where
  All-arrive : (f : Fault) (w : World S) → All Q w.schedule → All Q (arrive command f w).1.schedule
  All-arrive delivered w h = h
  All-arrive (refused e) w h = h
  All-arrive (lost_reply e) w h = h

  All-depart :
      (l : List (Event S)) (w : World S)
      → w.schedule ≡ l
      → All Q l
      → All Q (depart command w l).1.schedule
  All-depart [] w e h = All-arrive delivered w (rw e h)
  All-depart (event ∷ rest) w e h =
      All-arrive event.fault
        (record { server = event.others w.server; schedule = rest; measured = w.measured }) h.1

  -- What holds of every coming event holds of those that a request leaves.
  pub All-round_trip : (w : World S) → All Q w.schedule → All Q (round_trip command w).1.schedule
  unfolding round_trip
  All-round_trip w h = All-depart w.schedule w refl h
