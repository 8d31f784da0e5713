-- ===== src/Examples/Commands.antt =====
-- commands.go on the in-memory server, whose further commands come first.
use xredis.Prelude.{
  ℕ, suc, ◌+◌, ◌*◌, ◌&&◌, ◌==◌, ◌≡◌, refl, String, Option, none, some, List, [], ◌∷◌, pos_part,
  arith, str_eq, str_eq_iff, if◌then◌else◌,
}
use xredis.Exec.{ok}
use xredis.Redis.{
  Entry, str, get_reply, hget_reply, count_reply, field_count, fields_of, ok_map, or_keep,
  ttl_deadline, with_deadline, int_of, hget_reply,
}
use xredis.Redis.More.{MoreCommands}
use xredis.Codec.{Codec}
use xredis.Client.{round_trip}
use xredis.Commands.{get_struct, set_struct, h_set}
use xredis.Commands.Values.{get_struct-set_struct, h_set_expires}
use xredis.Examples.Memory.{Memory, memory, put, write}
use xredis.Examples.Numbers.{read_int}
use xredis.Examples.Cas.{held}
use xredis.Examples.Lock.{second}

abbrev xx_entry : String → (Option Entry → Option ℕ) → Option Entry → Option Entry
xx_entry v t e = if count_reply e == 1 then some (record { value = str v; deadline = t e }) else e

xx_entry_lem :
    (k j v : String) (t : Option Entry → Option ℕ) (s : Memory)
    → (put k (xx_entry v t (s.table k)) s).table j ≡ (
        if (count_reply (s.table k) == 1) && str_eq k j
        then some (record { value = str v; deadline = t (s.table k) })
        else s.table j)
xx_entry_lem k j v t s = ground (arith, str_eq_iff k j)

abbrev more : MoreCommands memory
more = record {
  h_exists = λ s k f. ok_map (λ v. field_count v == 1) (hget_reply f (s.table k));
  h_exists_lem = λ s k f. refl;
  h_incr_by = λ k f n s. (ok n, s);
  h_get_all = λ s k. fields_of (s.table k);
  h_get_all_lem = λ s k. refl;
  h_del_many = λ k fs s. (ok 0, s);
  decr = λ k. write k (λ e. e) (λ e. int_of read_int e);
  expire = λ k n s. write k (with_deadline (some (s.now + n * 1000))) (λ e. ok (count_reply e)) s;
  expire_lem = λ k n s p. refl;
  lookup-expire = λ k n s j p. refl;
  seconds = λ d. suc (pos_part d);
  seconds_pos = λ n. omega arith;
  get_del = λ k. write k (λ e. or_keep (λ v. none) (get_reply e) e) (λ e. get_reply e);
  get_del_lem = λ k s. refl;
  lookup-get_del = λ k s j. refl;
  get_ex = λ k t s.
      write k (λ e. or_keep (λ v. with_deadline (ttl_deadline t s.now none) e) (get_reply e) e)
        (λ e. get_reply e) s;
  get_ex_lem = λ k t s p. refl;
  lookup-get_ex = λ k t s j p. refl;
  set_xx = λ k v t s. write k (xx_entry v (ttl_deadline t s.now)) (λ e. ok (count_reply e == 1)) s;
  set_xx_lem = λ k v t s p. refl;
  lookup-set_xx = λ k v t s j p. xx_entry_lem k j v (ttl_deadline t s.now) s;
}

abbrev quoted : Codec String
quoted = record { marshal = λ s. ok s; unmarshal = λ s. ok s }

get_struct-set_struct_example :
    (get_struct memory more quoted "u" (set_struct memory more quoted "u" "bob" second held).1).0
    ≡ ok (some "bob")
get_struct-set_struct_example =
    (get_struct-set_struct memory more quoted "u" "bob" "bob" 1000000000 held refl refl refl).1

abbrev one_field : List String → List (String × String)
one_field vs = ("f", "new") ∷ []

h_set_expires_example :
    (fs : List (String × String)) × (fields_of (memory.lookup held.server "h") ≡ ok fs)
unfolding h_set round_trip
h_set_expires_example =
    let (fs, p, q) = h_set_expires memory more one_field "h" 4 "f" ("new" ∷ []) held refl in (fs, p)
