-- ===== src/Examples/Memory.antt =====
-- An in-memory data set that obeys every law of the interface: the laws are consistent, and tests
-- run on it.
use xredis.Prelude.{
  ◌&&◌, ℕ, zero, ◌-◌, ◌/◌, str_eq_iff, arith, suc, ◌+◌, ◌≡◌, refl, ap, inl, String, Option, none,
  some, List, ℤ, pos, negsuc, pos_part, str_eq, ◌==◌, if◌then◌else◌,
}
use xredis.Exec.{Result, ok, Exec}
use xredis.Examples.Numbers.{
  show_int, read_int, read_int-show_int_lem, read_whole-read_int, whole_numbers,
}
use xredis.Redis.{
  Redis, Ttl, px, no_ttl, keep_ttl, str, Entry, get_reply, count_reply, pttl_reply, hget_reply,
  hmget_reply, members_of, fields_of, ttl_deadline, with_deadline, int_of, incr_int, or_keep,
  str_entry, ok_map, count_new, put_fields, entry_of_fields, deadline_of, field_count, get_field,
  remove_field, drop_upto, entry_of_members, put_member,
}

pub record Memory : Type 0 where
  pub now : ℕ
  pub table : String → Option Entry

-- the entry at one key is given anew
abbrev pub put : String → Option Entry → Memory → Memory
put k e s = record s { table = λ j. if str_eq k j then e else s.table j }

abbrev pub write :
    {A : Type 0}
    → String
    → (Option Entry → Option Entry)
    → (Option Entry → Result A)
    → Exec Memory A
write k f reply s = (reply (s.table k), put k (f (s.table k)) s)

-- At least one millisecond, and whole ones only.
pred_ms : ℕ → ℕ
pred_ms n = (n + 1) / 1000000 - 1

unfoldable pub ttl_arg : ℤ → Ttl
unfolding pred_ms
ttl_arg (pos zero) = no_ttl
ttl_arg (pos (suc n)) = px (suc (pred_ms n))
ttl_arg (negsuc n) = keep_ttl

pub ttl_arg_zero_lem : ttl_arg (pos 0) ≡ no_ttl
unfolding ttl_arg
ttl_arg_zero_lem = refl

pub ttl_arg_keep_lem : ttl_arg (negsuc 0) ≡ keep_ttl
unfolding ttl_arg
ttl_arg_keep_lem = refl

pub ttl_arg_pos_lem : (n : ℕ) → (m : ℕ) × (ttl_arg (pos (suc n)) ≡ px (suc m))
unfolding ttl_arg
ttl_arg_pos_lem n = (pred_ms n, refl)

-- SET with NX
abbrev pub nx_entry : String → Option ℕ → Option Entry → Option Entry
nx_entry v t e = if count_reply e == 0 then some (record { value = str v; deadline = t }) else e

pub nx_entry_lem :
    (k j v : String) (t : Option ℕ) (s : Memory)
    → (put k (nx_entry v t (s.table k)) s).table j ≡ (
        if (count_reply (s.table k) == 0) && str_eq k j
        then some (record { value = str v; deadline = t })
        else s.table j)
nx_entry_lem k j v t s = ground (arith, str_eq_iff k j)

abbrev pub memory : Redis
memory = record {
  State = Memory;
  clock = λ s. s.now;
  lookup = λ s k. s.table k;
  show_int = show_int;
  read_int = read_int;
  lua = whole_numbers;
  read_int-show_int = read_int-show_int_lem;
  tonumber-read_int = λ v n h. read_whole-read_int v n h;
  read_time = read_int;
  read_time-show_int = λ s u h. read_int-show_int_lem (pos u);
  get = λ s k. get_reply (s.table k);
  exists = λ s k. count_reply (s.table k);
  pttl = λ s k. pttl_reply s.now (s.table k);
  hget = λ s k f. hget_reply f (s.table k);
  hmget = λ s k fs. hmget_reply fs (s.table k);
  zrange = λ s k. members_of (s.table k);
  get_lem = λ s k. refl;
  exists_lem = λ s k. refl;
  pttl_lem = λ s k. refl;
  hget_lem = λ s k f. refl;
  hmget_lem = λ s k fs. refl;
  zrange_lem = λ s k. refl;
  set = λ k v t s.
      write k (λ e. some (record { value = str v; deadline = ttl_deadline t s.now e })) (λ e. ok tt)
        s;
  set_lem = λ k v t s p. refl;
  lookup-set = λ k v t s j p. refl;
  clock-set = λ k v t s. refl;
  ttl_arg = ttl_arg;
  ttl_arg_zero = ttl_arg_zero_lem;
  ttl_arg_keep = ttl_arg_keep_lem;
  ttl_arg_pos = ttl_arg_pos_lem;
  set_nx =
      λ k v t s. write k (nx_entry v (ttl_deadline t s.now none)) (λ e. ok (count_reply e == 0)) s;
  set_nx_lem = λ k v t s p. refl;
  lookup-set_nx = λ k v t s j p. nx_entry_lem k j v (ttl_deadline t s.now none) s;
  del = λ k. write k (λ e. none) (λ e. ok (count_reply e));
  del_lem = λ k s. refl;
  lookup-del = λ k s j. refl;
  clock-del = λ k s. refl;
  pexpire = λ k ms s. write k (with_deadline (some (s.now + ms))) (λ e. ok (count_reply e)) s;
  pexpire_lem = λ k ms s p. refl;
  lookup-pexpire = λ k ms s j p. refl;
  clock-pexpire = λ k ms s. refl;
  pexpire_number =
      λ k n s. write k (with_deadline (some (s.now + pos_part n))) (λ e. ok (count_reply e)) s;
  pexpire_number-cases = λ k n s p. inl refl;
  pexpire_number_lem = λ k n s p q. refl;
  persist = λ k. write k (with_deadline none) (λ e. ok (count_reply e));
  lookup-persist = λ k s j. refl;
  persist-IsOk = λ k s. (count_reply (s.table k), refl);
  incr = λ k.
      write k (λ e. or_keep (str_entry show_int e) (incr_int (int_of read_int e)) e)
        (λ e. incr_int (int_of read_int e));
  incr_lem = λ k s. refl;
  lookup-incr = λ k s j. refl;
  clock-incr = λ k s. refl;
  hset = λ k new.
      write k
        (λ e. or_keep (λ fs. entry_of_fields (put_fields new fs) (deadline_of e)) (fields_of e) e)
        (λ e. ok_map (count_new new) (fields_of e));
  hset_lem = λ k new s. refl;
  lookup-hset = λ k new s j. refl;
  clock-hset = λ k new s. refl;
  hdel = λ k f.
      write k
        (λ e. or_keep (λ fs. entry_of_fields (remove_field f fs) (deadline_of e)) (fields_of e) e)
        (λ e. ok_map (λ fs. field_count (get_field f fs)) (fields_of e));
  hdel_lem = λ k f s. refl;
  lookup-hdel = λ k f s j. refl;
  zremrangebyscore = λ k max.
      write k
        (λ e. or_keep (λ ms. entry_of_members (drop_upto max ms) (deadline_of e)) (members_of e) e)
        (λ e. ok_map (λ ms. 0) (members_of e));
  zremrangebyscore_lem = λ k max s ms h. (0, ap (ok_map (λ (ms : List (ℤ × String)). 0)) h);
  lookup-zremrangebyscore = λ k max s j. refl;
  clock-zremrangebyscore = λ k max s. refl;
  zadd = λ k n m.
      write k
        (λ e. or_keep (λ ms. entry_of_members (put_member n m ms) (deadline_of e)) (members_of e) e)
        (λ e. ok_map (λ ms. 1) (members_of e));
  zadd_lem = λ k n m s ms h. (1, ap (ok_map (λ (ms : List (ℤ × String)). 1)) h);
  lookup-zadd = λ k n m s j. refl;
  clock-zadd = λ k n m s. refl;
}
