-- ===== src/Config/Ring.antt =====
-- The shards of a ring: which address a name gets.
use xredis.Prelude.{
  ◌≡◌, is_empty, if◌then◌else◌, refl, subst, String, Bool, false, not, ◌&&◌, some, List, [], ◌∷◌,
  ◌++◌, All, arith, str_eq, str_eq_iff,
}
use xredis.Exec.{ok}
use xredis.Redis.{get_field}
use xredis.Redis.Fields.{get_field-put_field}
use xredis.Pipeline.{is_none}
use xredis.Options.{Runtime}
use xredis.Options.Apply.{fresh, apply_ring_options}
use xredis.Config.{
  RingConfig, RingOptions, ring_config, is_blank, put_addrs, normalize_ring_addrs, ring_options,
}

module _ (trim : String → String) where
  -- An entry that is kept under the name, with another address.
  abbrev pub clashes : String → String → String × String → Bool
  clashes name addr (n, a) =
      not (is_blank trim n)
      && not (is_blank trim a)
      && str_eq (trim n) name
      && not (str_eq (trim a) addr)

  stays :
      (n a : String) (es out : List (String × String))
      → All (λ (p : String × String). clashes n a p ≡ false) es
      → get_field n out ≡ some a
      → get_field n (put_addrs trim es out) ≡ some a
  stays n a [] out c h = h
  stays n a ((m, b) ∷ es) out c h = stays n a es _ c.1 (
      ground (
        arith,
        get_field-put_field (trim m) (trim b) n out,
        str_eq_iff (trim m) n,
        str_eq_iff (trim b) a,
      ))

  found :
      (name addr : String) (before after out : List (String × String))
      → All
          (λ (p : String × String). clashes (trim name) (trim addr) p ≡ false)
          (before ++ (name, addr) ∷ after)
      → is_blank trim name ≡ false
      → is_blank trim addr ≡ false
      → get_field (trim name) (put_addrs trim (before ++ (name, addr) ∷ after) out)
        ≡ some (trim addr)
  found name addr [] after out c p q = stays (trim name) (trim addr) after _ c.1 (
      ground (
        arith,
        get_field-put_field (trim name) (trim addr) (trim name) out,
        str_eq_iff (trim name) (trim name),
      ))
  found name addr (e ∷ before) after out c p q = found name addr before after _ c.1 p q

  not_none :
      (n a : String) (out : List (String × String)) → get_field n out ≡ some a → is_none out ≡ false
  not_none n a [] h = absurd (ground arith)
  not_none n a (e ∷ out) h = refl

  -- Whatever the order in which Go goes through the map of shards: if an entry has a name and an
  -- address that are not blank, and no entry gives the same name, up to blanks around it, another
  -- address that is not blank, then the ring's configuration is accepted, the trimmed name has the
  -- trimmed address, and the other settings are as configured. The client's name is the client id,
  -- and the identity suffix of the runtime options, if there is one, wins over the configured one.
  pub ring_options_keeps :
      {H : Type 0} (opts : Runtime H) (cfg : RingConfig) (name addr : String)
      (before after : List (String × String))
      → cfg.addrs ≡ before ++ (name, addr) ∷ after
      → All (λ (p : String × String). clashes (trim name) (trim addr) p ≡ false) cfg.addrs
      → is_blank trim name ≡ false
      → is_blank trim addr ≡ false
      → (o : RingOptions H) × (ring_options trim opts (ring_config cfg) ≡ ok o)
        × (get_field (trim name) o.addrs ≡ some (trim addr))
        × (o.settings ≡ cfg.settings)
        × (o.connection.client_name ≡ opts.client_id)
        × (o.connection.identity_suffix
            ≡ (if is_empty opts.identity_suffix then cfg.identity_suffix else opts.identity_suffix))
  unfolding ring_options normalize_ring_addrs
  ring_options_keeps opts cfg name addr before after e c p q =
      let out = put_addrs trim cfg.addrs [] in
      let there : get_field (trim name) out ≡ some (trim addr) = rw e (
        found name addr before after []
          (subst
            (λ (es : List (String × String)).
              All (λ (x : String × String). clashes (trim name) (trim addr) x ≡ false) es)
            e c)
          p q) in
      (
        record {
          addrs = out;
          settings = cfg.settings;
          connection = apply_ring_options opts (fresh cfg.identity_suffix);
        },
        rw (not_none (trim name) (trim addr) out there) refl,
        there,
        refl,
        refl,
        refl,
      )
