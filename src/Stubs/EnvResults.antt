-- ===== src/Stubs/EnvResults.antt =====
-- The stubs of environments at the types of their declarations.
use tezos_master_lib_p2p.Prelude.{◌≡◌, refl, true, some-Returns}
use tezos_master_lib_p2p.Stubs.Value.{Value, custom_val, int_val, int64_val, string_val, val_long}
use tezos_master_lib_p2p.Stubs.Types.{
  int_type, bool_type, unit_type, string_type, handle_type, int64_type, result_type, ints_type,
  has_type,
}
use tezos_master_lib_p2p.Stubs.Reads.{
  int-Reads, bool-Reads, int64-Reads, handle-Reads, string-Reads, result_value-typed,
}
use tezos_master_lib_p2p.Stubs.Apply.{Typed, reading}
use tezos_master_lib_p2p.Stubs.Env.{
  EnvCalls, stub_mdb_version, stub_mdb_strerror, stub_mdb_env_create, stub_mdb_env_set_maxreaders,
  stub_mdb_env_set_maxdbs, stub_mdb_env_set_mapsize, stub_mdb_env_open, stub_mdb_env_close,
  stub_mdb_env_copy2, stub_mdb_env_copyfd2, stub_mdb_env_stat, stub_mdb_env_info, stub_mdb_env_sync,
  stub_mdb_env_set_flags, stub_mdb_env_get_flags, stub_mdb_env_get_path, stub_mdb_env_get_fd,
  stub_mdb_env_get_maxreaders, stub_mdb_env_get_maxkeysize, caml_mdb_stat,
}

module _ {W : Type 0} (mdb : EnvCalls W) (w : W) where
  pub version-Typed :
      (a : Value) → has_type unit_type a ≡ true → Typed (ints_type 3) (stub_mdb_version mdb w a)
  unfolding stub_mdb_version
  version-Typed a ha = some-Returns _ refl

  pub strerror-Typed :
      (a : Value) → has_type int_type a ≡ true → Typed string_type (stub_mdb_strerror mdb w a)
  unfolding stub_mdb_strerror
  strerror-Typed a ha =
      reading int_type string_type int_val a int-Reads ha (λ x0. some-Returns _ refl)

  pub create-Typed :
      (a : Value)
      → has_type unit_type a ≡ true
      → Typed (result_type handle_type) (stub_mdb_env_create mdb w a)
  unfolding stub_mdb_env_create
  create-Typed a ha = some-Returns _ (result_value-typed handle_type _ _ refl)

  pub set_maxreaders-Typed :
      (a b : Value)
      → has_type handle_type a ≡ true
      → has_type int_type b ≡ true
      → Typed int_type (stub_mdb_env_set_maxreaders mdb w a b)
  unfolding stub_mdb_env_set_maxreaders
  set_maxreaders-Typed a b ha hb =
      reading handle_type int_type custom_val a handle-Reads ha
        (λ x0. reading int_type int_type int_val b int-Reads hb (λ x1. some-Returns _ refl))

  pub set_maxdbs-Typed :
      (a b : Value)
      → has_type handle_type a ≡ true
      → has_type int_type b ≡ true
      → Typed int_type (stub_mdb_env_set_maxdbs mdb w a b)
  unfolding stub_mdb_env_set_maxdbs
  set_maxdbs-Typed a b ha hb =
      reading handle_type int_type custom_val a handle-Reads ha
        (λ x0. reading int_type int_type int_val b int-Reads hb (λ x1. some-Returns _ refl))

  pub set_mapsize-Typed :
      (a b : Value)
      → has_type handle_type a ≡ true
      → has_type int64_type b ≡ true
      → Typed int_type (stub_mdb_env_set_mapsize mdb w a b)
  unfolding stub_mdb_env_set_mapsize
  set_mapsize-Typed a b ha hb =
      reading handle_type int_type custom_val a handle-Reads ha
        (λ x0. reading int64_type int_type int64_val b int64-Reads hb (λ x1. some-Returns _ refl))

  pub opendir-Typed :
      (a b c d : Value)
      → has_type handle_type a ≡ true
      → has_type string_type b ≡ true
      → has_type int_type c ≡ true
      → has_type int_type d ≡ true
      → Typed int_type (stub_mdb_env_open mdb w a b c d)
  unfolding stub_mdb_env_open
  opendir-Typed a b c d ha hb hc hd =
      reading handle_type int_type custom_val a handle-Reads ha (λ x0.
        reading string_type int_type string_val b string-Reads hb (λ x1.
          reading int_type int_type int_val c int-Reads hc
            (λ x2. reading int_type int_type int_val d int-Reads hd (λ x3. some-Returns _ refl))))

  pub closedir-Typed :
      (a : Value) → has_type handle_type a ≡ true → Typed unit_type (stub_mdb_env_close mdb w a)
  unfolding stub_mdb_env_close
  closedir-Typed a ha =
      reading handle_type unit_type custom_val a handle-Reads ha (λ x0. some-Returns _ refl)

  pub copy-Typed :
      (a b c : Value)
      → has_type handle_type a ≡ true
      → has_type string_type b ≡ true
      → has_type int_type c ≡ true
      → Typed int_type (stub_mdb_env_copy2 mdb w a b c)
  unfolding stub_mdb_env_copy2
  copy-Typed a b c ha hb hc = reading handle_type int_type custom_val a handle-Reads ha (λ x0.
      reading string_type int_type string_val b string-Reads hb
        (λ x1. reading int_type int_type int_val c int-Reads hc (λ x2. some-Returns _ refl)))

  pub copyfd-Typed :
      (a b c : Value)
      → has_type handle_type a ≡ true
      → has_type int_type b ≡ true
      → has_type int_type c ≡ true
      → Typed int_type (stub_mdb_env_copyfd2 mdb w a b c)
  unfolding stub_mdb_env_copyfd2
  copyfd-Typed a b c ha hb hc = reading handle_type int_type custom_val a handle-Reads ha (λ x0.
      reading int_type int_type int_val b int-Reads hb
        (λ x1. reading int_type int_type int_val c int-Reads hc (λ x2. some-Returns _ refl)))

  pub stat-Typed :
      (a : Value) → has_type handle_type a ≡ true → Typed (ints_type 6) (stub_mdb_env_stat mdb w a)
  unfolding stub_mdb_env_stat caml_mdb_stat val_long
  stat-Typed a ha =
      reading handle_type (ints_type 6) custom_val a handle-Reads ha (λ x0. some-Returns _ refl)

  pub envinfo-Typed :
      (a : Value) → has_type handle_type a ≡ true → Typed (ints_type 5) (stub_mdb_env_info mdb w a)
  unfolding stub_mdb_env_info val_long
  envinfo-Typed a ha =
      reading handle_type (ints_type 5) custom_val a handle-Reads ha (λ x0. some-Returns _ refl)

  pub sync-Typed :
      (a b : Value)
      → has_type handle_type a ≡ true
      → has_type bool_type b ≡ true
      → Typed int_type (stub_mdb_env_sync mdb w a b)
  unfolding stub_mdb_env_sync
  sync-Typed a b ha hb =
      reading handle_type int_type custom_val a handle-Reads ha
        (λ x0. reading bool_type int_type int_val b bool-Reads hb (λ x1. some-Returns _ refl))

  pub setclear_flags-Typed :
      (a b c : Value)
      → has_type handle_type a ≡ true
      → has_type int_type b ≡ true
      → has_type bool_type c ≡ true
      → Typed int_type (stub_mdb_env_set_flags mdb w a b c)
  unfolding stub_mdb_env_set_flags
  setclear_flags-Typed a b c ha hb hc =
      reading handle_type int_type custom_val a handle-Reads ha (λ x0.
        reading int_type int_type int_val b int-Reads hb
          (λ x1. reading bool_type int_type int_val c bool-Reads hc (λ x2. some-Returns _ refl)))

  pub get_flags-Typed :
      (a : Value) → has_type handle_type a ≡ true → Typed int_type (stub_mdb_env_get_flags mdb w a)
  unfolding stub_mdb_env_get_flags
  get_flags-Typed a ha =
      reading handle_type int_type custom_val a handle-Reads ha (λ x0. some-Returns _ refl)

  pub get_path-Typed :
      (a : Value)
      → has_type handle_type a ≡ true
      → Typed string_type (stub_mdb_env_get_path mdb w a)
  unfolding stub_mdb_env_get_path
  get_path-Typed a ha =
      reading handle_type string_type custom_val a handle-Reads ha (λ x0. some-Returns _ refl)

  pub get_fd-Typed :
      (a : Value) → has_type handle_type a ≡ true → Typed int_type (stub_mdb_env_get_fd mdb w a)
  unfolding stub_mdb_env_get_fd
  get_fd-Typed a ha =
      reading handle_type int_type custom_val a handle-Reads ha (λ x0. some-Returns _ refl)

  pub get_maxreaders-Typed :
      (a : Value)
      → has_type handle_type a ≡ true
      → Typed int_type (stub_mdb_env_get_maxreaders mdb w a)
  unfolding stub_mdb_env_get_maxreaders
  get_maxreaders-Typed a ha =
      reading handle_type int_type custom_val a handle-Reads ha (λ x0. some-Returns _ refl)

  pub get_maxkeysize-Typed :
      (a : Value)
      → has_type handle_type a ≡ true
      → Typed int_type (stub_mdb_env_get_maxkeysize mdb w a)
  unfolding stub_mdb_env_get_maxkeysize
  get_maxkeysize-Typed a ha =
      reading handle_type int_type custom_val a handle-Reads ha (λ x0. some-Returns _ refl)
