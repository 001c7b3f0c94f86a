-- ===== src/Config/Errors.antt =====
-- What `load` can raise (src/agentvm/config.py).
use agent_vm.Base.{
  ◌||◌, text_eq, String, Bool, true, false, Option, none, some, List, [], ◌∷◌, ◌≡◌, refl,
}
use agent_vm.Python.Result.{
  Error, Result, ok, raise, value_error, overflow_error, config_error, yaml_error, key_error,
  type_error, os_error, integrity_error, programming_error, runtime_error, dependency_error,
}
use agent_vm.Python.Dict.{Dict}
use agent_vm.Python.Failing.{Raises, returns, raises, Raises->>=, weaken, raised}
use agent_vm.Python.Text.{Text}
use agent_vm.Python.Value.{null}
use agent_vm.Capacity.Readings.{Reading, contents, unreadable, undecodable}
use agent_vm.Config.Coerce.{Yaml, scalar, mapping, Entries, Kind}
use agent_vm.Config.Records.{AgentVmConfig}
use agent_vm.Config.Sections.{
  section_entries, load_field, load_section, load_host, load_storage, load_network, load_resources,
  load_auth_proxy, load_shared_folder, load_api, load_security, load_observability,
}
use agent_vm.Config.Validate.{Problem, made, ensure_directories, required_dirs, validate}
use agent_vm.Config.{
  Surroundings, as_load_error, root_entries, parse_text, load_yaml, selected_path, accept, build,
  load,
}
use agent_vm.Config.Raises.{is_section_error, as_config_error-Raises, coerce_value-Raises, or-true}

module _ {safe_load : Text → Result Yaml} {may : Error → Bool}
    (raising : (t : Text) → Raises may (safe_load t)) where
  load_field-Raises :
      (env : Dict Text Text) (section : String) (source : Entries) (name : String) (k : Kind)
      (default : Yaml)
      → Raises (is_section_error may) (load_field safe_load env section source name k default)
  unfolding load_field
  load_field-Raises env section source name k default =
      as_config_error-Raises may (coerce_value-Raises raising k _)

  module _ (env : Dict Text Text) (source : Entries) where
    ruleset fields = (Raises->>=, load_field-Raises, returns)

    load_host-Raises : Raises (is_section_error may) (load_host safe_load env source)
    unfolding load_host
    load_host-Raises = search fields depth 12

    load_storage-Raises : Raises (is_section_error may) (load_storage safe_load env source)
    unfolding load_storage
    load_storage-Raises = search fields depth 12

    load_network-Raises : Raises (is_section_error may) (load_network safe_load env source)
    unfolding load_network
    load_network-Raises = search fields depth 12

    load_resources-Raises : Raises (is_section_error may) (load_resources safe_load env source)
    unfolding load_resources
    load_resources-Raises = search fields depth 12

    load_auth_proxy-Raises : Raises (is_section_error may) (load_auth_proxy safe_load env source)
    unfolding load_auth_proxy
    load_auth_proxy-Raises = search fields depth 12

    load_shared_folder-Raises :
        Raises (is_section_error may) (load_shared_folder safe_load env source)
    unfolding load_shared_folder
    load_shared_folder-Raises = search fields depth 12

    load_api-Raises : Raises (is_section_error may) (load_api safe_load env source)
    unfolding load_api
    load_api-Raises = search fields depth 12

    load_security-Raises : Raises (is_section_error may) (load_security safe_load env source)
    unfolding load_security
    load_security-Raises = search fields depth 12

    load_observability-Raises :
        Raises (is_section_error may) (load_observability safe_load env source)
    unfolding load_observability
    load_observability-Raises = search fields depth 12

section_entries-Raises :
    (may : Error → Bool) (o : Option Yaml) → Raises (is_section_error may) (section_entries o)
section_entries-Raises may none = returns
section_entries-Raises may (some (scalar null)) = returns
section_entries-Raises may (some (mapping t es)) = returns
section_entries-Raises may (some y) = raises refl

-- The bytes of the file are no text.
abbrev pub is_undecodable : Result (Option Reading) → Bool
is_undecodable (ok (some undecodable)) = true
is_undecodable _ = false

-- What `load` raises, with `found` at its path and `may` what its surroundings raise.
abbrev pub is_load_error : Result (Option Reading) → (Error → Bool) → Error → Bool
is_load_error found may config_error = true
is_load_error found may overflow_error = true
is_load_error found may value_error = is_undecodable found || may value_error
is_load_error found may error = may error

module _ (found : Result (Option Reading)) (may : Error → Bool) where
  may-load : (error : Error) → may error ≡ true → is_load_error found may error ≡ true
  may-load config_error _ = refl
  may-load overflow_error _ = refl
  may-load value_error h = rw h (or-true (is_undecodable found))
  may-load key_error h = h
  may-load type_error h = h
  may-load yaml_error h = h
  may-load integrity_error h = h
  may-load programming_error h = h
  may-load runtime_error h = h
  may-load os_error h = h
  may-load dependency_error h = h

  section-load :
      (error : Error) → is_section_error may error ≡ true → is_load_error found may error ≡ true
  section-load config_error _ = refl
  section-load overflow_error _ = refl
  section-load value_error h = may-load value_error h
  section-load key_error h = h
  section-load type_error h = h
  section-load yaml_error h = h
  section-load integrity_error h = h
  section-load programming_error h = h
  section-load runtime_error h = h
  section-load os_error h = h
  section-load dependency_error h = h

  as_load_error-Raises :
      {A : Type 0} {r : Result A}
      → Raises (is_load_error found may) r
      → Raises (is_load_error found may) (as_load_error r)
  as_load_error-Raises returns = returns
  as_load_error-Raises (raises {error = os_error} _) = raises refl
  as_load_error-Raises (raises {error = yaml_error} _) = raises refl
  as_load_error-Raises (raises {error = config_error} h) = raises h
  as_load_error-Raises (raises {error = overflow_error} h) = raises h
  as_load_error-Raises (raises {error = value_error} h) = raises h
  as_load_error-Raises (raises {error = key_error} h) = raises h
  as_load_error-Raises (raises {error = type_error} h) = raises h
  as_load_error-Raises (raises {error = integrity_error} h) = raises h
  as_load_error-Raises (raises {error = programming_error} h) = raises h
  as_load_error-Raises (raises {error = runtime_error} h) = raises h
  as_load_error-Raises (raises {error = dependency_error} h) = raises h

  root_entries-Raises : (y : Yaml) → Raises (is_load_error found may) (root_entries y)
  root_entries-Raises (scalar null) = returns
  root_entries-Raises (mapping t es) = returns
  root_entries-Raises y = raises refl

  accept-Raises :
      (config : AgentVmConfig) (problems : List Problem)
      → Raises (is_load_error found may) (accept config problems)
  accept-Raises config [] = returns
  accept-Raises config (problem ∷ problems) = raises refl

abbrev pub is_os_error : Error → Bool
is_os_error os_error = true
is_os_error _ = false

-- `except OSError` around `mkdir`
made-Raises :
    (may : Error → Bool) (entry : Text) {r : Result (Unit {0})}
    → Raises (λ error. is_os_error error || may error) r
    → Raises may (made entry r)
made-Raises may entry returns = returns
made-Raises may entry (raises {error = os_error} _) = returns
made-Raises may entry (raises {error = config_error} h) = raises h
made-Raises may entry (raises {error = overflow_error} h) = raises h
made-Raises may entry (raises {error = value_error} h) = raises h
made-Raises may entry (raises {error = key_error} h) = raises h
made-Raises may entry (raises {error = type_error} h) = raises h
made-Raises may entry (raises {error = yaml_error} h) = raises h
made-Raises may entry (raises {error = integrity_error} h) = raises h
made-Raises may entry (raises {error = programming_error} h) = raises h
made-Raises may entry (raises {error = runtime_error} h) = raises h
made-Raises may entry (raises {error = dependency_error} h) = raises h

module _ (w : Surroundings) (may : Error → Bool) (raising : (t : Text) → Raises may (w.safe_load t))
    (exists : (path : Text) → Raises may (w.file path))
    (making : (path : Text) → Raises (λ error. is_os_error error || may error) (w.mkdir path)) where
  load_section-Raises :
      {A : Type 0} (load_fields : Entries → Result A) (section : String) (source : Entries)
      → ((es : Entries) → Raises (is_section_error may) (load_fields es))
      → Raises (is_section_error may) (load_section w.safe_load w.env load_fields section source)
  unfolding load_section
  load_section-Raises load_fields section source h = Raises->>= (section_entries-Raises may _) h

  build-Raises : (source : Entries) → Raises (is_section_error may) (build w source)
  unfolding build
  build-Raises source =
      search
        (
          Raises->>=,
          load_section-Raises,
          load_host-Raises raising,
          load_storage-Raises raising,
          load_network-Raises raising,
          load_resources-Raises raising,
          load_auth_proxy-Raises raising,
          load_shared_folder-Raises raising,
          load_api-Raises raising,
          load_security-Raises raising,
          load_observability-Raises raising,
          returns,
        )
        depth 12

  parsed-Raises :
      (reading : Reading)
      → Raises
          (is_load_error (ok (some reading)) may)
          (as_load_error (parse_text w.safe_load reading))
  parsed-Raises unreadable = raises refl
  parsed-Raises undecodable = raises refl
  parsed-Raises (contents t) =
      let found = ok (some (contents t)) in
      as_load_error-Raises found may (weaken (may-load found may) (raising t))

  load_yaml-Raises :
      (found : Result (Option Reading))
      → Raises may found
      → Raises (is_load_error found may) (load_yaml w.safe_load found)
  unfolding load_yaml
  load_yaml-Raises (raise error) (raises passed) = raises (may-load (raise error) may error passed)
  load_yaml-Raises (ok none) _ = returns
  load_yaml-Raises (ok (some reading)) _ =
      Raises->>= (parsed-Raises reading) (root_entries-Raises (ok (some reading)) may)

  ensure_directories-Raises :
      (entries : List Text) → Raises may (ensure_directories w.mkdir entries)
  unfolding ensure_directories
  ensure_directories-Raises [] = returns
  ensure_directories-Raises (entry ∷ entries) =
      Raises->>= (made-Raises may entry (making entry))
        (λ _. Raises->>= (ensure_directories-Raises entries) (λ _. returns))

  validate-Raises : (config : AgentVmConfig) → Raises may (validate w.ipv6 w.mkdir config)
  unfolding validate
  validate-Raises config =
      Raises->>= (ensure_directories-Raises (required_dirs config)) (λ _. returns)

  load-Raises :
      (config_path : Option Text)
      → Raises (is_load_error (w.file (selected_path config_path w.env)) may) (load w config_path)
  unfolding load
  load-Raises config_path =
      let path = selected_path config_path w.env in
      let found = w.file path in
      Raises->>= (load_yaml-Raises found (exists path)) (λ source.
        Raises->>= (weaken (section-load found may) (build-Raises source)) (λ config.
          Raises->>= (weaken (may-load found may) (validate-Raises config))
            (accept-Raises found may config)))

  -- For every set of exceptions `may`: where it has what `yaml.safe_load` and `exists` raise, and what
  -- `mkdir` raises but `OSError`, `load` raises nothing but a `ConfigError`, an `OverflowError`, a
  -- `ValueError` where the bytes of the file are no text, and exceptions in `may`.
  pub load-raise :
      (config_path : Option Text) (error : Error)
      → load w config_path ≡ raise error
      → is_load_error (w.file (selected_path config_path w.env)) may error ≡ true
  load-raise config_path error h = raised (load-Raises config_path) h
