-- ===== src/Settings/Parsed.antt =====
-- The settings that `parse_from` gives.
use weave_gate.Common.{
  arith, String, ◌≡◌, ◌⊎◌, inl, inr, refl, sym, ap, ◌∙◌, subst, Bool, true, false, Option, none,
  some, List, [], ◌∷◌, ◌==◌, unwrap_or, Bool-cases, if◌then◌else◌, Result, ok, ok_or, ok_or-eq-ok,
  ensure, context, context-eq-ok, ensure-eq-ok, >>=-eq-ok, eq_iff,
}
use weave_gate.Common.Pairs.{ok_inj, some_inj}
use weave_gate.Http.{Http}
use weave_gate.Settings.General.{General, FileGeneral, merge}
use weave_gate.Settings.Advanced.{compile_advanced, in_option}
use weave_gate.Settings.Advanced.Compiled.{
  Optional, IsAdvanced, compile_advanced-IsAdvanced, in_option-Optional,
}
use weave_gate.Settings.{
  FileSettings, System, Settings, read, read_found, read_file_settings, to_use_config_file,
  general_of, with_file, without_file, parse_from,
}

-- the names that are looked for first, in order
abbrev pub default_names : List String
default_names = "./weavegate.toml" ∷ "./sws.toml" ∷ "./edgegate.toml" ∷ "./config.toml" ∷ []

abbrev pub first_where : (String → Bool) → List String → Option String
first_where p [] = none
first_where p (s ∷ ss) = if p s then some s else first_where p ss

module _ (L : Http) (sys : System L) where
  abbrev pub chosen : String → String
  chosen config_file = unwrap_or (first_where sys.compilers.is_file default_names) config_file

  to_use_config_file-eq :
      (config_file : String) → to_use_config_file L sys config_file ≡ chosen config_file
  unfolding to_use_config_file
  to_use_config_file-eq config_file = ground arith

  -- The settings of the file that was read, over those of the command line.
  abbrev pub IsRead : General → String → Settings L → Type 0
  IsRead opts path settings =
      (sys.canonicalize path ≡ some settings.config_file)
      × (sys.extension settings.config_file ≡ some "toml")
      × ((file : FileSettings L) × (sys.read_toml_file settings.config_file ≡ some file)
          × (file.general ≡ none → settings.general ≡ opts)
          × ((general : FileGeneral)
              → file.general ≡ some general
              → merge general opts ≡ ok settings.general)
          × Optional (IsAdvanced L sys.compilers) file.advanced settings.advanced)

  read-eq-ok :
      (path : String) (file : FileSettings L)
      → read L sys path ≡ ok file
      → (sys.extension path ≡ some "toml") × (sys.read_toml_file path ≡ some file)
  unfolding read
  read-eq-ok path file h =
      let (ext, e, h₁) = >>=-eq-ok (ok_or (sys.extension path) _) _ h in
      let (_, toml, h₂) = >>=-eq-ok (ensure (ext == "toml") _) _ h₁ in
      (
        ok_or-eq-ok _ _ e ∙ ap some ((eq_iff ext "toml").0 (ensure-eq-ok _ _ toml)),
        ok_or-eq-ok _ _ h₂,
      )

  general_of-merge :
      (file : Option FileGeneral) (opts result : General)
      → general_of L sys file opts ≡ ok result
      → (file ≡ none → result ≡ opts)
        × ((general : FileGeneral) → file ≡ some general → merge general opts ≡ ok result)
  unfolding general_of
  general_of-merge none opts result h = (λ _. sym (ok_inj h), λ g e. cc)
  general_of-merge (some g) opts result h = (λ e. cc, λ g' e. rw (sym (some_inj e)) h)

  with_file-IsRead :
      (opts : General) (path config_file : String) (file : FileSettings L) (settings : Settings L)
      → sys.canonicalize path ≡ some config_file
      → read L sys config_file ≡ ok file
      → with_file L sys opts (file, config_file) ≡ ok settings
      → IsRead opts path settings
  unfolding with_file
  with_file-IsRead opts path config_file file settings resolved is_read h =
      let (general, e₁, h₁) = >>=-eq-ok (general_of L sys file.general opts) _ h in
      let (advanced, e₂, h₂) =
        >>=-eq-ok (in_option (compile_advanced L sys.compilers) file.advanced) _ h₁ in
      let (toml, parsed) = read-eq-ok config_file file is_read in
      let (kept, merged) = general_of-merge file.general opts general e₁ in
      subst (IsRead opts path) (ok_inj h₂) (
        resolved,
        toml,
        (
          file,
          parsed,
          kept,
          merged,
          in_option-Optional _ _ (compile_advanced-IsAdvanced L sys.compilers) file.advanced
              advanced e₂,
        ),
      )

  -- the file and the resolved path of what was found
  abbrev IsFound : String → Option (FileSettings L × String) → Type 0
  IsFound path found =
      (file : FileSettings L) × (config_file : String) × (found ≡ some (file, config_file))
      × (sys.canonicalize path ≡ some config_file)
      × (read L sys config_file ≡ ok file)

  read_found-IsFound :
      (path : String) (found : Option (FileSettings L × String))
      → read_found L sys path ≡ ok found
      → IsFound path found
  unfolding read_found
  read_found-IsFound path found h =
      let (config_file, e₁, h₁) = >>=-eq-ok (ok_or (sys.canonicalize path) _) _ h in
      let (file, e₂, h₂) = >>=-eq-ok (context _ (read L sys config_file)) _ h₁ in
      (file, config_file, sym (ok_inj h₂), ok_or-eq-ok _ _ e₁, context-eq-ok _ _ e₂)

  read_file_settings-there :
      (path : String)
      → sys.compilers.is_file path ≡ true
      → read_file_settings L sys path ≡ read_found L sys path
  unfolding read_file_settings
  read_file_settings-there path e = rw (e) refl

  read_file_settings-missing :
      (path : String) → sys.compilers.is_file path ≡ false → read_file_settings L sys path ≡ ok none
  unfolding read_file_settings
  read_file_settings-missing path e = rw (e) refl

  -- what `parse_from` goes on with
  abbrev rest_of : General → String → Option (FileSettings L × String) → Result (Settings L)
  rest_of opts config_file none = ok (without_file L sys opts config_file)
  rest_of opts config_file (some file) = with_file L sys opts file

  after_read :
      (opts : General) (config_file : String) (settings : Settings L)
      → parse_from L sys opts config_file ≡ ok settings
      → (found : Option (FileSettings L × String)) × (read_file_settings L sys (chosen config_file)
          ≡ ok found)
        × (rest_of opts config_file found ≡ ok settings)
  unfolding parse_from
  after_read opts config_file settings h =
      let (found, e, h') =
        >>=-eq-ok (read_file_settings L sys (to_use_config_file L sys config_file)) _ h in
      (found, rw (sym (to_use_config_file-eq config_file)) e, h')

  -- Where the settings are accepted: the file that is read is the first of the four default names that is
  -- there, and only without any of them the one that the command line names. Where that file is not
  -- there, the settings are the command line's without advanced options. Otherwise they are those of the
  -- file that its resolved path names, which must end in `.toml`: a missing `general` part leaves the
  -- command line's options as they are, a given one is merged into them, and the advanced options are
  -- there exactly if the file has them, each compiled.
  pub parse_from-IsRead :
      (opts : General) (config_file : String) (settings : Settings L)
      → parse_from L sys opts config_file ≡ ok settings
      → ((sys.compilers.is_file (chosen config_file) ≡ false)
          × (settings ≡ without_file L sys opts config_file))
        ⊎ ((sys.compilers.is_file (chosen config_file) ≡ true)
            × IsRead opts (chosen config_file) settings)
  parse_from-IsRead opts config_file settings h =
      let (found, e, h') = after_read opts config_file settings h in
      elim (Bool-cases (sys.compilers.is_file (chosen config_file))) [
        | inr missing ↦
            let nothing =
              ok_inj (sym e ∙ read_file_settings-missing (chosen config_file) missing) in
            inl (missing, sym (ok_inj (ap (rest_of opts config_file) (sym nothing) ∙ h')))
        | inl there ↦
            let (file, path, same, resolved, is_read) =
              read_found-IsFound (chosen config_file) found
                (sym (read_file_settings-there (chosen config_file) there) ∙ e) in
            inr (
              there,
              with_file-IsRead opts (chosen config_file) path file settings resolved is_read
                  (ap (rest_of opts config_file) (sym same) ∙ h'),
            )
      ]
