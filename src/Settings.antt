-- ===== src/Settings.antt =====
-- settings/mod.rs, `parse_from`, and settings/file.rs, `read`: which configuration file is read, and the
-- settings that come of it and of the command line. `System` holds the file system (whether a path is
-- a regular file, its resolved form) and the parsed TOML of a file, which the crates `toml` and `serde`
-- give. Logging is left out.
pub mod General
pub mod Advanced
pub mod Parsed
pub mod Tests
use weave_gate.Common.{
  String, Option, none, some, ◌==◌, if◌then◌else◌, Result, ok, ok_or, ensure, context, ◌>>=◌, ◌>>◌,
}
use weave_gate.Http.{Http}
use weave_gate.Settings.General.{General as GeneralOpts, FileGeneral, merge}
use weave_gate.Settings.Advanced.{
  Advanced as AdvancedOpts, Compilers, FileAdvanced, compile_advanced, in_option,
}

-- file.rs
pub record FileSettings (L : Http) : Type 0 where
  pub general : Option FileGeneral
  pub advanced : Option (FileAdvanced L)

pub record System (L : Http) : Type 0 where
  pub compilers : Compilers
  pub canonicalize : String → Option String
  pub extension : String → Option String
  pub read_toml_file : String → Option (FileSettings L)

-- the settings, with the path of the file that was read, or else of the command line
pub record Settings (L : Http) : Type 0 where
  pub general : GeneralOpts
  pub config_file : String
  pub advanced : Option (AdvancedOpts L)

module _ (L : Http) (sys : System L) where
  -- file.rs, `Settings::read`; a path without a name has no extension
  unfoldable pub read : String → Result (FileSettings L)
  read config_file = do
    ext ← ok_or (sys.extension config_file) "configuration file should be in toml format"
    ensure (ext == "toml") "configuration file should be in toml format"
    ok_or (sys.read_toml_file config_file) "error reading toml configuration file"

  -- a file that is there
  unfoldable pub read_found : String → Result (Option (FileSettings L × String))
  read_found config_file = do
    file_path_resolved ←
        ok_or (sys.canonicalize config_file) "unable to resolve toml config file path"
    settings ← context "unable to read toml config file" (read file_path_resolved)
    ok (some (settings, file_path_resolved))

  unfoldable pub read_file_settings : String → Result (Option (FileSettings L × String))
  read_file_settings config_file =
      if sys.compilers.is_file config_file then read_found config_file else ok none

  unfoldable pub to_use_config_file : String → String
  to_use_config_file config_file =
      if sys.compilers.is_file "./weavegate.toml"
      then "./weavegate.toml"
      else if sys.compilers.is_file "./sws.toml"
      then "./sws.toml"
      else if sys.compilers.is_file "./edgegate.toml"
      then "./edgegate.toml"
      else if sys.compilers.is_file "./config.toml"
      then "./config.toml"
      else config_file

  unfoldable pub general_of : Option FileGeneral → GeneralOpts → Result GeneralOpts
  general_of none opts = ok opts
  general_of (some general) opts = merge general opts

  -- with the file that was read
  unfoldable pub with_file : GeneralOpts → FileSettings L × String → Result (Settings L)
  with_file opts (settings, config_file_resolved) = do
    general ← general_of settings.general opts
    advanced ← in_option (compile_advanced L sys.compilers) settings.advanced
    ok (record { general = general; config_file = config_file_resolved; advanced = advanced })

  unfoldable pub without_file : GeneralOpts → String → Settings L
  without_file opts config_file = record {
    general = opts;
    config_file = config_file;
    advanced = none;
  }

  unfoldable pub parse_from : GeneralOpts → String → Result (Settings L)
  parse_from opts config_file = read_file_settings (to_use_config_file config_file) >>= λ found.
      elim found [ none ↦ ok (without_file opts config_file) | some file ↦ with_file opts file ]
