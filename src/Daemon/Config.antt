-- ===== src/Daemon/Config.antt =====
-- daemon/src/config.rs: the arguments of the command line.
pub mod Spellings
use lensguard.Paths.{OsString, unicode, other}
use lensguard.Strings.{to_ascii_lowercase, strip_prefix}
use lensguard.Prelude.{
  ℕ, ◌+◌, Bool, true, false, ◌&&◌, Option, none, some, List, [], ◌∷◌, map, Text, codes, text_eq,
  leb, ◌==◌, if◌then◌else◌, Result, ok, err, ◌>>=◌, ◌≡◌, refl,
}

pub data Command : Type 0 where
  run inspect_v4l2 watch_v4l2 serve_dbus version help : Command

-- `tracing::Level`
pub data Level : Type 0 where
  trace debug info warn error : Level

pub record Config : Type 0 where
  pub command : Command
  pub log_level : Level

abbrev pub default_config : Config
default_config = record { command = run; log_level = info }

pub data ConfigError : Type 0 where
  non_unicode_argument missing_log_level : ConfigError
  invalid_log_level unknown_argument : Text → ConfigError
  conflicting_commands : Command → Command → ConfigError

unfoldable pub parse_log_level : Text → Result ConfigError Level
parse_log_level value =
    let lower = to_ascii_lowercase value in
    if text_eq lower (codes "trace")
    then ok trace
    else (if text_eq lower (codes "debug")
        then ok debug
        else (if text_eq lower (codes "info")
            then ok info
            else (if text_eq lower (codes "warn")
                then ok warn
                else (if text_eq lower (codes "error")
                    then ok error
                    else err (invalid_log_level value)))))

-- The `match` of `parse_from`.
unfoldable pub parse_command : Text → Result ConfigError Command
parse_command argument =
    if text_eq argument (codes "run")
    then ok run
    else (if text_eq argument (codes "inspect-v4l2")
        then ok inspect_v4l2
        else (if text_eq argument (codes "watch-v4l2")
            then ok watch_v4l2
            else (if text_eq argument (codes "serve-dbus")
                then ok serve_dbus
                else (if text_eq argument (codes "--version")
                    then ok version
                    else (if text_eq argument (codes "-V")
                        then ok version
                        else (if text_eq argument (codes "--help")
                            then ok help
                            else (if text_eq argument (codes "-h")
                                then ok help
                                else err (unknown_argument argument))))))))

-- `OsString::into_string`, with its error mapped.
abbrev pub into_string : OsString → Result ConfigError Text
into_string (unicode s) = ok s
into_string (other _) = err non_unicode_argument

-- `command.replace(parsed)` and the test for a conflict.
abbrev pub replace_command : Option Command → Command → Result ConfigError (Option Command)
replace_command none parsed = ok (some parsed)
replace_command (some first) parsed = err (conflicting_commands first parsed)

-- The end of the loop's body: an argument other than `--log-level`.
unfoldable pub parse_argument :
    Config → Option Command → Text → Result ConfigError (Config × Option Command)
parse_argument config command argument = elim (strip_prefix (codes "--log-level=") argument) [
  | some value ↦
      parse_log_level value >>= λ level. ok (record config { log_level = level }, command)
  | none ↦ parse_command argument >>= λ parsed.
      replace_command command parsed >>= λ replaced. ok (config, replaced)
]

-- What follows the loop.
abbrev pub selected : Config → Option Command → Config
selected config none = config
selected config (some command) = record config { command = command }

-- The loop of `parse_from`, with `config` and `command` as they are at its head.
unfoldable pub parse_loop : Config → Option Command → List OsString → Result ConfigError Config
parse_loop config command [] = ok (selected config command)
parse_loop config command (other _ ∷ rest) = err non_unicode_argument
parse_loop config command (unicode argument ∷ []) = elim (text_eq argument (codes "--log-level")) [
  | true ↦ err missing_log_level
  | false ↦ parse_argument config command argument >>= λ after. ok (selected after.0 after.1)
]
parse_loop config command (unicode argument ∷ value ∷ rest) =
    elim (text_eq argument (codes "--log-level")) [
      | true ↦ into_string value >>= λ text. parse_log_level text >>= λ level.
          parse_loop (record config { log_level = level }) command rest
      | false ↦ parse_argument config command argument >>= λ after.
          parse_loop after.0 after.1 (value ∷ rest)
    ]

-- `parse_from`
abbrev pub parse_from : List OsString → Result ConfigError Config
parse_from arguments = parse_loop default_config none arguments
