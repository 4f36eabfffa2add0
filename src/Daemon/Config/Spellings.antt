-- ===== src/Daemon/Config/Spellings.antt =====
-- daemon/src/config.rs: what `parse_from` makes of a well-formed command line.
use lensguard.Paths.{OsString, unicode}
use lensguard.Daemon.Config.{
  Command, run, inspect_v4l2, watch_v4l2, serve_dbus, version, help, Level, trace, debug, info,
  warn, error, Config, ConfigError, conflicting_commands, parse_log_level, parse_command,
  parse_argument, parse_loop, parse_from, replace_command,
}
use lensguard.Strings.{to_ascii_lowercase, strip_prefix}
use lensguard.Prelude.{
  false, Option, none, some, List, [], ◌∷◌, ◌++◌, Text, codes, text_eq, Result, ok, err, ◌>>=◌, ◌≡◌,
  refl, ◌∙◌,
}

-- An element of a command line: a command, or a level in either spelling.
pub data Item : Type 0 where
  select : Command → Item
  level_behind level_joined : Level → Item

abbrev pub command_text : Command → Text
command_text run = codes "run"
command_text inspect_v4l2 = codes "inspect-v4l2"
command_text watch_v4l2 = codes "watch-v4l2"
command_text serve_dbus = codes "serve-dbus"
command_text version = codes "--version"
command_text help = codes "--help"

abbrev pub level_text : Level → Text
level_text trace = codes "trace"
level_text debug = codes "debug"
level_text info = codes "info"
level_text warn = codes "warn"
level_text error = codes "error"

abbrev pub spell : List Item → List OsString
spell [] = []
spell (select c ∷ items) = unicode (command_text c) ∷ spell items
spell (level_behind l ∷ items) =
    unicode (codes "--log-level") ∷ unicode (level_text l) ∷ spell items
spell (level_joined l ∷ items) = unicode (codes "--log-level=" ++ level_text l) ∷ spell items

abbrev pub commands : List Item → List Command
commands [] = []
commands (select c ∷ items) = c ∷ commands items
commands (level_behind l ∷ items) = commands items
commands (level_joined l ∷ items) = commands items

-- The last level, or the one given.
abbrev pub last_level : Level → List Item → Level
last_level l [] = l
last_level l (select c ∷ items) = last_level l items
last_level l (level_behind k ∷ items) = last_level k items
last_level l (level_joined k ∷ items) = last_level k items

-- No command stands for `run`, and two are in conflict.
abbrev pub meaning : List Command → Level → Result ConfigError Config
meaning [] l = ok (record { command = run; log_level = l })
meaning (c ∷ []) l = ok (record { command = c; log_level = l })
meaning (c ∷ d ∷ _) l = err (conflicting_commands c d)

-- The commands read so far.
abbrev given : Option Command → List Command
given none = []
given (some c) = c ∷ []

parse_loop-step :
    (config : Config) (o : Option Command) (a : Text) (rest : List OsString)
    → text_eq a (codes "--log-level") ≡ false
    → parse_loop config o (unicode a ∷ rest)
      ≡ (parse_argument config o a >>= λ after. parse_loop after.0 after.1 rest)
unfolding parse_loop
parse_loop-step config o a [] d = rw (d, parse_loop)
parse_loop-step config o a (value ∷ rest) d = rw (d, parse_loop)

parse_log_level-level_text : (l : Level) → parse_log_level (level_text l) ≡ ok l
unfolding parse_log_level to_ascii_lowercase text_eq
parse_log_level-level_text trace = refl
parse_log_level-level_text debug = refl
parse_log_level-level_text info = refl
parse_log_level-level_text warn = refl
parse_log_level-level_text error = refl

command_text-plain : (c : Command) → text_eq (command_text c) (codes "--log-level") ≡ false
unfolding text_eq
command_text-plain run = refl
command_text-plain inspect_v4l2 = refl
command_text-plain watch_v4l2 = refl
command_text-plain serve_dbus = refl
command_text-plain version = refl
command_text-plain help = refl

parse_argument-command_text :
    (config : Config) (o : Option Command) (c : Command)
    → parse_argument config o (command_text c)
      ≡ (replace_command o c >>= λ replaced. ok (config, replaced))
unfolding parse_argument parse_command strip_prefix text_eq
parse_argument-command_text config o run = refl
parse_argument-command_text config o inspect_v4l2 = refl
parse_argument-command_text config o watch_v4l2 = refl
parse_argument-command_text config o serve_dbus = refl
parse_argument-command_text config o version = refl
parse_argument-command_text config o help = refl

parse_argument-joined :
    (config : Config) (o : Option Command) (l : Level)
    → parse_argument config o (codes "--log-level=" ++ level_text l)
      ≡ ok (record config { log_level = l }, o)
unfolding parse_argument strip_prefix
parse_argument-joined config o l = rw (parse_log_level-level_text l)

joined-plain :
    (l : Level) → text_eq (codes "--log-level=" ++ level_text l) (codes "--log-level") ≡ false
unfolding text_eq
joined-plain l = refl

parse_loop-behind :
    (config : Config) (o : Option Command) (l : Level) (rest : List OsString)
    → parse_loop config o (unicode (codes "--log-level") ∷ unicode (level_text l) ∷ rest)
      ≡ parse_loop (record config { log_level = l }) o rest
unfolding parse_loop text_eq
parse_loop-behind config o l rest = rw (parse_log_level-level_text l)

parse_loop-spell :
    (items : List Item) (l : Level) (o : Option Command)
    → parse_loop (record { command = run; log_level = l }) o (spell items)
      ≡ meaning (given o ++ commands items) (last_level l items)
unfolding parse_loop
parse_loop-spell [] l none = refl
parse_loop-spell [] l (some c) = refl
parse_loop-spell (select c ∷ items) l none = rw (
  parse_loop-step (record { command = run; log_level = l }) none (command_text c) (spell items)
      (command_text-plain c),
  parse_argument-command_text (record { command = run; log_level = l }) none c,
  parse_loop-spell items l (some c),
)
parse_loop-spell (select c ∷ items) l (some d) = rw (
  parse_loop-step (record { command = run; log_level = l }) (some d) (command_text c) (spell items)
      (command_text-plain c),
  parse_argument-command_text (record { command = run; log_level = l }) (some d) c,
)
parse_loop-spell (level_behind k ∷ items) l o =
    parse_loop-behind (record { command = run; log_level = l }) o k (spell items)
    ∙ parse_loop-spell items k o
parse_loop-spell (level_joined k ∷ items) l o = rw (
  parse_loop-step (record { command = run; log_level = l }) o (codes "--log-level=" ++ level_text k)
      (spell items) (joined-plain k),
  parse_argument-joined (record { command = run; log_level = l }) o k,
  parse_loop-spell items k o,
)

-- A command line of commands and levels, a level spelled in either way, is read as it is meant:
-- the last level counts, and without one `info`; without a command `run` is meant, and of two
-- commands the first two are reported to be in conflict.
pub parse_from-spell :
    (items : List Item)
    → parse_from (spell items) ≡ meaning (commands items) (last_level info items)
parse_from-spell items = parse_loop-spell items info none
