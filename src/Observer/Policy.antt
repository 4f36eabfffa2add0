-- ===== src/Observer/Policy.antt =====
-- observer/src/policy.rs: which executables are media brokers.
--
-- `serde_json` and what the file system says of
-- an executable are parameters.
pub mod Owners
use mathlib.Core.Bool.{decide}
use lensguard.Prelude.{
  ℕ, Bool, true, false, not, ◌||◌, ◌&&◌, List, [], ◌∷◌, Option, none, some, Result, ok, err, ◌>>=◌,
  ◌>>◌, fail_if, ok_or, Text, trim, is_empty, any, ◌==◌, text_eq, if◌then◌else◌, ℕ_discrete,
}
use lensguard.Core.Capture.{CaptureOwner}
use lensguard.Paths.{FilePath, path_eq, file_name}

pub data PolicyError : Type 0 where
  read parse empty : PolicyError
  version : ℕ → PolicyError

pub record TrustedBroker : Type 0 where
  pub id : Text
  pub executable_paths : List FilePath

pub record TrustedBrokerPolicy : Type 0 where
  pub schema_version : ℕ
  pub brokers : List TrustedBroker

-- The guard on each broker.
abbrev pub is_incomplete : TrustedBroker → Bool
is_incomplete broker = is_empty (trim broker.id) || is_empty broker.executable_paths

-- `from_json`, with what `serde_json` makes of the text.
unfoldable pub from_json :
    (Text → Option TrustedBrokerPolicy) → Text → Result PolicyError TrustedBrokerPolicy
from_json from_str json = do
  policy ← ok_or (from_str json) parse
  fail_if (not (policy.schema_version == 1)) (version policy.schema_version)
  fail_if (is_empty policy.brokers || any is_incomplete policy.brokers) empty
  ok policy

abbrev pub lists : FilePath → TrustedBroker → Bool
lists executable broker = any (λ path. path_eq path executable) broker.executable_paths

-- The loop over the brokers, which returns at the first that lists the executable.
unfoldable pub listed_owner : Bool → FilePath → List TrustedBroker → Option CaptureOwner
listed_owner trusted executable [] = none
listed_owner trusted executable (broker ∷ rest) =
    if lists executable broker
    then some (if trusted then CaptureOwner.broker_owned else CaptureOwner.unknown)
    else listed_owner trusted executable rest

abbrev pub name_is : Text → Option Text → Bool
name_is name none = false
name_is name (some candidate) = text_eq candidate name

abbrev pub has_namesake : Text → TrustedBroker → Bool
has_namesake name broker =
    any (λ (path : FilePath). name_is name (file_name path)) broker.executable_paths

-- `resembles_broker`
unfoldable pub resembles_broker : TrustedBrokerPolicy → FilePath → Bool
resembles_broker policy executable = elim (file_name executable) [
  | none ↦ false
  | some name ↦ any (has_namesake name) policy.brokers
]

-- `classify_executable_with`
unfoldable pub classify_executable_with :
    TrustedBrokerPolicy → FilePath → (FilePath → Bool) → CaptureOwner
classify_executable_with policy executable trusted_identity =
    elim (listed_owner (trusted_identity executable) executable policy.brokers) [
      | some owner ↦ owner
      | none ↦
          if resembles_broker policy executable then CaptureOwner.unknown else CaptureOwner.direct
    ]

-- `classify_process`: the link to the executable, if it can be read.
unfoldable pub classify_process :
    TrustedBrokerPolicy → Option FilePath → (FilePath → Bool) → CaptureOwner
classify_process policy none trusted_identity = CaptureOwner.unknown
classify_process policy (some executable) trusted_identity =
    classify_executable_with policy executable trusted_identity
