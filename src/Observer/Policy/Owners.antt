-- ===== src/Observer/Policy/Owners.antt =====
-- Which owner an executable gets, as a statement about the paths of the policy.
use mathlib.Core.Bool.{decide_iff}
use lensguard.Prelude.{
  text_eq_iff, if◌then◌else◌, ◌≡◌, refl, ◌↔◌, ◌≢◌, Bool, true, false, List, [], ◌∷◌, none, some,
  arith, inl, inr, any, Bool-cases, Text, All,
}
use lensguard.Core.Capture.{CaptureOwner}
use lensguard.Paths.{FilePath, FilePath-discrete, path_eq, file_name}
use lensguard.Observer.Policy.{
  TrustedBroker, TrustedBrokerPolicy, name_is, lists, has_namesake, listed_owner, resembles_broker,
  classify_executable_with,
}

listed_owner-any :
    (trusted : Bool) (x : FilePath) (brokers : List TrustedBroker)
    → listed_owner trusted x brokers ≡ (
        if any (lists x) brokers
        then some (if trusted then CaptureOwner.broker_owned else CaptureOwner.unknown)
        else none)
unfolding listed_owner any
listed_owner-any trusted x [] = refl
listed_owner-any trusted x (b ∷ rest) = elim (Bool-cases (lists x b)) [
  | inl listed ↦ rw (listed, listed_owner) refl
  | inr unlisted ↦ rw (unlisted, listed_owner) (listed_owner-any trusted x rest)
]

-- A test that fails on every element.
any-All {ℓ} : {A : Type ℓ} (p : A → Bool) (l : List A) → any p l ≡ false → All (λ a. p a ≡ false) l
unfolding any
any-All p [] h = tt
any-All p (a ∷ l) h = (ground arith, any-All p l (ground arith))

-- The path is neither the executable nor one with its name.
pub record IsForeign (executable path : FilePath) : Type 0 where
  pub another : path ≢ executable
  pub no_namesake : (name : Text) → file_name executable ≡ some name → file_name path ≢ some name

-- No path of any broker is.
abbrev pub IsUnrelated : TrustedBrokerPolicy → FilePath → Type 0
IsUnrelated policy executable =
    All (λ (b : TrustedBroker). All (IsForeign executable) b.executable_paths) policy.brokers

path_eq_iff : (a b : FilePath) → (path_eq a b ≡ true) ↔ (a ≡ b)
unfolding path_eq
path_eq_iff a b = decide_iff (FilePath-discrete a b)

paths-IsForeign :
    (x : FilePath) (l : List FilePath)
    → any (λ path. path_eq path x) l ≡ false
    → ((name : Text)
        → file_name x ≡ some name
        → any (λ (path : FilePath). name_is name (file_name path)) l ≡ false)
    → All (IsForeign x) l
unfolding any
paths-IsForeign x [] h k = tt
paths-IsForeign x (path ∷ l) h k = (
  record {
    another = λ e. ground (arith, path_eq_iff path x);
    no_namesake = λ name e f. ground (arith, k name e, text_eq_iff name name);
  },
  paths-IsForeign x l (ground arith) (λ name e. ground (arith, k name e)),
)

brokers-IsUnrelated :
    (x : FilePath) (l : List TrustedBroker)
    → any (lists x) l ≡ false
    → ((name : Text) → file_name x ≡ some name → any (has_namesake name) l ≡ false)
    → All (λ (b : TrustedBroker). All (IsForeign x) b.executable_paths) l
unfolding any
brokers-IsUnrelated x [] h k = tt
brokers-IsUnrelated x (b ∷ l) h k = (
  paths-IsForeign x b.executable_paths (ground arith) (λ name e. ground (arith, k name e)),
  brokers-IsUnrelated x l (ground arith) (λ name e. ground (arith, k name e)),
)

-- An executable is taken for a direct user of the camera only if no broker of the policy lists its
-- path, and none lists a path with its file name.
pub classify_executable_with-IsUnrelated :
    (policy : TrustedBrokerPolicy) (executable : FilePath) (trusted : FilePath → Bool)
    → classify_executable_with policy executable trusted ≡ CaptureOwner.direct
    → IsUnrelated policy executable
unfolding classify_executable_with resembles_broker
classify_executable_with-IsUnrelated policy executable trusted h =
    brokers-IsUnrelated executable policy.brokers
      (ground (arith, listed_owner-any (trusted executable) executable policy.brokers))
      (λ name e. ground (arith, listed_owner-any (trusted executable) executable policy.brokers))
