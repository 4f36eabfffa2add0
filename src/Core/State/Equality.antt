-- ===== src/Core/State/Equality.antt =====
-- The derived `==` tests, and equality.
use mathlib.Core.Bool.{decide_iff}
use lensguard.Prelude.{◌≡◌, ◌↔◌, true}
use lensguard.Core.Model.{CameraSession, CameraSession-discrete}
use lensguard.Core.Capture.{
  ObserverAvailability, ObserverAvailability-discrete, SuppressionDiagnostics,
  SuppressionDiagnostics-discrete,
}
use lensguard.Core.State.{session_eq, availability_eq, diagnostics_eq}

pub session_eq_iff : (a b : CameraSession) → (session_eq a b ≡ true) ↔ (a ≡ b)
unfolding session_eq
session_eq_iff a b = decide_iff (CameraSession-discrete a b)

pub availability_eq_iff : (a b : ObserverAvailability) → (availability_eq a b ≡ true) ↔ (a ≡ b)
unfolding availability_eq
availability_eq_iff a b = decide_iff (ObserverAvailability-discrete a b)

pub diagnostics_eq_iff : (a b : SuppressionDiagnostics) → (diagnostics_eq a b ≡ true) ↔ (a ≡ b)
unfolding diagnostics_eq
diagnostics_eq_iff a b = decide_iff (SuppressionDiagnostics-discrete a b)
