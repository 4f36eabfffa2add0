-- ===== src/Observer/Events/Provenance.antt =====
-- From the start of the observer: where the captures that it tells come from.
use lensguard.Prelude.{ℕ, ◌≡◌, refl, ◌⊎◌, inl, inr, List, [], ◌∷◌, some, Text, Result, ok, err, All}
use lensguard.Core.Capture.{ObserverAvailability}
use lensguard.Observer.Bpf.{KernelOperation}
use lensguard.Observer.Messages.{RoutedMessage, SharedStatus, set_availability}
use lensguard.Observer.Policy.{TrustedBrokerPolicy}
use lensguard.Observer.Events.{Candidate, Wake, event, tick, build_candidate, process_kernel_events}
use lensguard.Observer.Events.Safety.{
  AllTold, AllTold-last, IsTold, IsSafe, Informs, process_kernel_events-IsSafe,
}
use lensguard.Observer.Startup.{new_status, start_up, processor}

module _ (IsKnown : ℕ → Candidate → Type 0) where
  pub AllTold-set_availability :
      (a : ObserverAvailability) (t : Text) (s : SharedStatus)
      → AllTold IsKnown s.messages
      → AllTold IsKnown (set_availability a t s).messages
  unfolding set_availability
  AllTold-set_availability a t s h = AllTold-last IsKnown s.messages _ h tt

  AllTold-start_up :
      (policy : Result Text TrustedBrokerPolicy) (attached : Result Text (Unit {0}))
      → AllTold IsKnown (start_up policy attached).messages
  unfolding start_up
  AllTold-start_up (ok policy) (ok _) = AllTold-set_availability _ _ new_status tt
  AllTold-start_up (ok policy) (err e) = AllTold-set_availability _ _ new_status tt
  AllTold-start_up (err d) (ok _) = AllTold-set_availability _ _ new_status tt
  AllTold-start_up (err d) (err e) =
      AllTold-set_availability _ _ _ (AllTold-set_availability _ _ new_status tt)

  pub started-IsSafe :
      (policy : Result Text TrustedBrokerPolicy) (attached : Result Text (Unit {0}))
      (wakes : List Wake)
      → All (Informs IsKnown) wakes
      → IsSafe IsKnown (process_kernel_events wakes (processor (start_up policy attached)))
  started-IsSafe policy attached wakes k =
      process_kernel_events-IsSafe IsKnown wakes (processor (start_up policy attached)) k
        (record { told = AllTold-start_up policy attached; followed = tt })

-- The user started the capture on the way, and this is how it was looked up then.
abbrev pub IsStarted : List Wake → ℕ → Candidate → Type 0
IsStarted [] user_id c = ⊥
IsStarted (event raw lookups ∷ rest) user_id c =
    ((raw.operation ≡ KernelOperation.stream_started)
      × (raw.user_id ≡ user_id)
      × (build_candidate raw lookups ≡ some c))
    ⊎ IsStarted rest user_id c
IsStarted (tick exists ∷ rest) user_id c = IsStarted rest user_id c

All-Informs :
    (IsKnown : ℕ → Candidate → Type 0) (wakes : List Wake)
    → ((user_id : ℕ) (c : Candidate) → IsStarted wakes user_id c → IsKnown user_id c)
    → All (Informs IsKnown) wakes
All-Informs IsKnown [] f = tt
All-Informs IsKnown (event raw lookups ∷ rest) f = (
  λ c started built. f raw.user_id c (inl (started, refl, built)),
  All-Informs IsKnown rest (λ u c h. f u c (inr h)),
)
All-Informs IsKnown (tick exists ∷ rest) f = (tt, All-Informs IsKnown rest f)

-- Whatever the kernel reports, and whatever the file system says, from the start of the observer on:
-- a capture is sent only to one user, only if it is about a process and a camera that this user was
-- seen to start and that were looked up then as those of a direct owner, so never of a broker and
-- never of an unknown owner, and only if the event passes the daemon's validation; counts go to one
-- user; nothing but availability goes to all.
pub process_kernel_events-IsTold :
    (policy : Result Text TrustedBrokerPolicy) (attached : Result Text (Unit {0}))
    (wakes : List Wake)
    → All
        (λ (m : RoutedMessage). IsTold (IsStarted wakes) m.user_id m.message)
        (process_kernel_events wakes (processor (start_up policy attached))).shared.messages
process_kernel_events-IsTold policy attached wakes =
    (started-IsSafe (IsStarted wakes) policy attached wakes
      (All-Informs (IsStarted wakes) wakes (λ u c h. h))).told
