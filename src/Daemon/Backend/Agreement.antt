-- ===== src/Daemon/Backend/Agreement.antt =====
-- The supervisor and the state that consumes what it sends: what it is that they agree.
use lensguard.Prelude.{◌≡◌, refl, ◌∙◌, false, List, [], ◌∷◌, ◌++◌, Option, none, some}
use lensguard.OrderedMap.AnyValue.{any_value}
use lensguard.Core.Model.{SessionId}
use lensguard.Core.Machine.Invariant.{new_machine-IsValid}
use lensguard.Core.State.{MonitorEvent, MonitorState}
use lensguard.Daemon.Application.{reduce_and_reconcile}
use lensguard.Daemon.Source.{ObserverEventSource}
use lensguard.Daemon.Source.Mirror.{tracked, consume, consume-append}
use lensguard.Daemon.Backend.{Supervisor, SupervisorExit}
use lensguard.Daemon.Backend.Polls.{InStep, IsFresh}

-- Without a source no session is tracked, with one it is in step.
abbrev pub Agrees : Option ObserverEventSource → MonitorState → Type 0
Agrees none s = (id : SessionId) → tracked id s ≡ false
Agrees (some source) s = InStep source s

-- The supervisor agrees with the state that has consumed what it sent.
abbrev pub IsMirrored : MonitorState → Supervisor ObserverEventSource → Type 0
IsMirrored start s = Agrees s.source (consume s.sent start)

abbrev pub Kept : MonitorState → Option SupervisorExit × Supervisor ObserverEventSource → Type 0
Kept start (none, s) = IsMirrored start s
Kept start (some exit, s) = Unit

pub consume-last :
    (es : List MonitorEvent) (e : MonitorEvent) (s : MonitorState)
    → consume (es ++ e ∷ []) s ≡ (reduce_and_reconcile e (consume es s)).0
consume-last es e s = consume-append es (e ∷ []) s ∙ unfold consume in refl

pub fresh-InStep :
    (source : ObserverEventSource) (s : MonitorState)
    → IsFresh source
    → Agrees none s
    → InStep source s
unfolding consume any_value
fresh-InStep source s h none_tracked = rw (h.0, h.1) (new_machine-IsValid, λ id. none_tracked id)

pub running-IsMirrored :
    (start : MonitorState) (x : Option SupervisorExit × Supervisor ObserverEventSource)
    → Kept start x
    → x.0 ≡ none
    → IsMirrored start x.1
running-IsMirrored start (none, s) h e = h
running-IsMirrored start (some exit, s) h e = cc
