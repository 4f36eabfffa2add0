-- ===== src/Tests/ResolverTests.antt =====
-- The theorems on the resolver at concrete requests and texts.
use lensguard.Prelude.{
  if◌then◌else◌, ◌&&◌, ◌++◌, List, Option, ap, ◌≡◌, refl, [], ◌∷◌, none, some, codes, arith, Text,
  any, trim, trim_start, trim_end, keep_before, is_whitespace, is_control,
}
use lensguard.OrderedMap.{get}
use lensguard.Core.Model.{ApplicationIdentity}
use lensguard.Resolver.Request.{ResolutionRequest}
use lensguard.Resolver.DesktopIndex.{DesktopEntry}
use lensguard.Resolver.Identity.{ProcessSnapshot, resolve_uncached}
use lensguard.Resolver.Identity.Texts.{IfSome, Showable, resolve_uncached-Showable}
use lensguard.Resolver.Cache.{forget, ApplicationResolver, request_ord, resolve}
use lensguard.Resolver.Cache.Bounds.{IsBounded, resolve-IsBounded}
use lensguard.Resolver.Cache.Answers.{resolve_keeps, evicts, oldest_is, without_oldest}
use lensguard.Resolver.PlainText.{plain_text, normalize, IsPlain}

abbrev first : ResolutionRequest
first = record { pid = some 1; app_id = none; metadata_display_name = none; binary = none }

abbrev second : ResolutionRequest
second = record first { pid = some 2 }

abbrev third : ResolutionRequest
third = record first { pid = some 3 }

abbrev named : Text → ApplicationIdentity
named name = record { pid = some 1; app_id = none; display_name = name; binary = none }

abbrev empty : ApplicationResolver
empty = record { cache_capacity = 1; cache = []; recency = [] }

-- With room for two.
pair-IsBounded : IsBounded (record empty { cache_capacity = 2 })
unfolding any get
pair-IsBounded = record {
  positive = omega arith;
  bounded = omega arith;
  distinct = tt;
  listed = λ k. refl;
}

empty-IsBounded : IsBounded empty
unfolding any get
empty-IsBounded = record {
  positive = omega arith;
  bounded = omega arith;
  distinct = tt;
  listed = λ k. refl;
}

resolve-IsBounded_example : IsBounded (resolve first (named (codes "a")) empty).1
resolve-IsBounded_example = resolve-IsBounded first (named (codes "a")) empty empty-IsBounded

-- Full, and the second request is the one that was used longest ago.
abbrev full : ApplicationResolver
full =
    (resolve third (named (codes "c"))
      (resolve second (named (codes "b")) (record empty { cache_capacity = 2 })).1).1

full-IsBounded : IsBounded full
full-IsBounded = resolve-IsBounded third (named (codes "c")) _ (
    resolve-IsBounded second (named (codes "b")) (record empty { cache_capacity = 2 })
      pair-IsBounded)

resolve_keeps_example :
    ((resolve first (named (codes "a")) full).1.recency
      ≡ forget first (without_oldest (evicts first full) full.recency) ++ first ∷ [])
    × (get second (resolve first (named (codes "a")) full).1.cache ≡ (
        if evicts first full && oldest_is second full.recency then none else get second full.cache))
resolve_keeps_example =
    resolve_keeps first second (named (codes "a")) full full-IsBounded (λ e. cc (ap (λ r. r.pid) e))

spaced : plain_text (codes " My\n\tCamera ") ≡ some (codes "My Camera")
unfolding plain_text normalize trim trim_start trim_end keep_before is_whitespace is_control
spaced = refl

abbrev request : ResolutionRequest
request = record first {
  app_id = some (codes "org.example.Camera.desktop");
  metadata_display_name = some (codes "org.example.Camera");
}

abbrev entries : List DesktopEntry
entries =
    record {
      id = codes "org.example.Camera";
      name = codes "Example Camera";
      executable_name = none;
      flatpak_app_id = none;
    }
    ∷ []

abbrev process : Option ProcessSnapshot
process =
    some (record { process_name = some (codes "cam"); executable = none; flatpak_app_id = none })

resolve_uncached-Showable_example :
    ((resolve_uncached entries request process).pid ≡ some 1)
    × IfSome IsPlain (resolve_uncached entries request process).app_id
    × IfSome IsPlain (resolve_uncached entries request process).binary
    × Showable entries (resolve_uncached entries request process).display_name
resolve_uncached-Showable_example = resolve_uncached-Showable entries request process
