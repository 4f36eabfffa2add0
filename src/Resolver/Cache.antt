-- ===== src/Resolver/Cache.antt =====
-- crates/camera-app-resolver/src/resolver.rs, `ApplicationResolver`: the bounded cache.
--
-- What a lookup gives, with no cache in between, is an argument of `resolve`.
pub mod Bounds
pub mod Answers
use lensguard.Prelude.{
  ℕ, ◌≡◌, Bool, true, false, not, List, [], ◌∷◌, ◌++◌, Option, none, some, Result, ok, err, length,
  filter, ◌==◌, if◌then◌else◌, Text, arith,
}
use lensguard.Order.{Ord, ord_by, nat_ord, list_ord, pair_ord}
use lensguard.OrderedMap.{OrderedMap, get, insert, remove}
use lensguard.OrderedMap.Laws.{same}
use lensguard.Core.Model.{ApplicationIdentity}
use lensguard.Resolver.Request.{ResolutionRequest}

pub data ResolverError : Type 0 where
  zero_cache_capacity : ResolverError

-- An option by its elements: none stands before some.
abbrev pub elements {ℓ} : {A : Type ℓ} → Option A → List A
elements none = []
elements (some a) = a ∷ []

abbrev pub request_fields : ResolutionRequest → List ℕ × (List Text × (List Text × List Text))
request_fields r =
    (elements r.pid, (elements r.app_id, (elements r.metadata_display_name, elements r.binary)))

pub elements-injective {ℓ} : {A : Type ℓ} (a b : Option A) → elements a ≡ elements b → a ≡ b
elements-injective none none e = cc
elements-injective none (some b) e = cc
elements-injective (some a) none e = cc
elements-injective (some a) (some b) e = cc

pub ResolutionRequest-eq : (a b : ResolutionRequest) → request_fields a ≡ request_fields b → a ≡ b
ResolutionRequest-eq a b e =
    let pid : a.pid ≡ b.pid = elements-injective a.pid b.pid (cc) in
    let app : a.app_id ≡ b.app_id = elements-injective a.app_id b.app_id (cc) in
    let name : a.metadata_display_name ≡ b.metadata_display_name =
      elements-injective a.metadata_display_name b.metadata_display_name (cc) in
    let binary : a.binary ≡ b.binary = elements-injective a.binary b.binary (cc) in
    λ i. record { pid = pid i; app_id = app i; metadata_display_name = name i; binary = binary i }

-- `derive(Ord)`
instance abbrev pub request_ord : Ord ResolutionRequest
request_ord = ord_by pair_ord request_fields ResolutionRequest-eq

pub record ApplicationResolver : Type 0 where
  pub cache_capacity : ℕ
  pub cache : OrderedMap ResolutionRequest ApplicationIdentity
  pub recency : List ResolutionRequest

-- `with_sources`
unfoldable pub with_sources : ℕ → Result ResolverError ApplicationResolver
with_sources cache_capacity =
    if cache_capacity == 0
    then err zero_cache_capacity
    else ok (record { cache_capacity = cache_capacity; cache = []; recency = [] })

-- `recency.retain(|key| key != request)`
abbrev pub forget : ResolutionRequest → List ResolutionRequest → List ResolutionRequest
forget request recency = filter (λ key. not (same key request)) recency

-- `touch`
unfoldable pub touch : ResolutionRequest → ApplicationResolver → ApplicationResolver
touch request r = record r { recency = forget request r.recency ++ request ∷ [] }

-- The eviction of `insert_cache`.
abbrev pub evict : List ResolutionRequest → ApplicationResolver → ApplicationResolver
evict [] r = r
evict (oldest ∷ rest) r = record r { cache = remove oldest r.cache; recency = rest }

abbrev pub make_room : ApplicationResolver → ApplicationResolver
make_room r = if length r.cache == r.cache_capacity then evict r.recency r else r

abbrev pub store :
    ResolutionRequest → ApplicationIdentity → ApplicationResolver → ApplicationResolver
store request identity r = record r {
  recency = r.recency ++ request ∷ [];
  cache = insert request identity r.cache;
}

-- `insert_cache`
unfoldable pub insert_cache :
    ResolutionRequest → ApplicationIdentity → ApplicationResolver → ApplicationResolver
insert_cache request identity r = store request identity (make_room r)

-- `resolve`
unfoldable pub resolve :
    ResolutionRequest
    → ApplicationIdentity
    → ApplicationResolver
    → ApplicationIdentity × ApplicationResolver
unfolding touch insert_cache
resolve request fresh r = elim (get request r.cache) [
  | some cached ↦ (cached, touch request r)
  | none ↦ (fresh, insert_cache request fresh r)
]

abbrev is_some {ℓ} : {A : Type ℓ} → Option A → Bool
is_some none = false
is_some (some _) = true

-- `invalidate`
unfoldable pub invalidate : ResolutionRequest → ApplicationResolver → Bool × ApplicationResolver
invalidate request r = (
  is_some (get request r.cache),
  record r { recency = forget request r.recency; cache = remove request r.cache },
)

-- `clear_cache`
unfoldable pub clear_cache : ApplicationResolver → ApplicationResolver
clear_cache r = record r { cache = []; recency = [] }

abbrev pub cache_len : ApplicationResolver → ℕ
cache_len r = length r.cache
