-- ===== src/Resolver/Cache/Answers.antt =====
-- What the cache answers, and what it forgets.
use lensguard.Resolver.Cache.Bounds.{IsBounded, member}
use lensguard.Prelude.{
  any, filter, not, ◌&&◌, ◌++◌, ap, sym, arith, ◌≡◌, refl, ◌∙◌, ◌≢◌, Bool, true, false, List, [],
  ◌∷◌, Option, none, some, length, ◌==◌, if◌then◌else◌, Bool-cases, Option-cases, inl, inr,
}
use lensguard.OrderedMap.{get}
use lensguard.OrderedMap.Laws.{same, same_iff, get-insert, get-remove, get-insert_self}
use lensguard.Core.Model.{ApplicationIdentity}
use lensguard.Resolver.Request.{ResolutionRequest}
use lensguard.Resolver.Cache.{
  forget, is_some, ApplicationResolver, request_ord, touch, evict, make_room, insert_cache, resolve,
}

-- The second of two equal lookups is answered from the cache: it gives what the first gave, whatever
-- a fresh lookup would give by then.
resolve_twice :
    (request : ResolutionRequest) (fresh later : ApplicationIdentity) (r : ApplicationResolver)
    → (resolve request later (resolve request fresh r).1).0 ≡ (resolve request fresh r).0
unfolding resolve touch insert_cache
resolve_twice request fresh later r = elim (Option-cases (get request r.cache)) [
  | inr (cached, found) ↦ rw (found, resolve) (rw (found, touch) refl)
  | inl absent ↦ rw (absent, resolve) (rw (get-insert_self request fresh (make_room r).cache) refl)
]

abbrev pub oldest_is : ResolutionRequest → List ResolutionRequest → Bool
oldest_is other [] = false
oldest_is other (oldest ∷ rest) = same other oldest

-- A lookup that is not answered from a full cache evicts.
abbrev pub evicts : ResolutionRequest → ApplicationResolver → Bool
evicts request r = not (is_some (get request r.cache)) && length r.cache == r.cache_capacity

abbrev pub without_oldest : Bool → List ResolutionRequest → List ResolutionRequest
without_oldest evicted [] = []
without_oldest evicted (oldest ∷ rest) = if evicted then rest else oldest ∷ rest

kept_if : (s : Bool) (v g : Option ApplicationIdentity) → s ≡ false → (if s then v else g) ≡ g
kept_if true v g h = cc
kept_if false v g h = refl

get-evict :
    (other : ResolutionRequest) (recency : List ResolutionRequest) (r : ApplicationResolver)
    → get other (evict recency r).cache
      ≡ (if oldest_is other recency then none else get other r.cache)
get-evict other [] r = refl
get-evict other (oldest ∷ rest) r = get-remove oldest other r.cache

recency-evict :
    (r : ApplicationResolver) (recency : List ResolutionRequest)
    → r.recency ≡ recency
    → (evict recency r).recency ≡ without_oldest true recency
recency-evict r [] e = e
recency-evict r (oldest ∷ rest) e = refl

different : (k j : ResolutionRequest) → k ≢ j → same k j ≡ false
different k j n = elim (Bool-cases (same k j)) [
  | inl here ↦ absurd (n ((same_iff k j).0 here))
  | inr apart ↦ apart
]

forget_absent :
    (k : ResolutionRequest) (l : List ResolutionRequest) → member k l ≡ false → forget k l ≡ l
unfolding any filter
forget_absent k [] h = refl
forget_absent k (j ∷ l) h = ground (arith, forget_absent k l, same_iff j k, same_iff k j)

member-without_oldest :
    (k : ResolutionRequest) (b : Bool) (l : List ResolutionRequest)
    → member k l ≡ false
    → member k (without_oldest b l) ≡ false
unfolding any
member-without_oldest k b [] h = h
member-without_oldest k true (j ∷ l) h = ground arith
member-without_oldest k false (j ∷ l) h = h

without_none : (l : List ResolutionRequest) → without_oldest false l ≡ l
without_none [] = refl
without_none (j ∷ l) = refl

-- Every lookup moves its request to the end of the recency queue, so the head of the queue is the
-- request that was used longest ago. A lookup keeps the cached answer of every other request, unless
-- it is not answered from a full cache: then it drops the head's answer, and only that.
pub resolve_keeps :
    (request other : ResolutionRequest) (fresh : ApplicationIdentity) (r : ApplicationResolver)
    → IsBounded r
    → other ≢ request
    → ((resolve request fresh r).1.recency
        ≡ forget request (without_oldest (evicts request r) r.recency) ++ request ∷ [])
      × (get other (resolve request fresh r).1.cache
          ≡ (if evicts request r && oldest_is other r.recency then none else get other r.cache))
unfolding resolve touch insert_cache
resolve_keeps request other fresh r b n = elim (Option-cases (get request r.cache)) [
  | inr (cached, found) ↦ rw (found, resolve) (rw (without_none r.recency) refl, refl)
  | inl absent ↦
      let unlisted : (e : Bool) → member request (without_oldest e r.recency) ≡ false =
        λ e. member-without_oldest request e r.recency (b.listed request ∙ ap is_some absent) in
      elim (Bool-cases (length r.cache == r.cache_capacity)) [
        | inl full ↦
            rw (absent, full, resolve)
              (
                ap (λ l. l ++ request ∷ [])
                    (recency-evict r r.recency refl
                      ∙ sym (forget_absent request _ (unlisted true))),
                get-insert request other fresh (evict r.recency r).cache
                    ∙ kept_if (same other request) (some fresh) _ (different other request n)
                    ∙ get-evict other r.recency r,
              )
        | inr below ↦
            rw (absent, below, resolve)
              (
                ap (λ l. l ++ request ∷ [])
                    (sym (without_none r.recency) ∙ sym (forget_absent request _ (unlisted false))),
                get-insert request other fresh r.cache
                    ∙ kept_if (same other request) (some fresh) _ (different other request n),
              )
      ]
]
