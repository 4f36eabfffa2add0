-- ===== src/Resolver/Cache/Bounds.antt =====
-- The size of the cache, and its recency queue.
use lensguard.Prelude.{
  ◌<◌, ◌≤◌, ◌≡◌, refl, ap, sym, ◌∙◌, Bool, true, false, not, ◌||◌, ◌&&◌, List, [], ◌∷◌, ◌++◌,
  Option, none, some, length, filter, any, ◌==◌, if◌then◌else◌, arith, Bool-cases, Option-cases,
  inl, inr,
}
use lensguard.OrderedMap.{OrderedMap, get}
use lensguard.OrderedMap.Laws.{same, same_iff, get-insert, get-remove}
use lensguard.OrderedMap.Size.{length-insert-le, length-remove-lt}
use lensguard.Core.Model.{ApplicationIdentity}
use lensguard.Resolver.Request.{ResolutionRequest}
use lensguard.Resolver.Cache.{
  ApplicationResolver, request_ord, forget, touch, evict, make_room, store, insert_cache, resolve,
  is_some,
}

abbrev pub member : ResolutionRequest → List ResolutionRequest → Bool
member k l = any (same k) l

abbrev pub IsDistinct : List ResolutionRequest → Type 0
IsDistinct [] = Unit
IsDistinct (k ∷ l) = (member k l ≡ false) × IsDistinct l

pub record IsBounded (r : ApplicationResolver) : Type 0 where
  pub positive : 0 < r.cache_capacity
  pub bounded : length r.cache ≤ r.cache_capacity
  pub distinct : IsDistinct r.recency
  pub listed : (k : ResolutionRequest) → member k r.recency ≡ is_some (get k r.cache)

skip_both : (a b : Bool) → (not a && b) ≡ (not a && (a || b))
skip_both a b = ground arith

keep_both : (a b c : Bool) → (a ≡ true → c ≡ false) → (a || (not c && b)) ≡ (not c && (a || b))
keep_both a b c h = ground arith

member-forget :
    (k j : ResolutionRequest) (l : List ResolutionRequest)
    → member j (forget k l) ≡ (not (same j k) && member j l)
unfolding any filter
member-forget k j [] = ground arith
member-forget k j (i ∷ l) = elim (Bool-cases (same i k)) [
  | inl forgotten ↦
      rw (forgotten, any, filter)
        (member-forget k j l
          ∙ rw (sym ((same_iff i k).0 forgotten)) (skip_both (same j i) (member j l)))
  | inr kept ↦
      rw (kept, any, filter)
        (ap (λ b. same j i || b) (member-forget k j l)
          ∙ keep_both (same j i) (member j l) (same j k) (λ here. rw ((same_iff j i).0 here) kept))
]

member-last :
    (k j : ResolutionRequest) (l : List ResolutionRequest)
    → member j (l ++ k ∷ []) ≡ (same j k || member j l)
unfolding any
member-last k j [] = ground arith
member-last k j (i ∷ l) = ground (arith, member-last k j l)

forget-IsDistinct :
    (k : ResolutionRequest) (l : List ResolutionRequest) → IsDistinct l → IsDistinct (forget k l)
unfolding filter
forget-IsDistinct k [] d = tt
forget-IsDistinct k (i ∷ l) d = ground (arith, forget-IsDistinct k l d.1, member-forget k i l)

last-IsDistinct :
    (k : ResolutionRequest) (l : List ResolutionRequest)
    → IsDistinct l
    → member k l ≡ false
    → IsDistinct (l ++ k ∷ [])
unfolding any
last-IsDistinct k [] d h = (refl, tt)
last-IsDistinct k (i ∷ l) d h = (
  ground (arith, member-last k i l, same_iff i k, same_iff k i),
  last-IsDistinct k l d.1 (ground arith),
)

forgotten_self : (k : ResolutionRequest) (b : Bool) → (not (same k k) && b) ≡ false
forgotten_self k b = rw ((same_iff k k).1 refl) refl

touched_same : (s m g : Bool) → (s ≡ true → g ≡ true) → m ≡ g → (s || (not s && m)) ≡ g
touched_same true m g h e = sym (h refl)
touched_same false m g h e = e

is_some_if :
    (s : Bool) (v : ApplicationIdentity) (g : Option ApplicationIdentity)
    → is_some (if s then some v else g) ≡ (s || is_some g)
is_some_if true v g = refl
is_some_if false v g = refl

is_some_unless :
    (s : Bool) (g : Option ApplicationIdentity)
    → is_some (if s then none else g) ≡ (not s && is_some g)
is_some_unless true g = refl
is_some_unless false g = refl

absent_if : (s : Bool) (g : Option ApplicationIdentity) → g ≡ none → (if s then none else g) ≡ none
absent_if true g h = refl
absent_if false g h = h

touch-IsBounded :
    (request : ResolutionRequest) (r : ApplicationResolver) (cached : ApplicationIdentity)
    → get request r.cache ≡ some cached
    → IsBounded r
    → IsBounded (touch request r)
unfolding touch
touch-IsBounded request r cached found b = record {
  positive = b.positive;
  bounded = b.bounded;
  distinct =
      last-IsDistinct request (forget request r.recency)
        (forget-IsDistinct request r.recency b.distinct)
        (member-forget request request r.recency
          ∙ forgotten_self request (member request r.recency));
  listed = λ k.
      member-last request k (forget request r.recency)
      ∙ ap (λ m. same k request || m) (member-forget request k r.recency)
      ∙ touched_same (same k request) (member k r.recency) (is_some (get k r.cache))
          (λ here. rw ((same_iff k request).0 here, found) refl) (b.listed k);
}

-- What `make_room` leaves has room for one more entry.
record HasRoom (r : ApplicationResolver) : Type 0 where
  positive : 0 < r.cache_capacity
  room : length r.cache < r.cache_capacity
  distinct : IsDistinct r.recency
  listed : (k : ResolutionRequest) → member k r.recency ≡ is_some (get k r.cache)

store-IsBounded :
    (request : ResolutionRequest) (identity : ApplicationIdentity) (r : ApplicationResolver)
    → get request r.cache ≡ none
    → HasRoom r
    → IsBounded (store request identity r)
store-IsBounded request identity r absent h = record {
  positive = h.positive;
  bounded = omega (arith, length-insert-le request identity r.cache, h.room);
  distinct = last-IsDistinct request r.recency h.distinct (h.listed request ∙ ap is_some absent);
  listed = λ k.
      member-last request k r.recency
      ∙ ap (λ m. same k request || m) (h.listed k)
      ∙ sym (is_some_if (same k request) identity (get k r.cache))
      ∙ ap is_some (sym (get-insert request k identity r.cache));
}

evicted_same : (s m g : Bool) → (s ≡ true → m ≡ false) → (s || m) ≡ g → m ≡ (not s && g)
evicted_same true m g h e = h refl
evicted_same false m g h e = e

empty_cache :
    (m : OrderedMap ResolutionRequest ApplicationIdentity)
    → ((k : ResolutionRequest) → false ≡ is_some (get k m))
    → length m ≡ 0
unfolding get
empty_cache [] h = refl
empty_cache ((k, v) ∷ m) h = absurd (cc (rw ((request_ord.eq_iff k k).1 refl, get) at (h k)))

some_found :
    (g : Option ApplicationIdentity) → true ≡ is_some g → (v : ApplicationIdentity) × (g ≡ some v)
some_found none h = absurd (cc h)
some_found (some v) h = (v, refl)

-- The eviction of the oldest entry.
full-HasRoom :
    (recency : List ResolutionRequest) (r : ApplicationResolver)
    → r.recency ≡ recency
    → length r.cache ≡ r.cache_capacity
    → IsBounded r
    → HasRoom (evict recency r)
unfolding any
full-HasRoom [] r e full b =
    absurd (omega (arith, full, b.positive, empty_cache r.cache (λ k. rw e at (b.listed k))))
full-HasRoom (oldest ∷ rest) r e full b =
    let distinct : IsDistinct (oldest ∷ rest) = rw e at b.distinct in
    let listed : (k : ResolutionRequest)
        → (same k oldest || member k rest) ≡ is_some (get k r.cache) =
      λ k. rw e at (b.listed k) in
    let here : same oldest oldest ≡ true = (same_iff oldest oldest).1 refl in
    let (v, found) = some_found (get oldest r.cache) (rw here at (listed oldest)) in
    record {
      positive = b.positive;
      room = omega (arith, length-remove-lt oldest v r.cache found, full);
      distinct = distinct.1;
      listed = λ k.
          evicted_same (same k oldest) (member k rest) (is_some (get k r.cache))
            (λ same_key. rw ((same_iff k oldest).0 same_key) distinct.0) (listed k)
          ∙ sym (is_some_unless (same k oldest) (get k r.cache))
          ∙ ap is_some (sym (get-remove oldest k r.cache));
    }

make_room-HasRoom : (r : ApplicationResolver) → IsBounded r → HasRoom (make_room r)
make_room-HasRoom r b = elim (Bool-cases (length r.cache == r.cache_capacity)) [
  | inl full ↦ rw full (full-HasRoom r.recency r refl (ground arith) b)
  | inr below ↦ rw below (record {
    positive = b.positive;
    room = ground (arith, b.bounded);
    distinct = b.distinct;
    listed = b.listed;
  })
]

-- What is not in the cache is not there after the eviction.
absent-evict :
    (request : ResolutionRequest) (recency : List ResolutionRequest) (r : ApplicationResolver)
    → get request r.cache ≡ none
    → get request (evict recency r).cache ≡ none
absent-evict request [] r h = h
absent-evict request (oldest ∷ rest) r h =
    get-remove oldest request r.cache ∙ absent_if (same request oldest) (get request r.cache) h

absent-make_room :
    (request : ResolutionRequest) (r : ApplicationResolver)
    → get request r.cache ≡ none
    → get request (make_room r).cache ≡ none
absent-make_room request r h = elim (Bool-cases (length r.cache == r.cache_capacity)) [
  | inl full ↦ rw full (absent-evict request r.recency r h)
  | inr below ↦ rw below h
]

-- A lookup keeps the cache within its capacity, and the recency queue a list of its keys, each once.
pub resolve-IsBounded :
    (request : ResolutionRequest) (fresh : ApplicationIdentity) (r : ApplicationResolver)
    → IsBounded r
    → IsBounded (resolve request fresh r).1
unfolding resolve insert_cache
resolve-IsBounded request fresh r b = elim (Option-cases (get request r.cache)) [
  | inr (cached, found) ↦ rw (found, resolve) (touch-IsBounded request r cached found b)
  | inl absent ↦
      rw (absent, resolve)
        (store-IsBounded request fresh (make_room r) (absent-make_room request r absent)
          (make_room-HasRoom r b))
]
