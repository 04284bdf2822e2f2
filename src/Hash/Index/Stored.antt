-- ===== src/Hash/Index/Stored.antt =====
-- Lookups in HashIndex (src/hash.cpp) of what an insertion left there.
use vectorized_query_engine.Base.{
  ℕ, zero, suc, ◌+◌, ◌≡◌, ◌≢◌, ◌<◌, refl, sym, ap, ◌∙◌, Bool, true, false, none, some, List, ◌==◌,
  get_or, set, length, length-set, get_or-set_self, get_or-set_ne, arith, inl, inr, Bool-cases,
  Option-cases,
}
use vectorized_query_engine.Base.Results.{Result, ok}
use vectorized_query_engine.Hash.Index.{
  Bucket, empty_bucket, HashIndex, home, after, found, vacant, probe, find, find_or_insert,
}
use vectorized_query_engine.Hash.Index.Probing.{IsIndex, ready, search-Ends}

self_hash : (n : ℕ) → (n == n) ≡ true
self_hash n = ground arith

module _ (hash fresh : ℕ) (equal : ℕ → Result Bool) (hit : equal fresh ≡ ok true) where
  abbrev stored : Bucket
  stored = record { hash = hash; row = some fresh }

  probe-stored :
      (fuel i : ℕ) (bs : List Bucket)
      → get_or bs i empty_bucket ≡ stored
      → probe (suc fuel) bs hash equal i ≡ ok (found fresh)
  unfolding probe
  probe-stored fuel i bs h =
      let row : (get_or bs i empty_bucket).row ≡ some fresh = ap (λ b. b.row) h in
      let hash_eq : (get_or bs i empty_bucket).hash ≡ hash = ap (λ b. b.hash) h in
      rw (probe, row, hash_eq, self_hash hash, hit) refl

  -- A probe that ended at an empty bucket finds the row that is then put there.
  probe-set :
      (fuel i j : ℕ) (bs : List Bucket)
      → ((r : ℕ) → (b : Bool) × (equal r ≡ ok b))
      → j < length bs
      → (get_or bs j empty_bucket).row ≡ none
      → probe fuel bs hash equal i ≡ ok (vacant j)
      → probe fuel (set bs j stored) hash equal i ≡ ok (found fresh)
  unfolding probe
  probe-set zero i j bs answers below empty e = absurd cc
  probe-set (suc fuel) i j bs answers below empty e =
      elim (Option-cases (get_or bs i empty_bucket).row) [
        | inl gone ↦
            let at = rw (probe, gone) at e in
            let same : i ≡ j = cc in
            probe-stored fuel i (set bs j stored) (
              ap (λ k. get_or (set bs j stored) k empty_bucket) same
              ∙ get_or-set_self bs j stored empty_bucket below)
        | inr (r, there) ↦
            let differ : j ≢ i = (λ same. (let x = rw (sym same) at there in absurd cc)) in
            let kept = get_or-set_ne bs j i stored empty_bucket differ in
            let long = length-set bs j stored in
            let (same, answer) = answers r in
            elim (Bool-cases ((get_or bs i empty_bucket).hash == hash)) [
              | inr other ↦
                  let later = rw (probe, there, other) at e in
                  rw (probe, kept, there, kept, other, long)
                    (probe-set fuel (after bs i) j bs answers below empty later)
              | inl equal_hash ↦ elim (Bool-cases same) [
                | inl equal_row ↦
                    let x = rw (probe, there, equal_hash, answer, equal_row) at e in absurd cc
                | inr miss ↦
                    let later = rw (probe, there, equal_hash, answer, miss) at e in
                    rw (probe, kept, there, kept, equal_hash, answer, miss, long)
                      (probe-set fuel (after bs i) j bs answers below empty later)
              ]
            ]
      ]

-- For a hash index whose number of buckets is a power of two and at least 16, and whose size counts
-- the occupied buckets and is at most seven tenths of them, and a test for equality that answers
-- for every row and calls the fresh row equal: find_or_insert returns a row, and find with the same
-- hash and test, on the index it leaves, returns that row.
pub find-find_or_insert :
    (h : HashIndex) (hash fresh : ℕ) (equal : ℕ → Result Bool)
    → IsIndex h
    → ((r : ℕ) → (b : Bool) × (equal r ≡ ok b))
    → equal fresh ≡ ok true
    → (h' : HashIndex) × (r : ℕ) × (new : Bool) × (find_or_insert h hash equal fresh
        ≡ ok (h', r, new))
      × (find h' hash equal ≡ ok (some r))
unfolding find_or_insert find
find-find_or_insert h hash fresh equal good answers hit =
    let (h', e, good', same, room) = ready h good in
    elim (search-Ends h'.buckets good'.exponent good'.width hash equal answers
      (omega (arith, good'.counted, same, room, good'.wide))) [
        | inl (r, ep, equal_row) ↦ (h', r, false, rw (e, ep), rw ep)
        | inr (j, ep, below, empty) ↦
            let long = length-set h'.buckets j (stored hash fresh equal hit) in
            (
              record {
                buckets = set h'.buckets j (stored hash fresh equal hit);
                size = h'.size + 1;
              },
              fresh,
              true,
              rw (e, ep),
              rw (
                long,
                probe-set hash fresh equal hit (length h'.buckets) (home h'.buckets hash) j
                    h'.buckets answers below empty ep,
              ),
            )
      ]
