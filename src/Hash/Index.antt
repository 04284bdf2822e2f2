-- ===== src/Hash/Index.antt =====
-- Class HashIndex of include/vqe/hash.hpp and src/hash.cpp: open addressing with linear probing. The
-- callbacks `equal` and `create` are arguments; the rows of a bucket are in another store.
pub mod Probing
pub mod Stored
use vectorized_query_engine.Base.{
  ℕ, zero, suc, ◌+◌, ◌-◌, ◌*◌, Bool, true, false, Option, none, some, List, [], ◌∷◌, ltb, leb, ◌==◌,
  get_or, set, length, replicate, max, if◌then◌else◌,
}
use vectorized_query_engine.Base.Results.{Result, ok, ◌>>=◌}
use Prim.Native.Nat.{bit_and}

-- An empty bucket has the row `no_row`, which is no row's number.
pub record Bucket : Type 0 where
  pub hash : ℕ
  pub row : Option ℕ

abbrev pub empty_bucket : Bucket
empty_bucket = record { hash = 0; row = none }

pub record HashIndex : Type 0 where
  pub buckets : List Bucket
  pub size : ℕ

-- `std::bit_ceil`, by doubling: `fuel` doublings of p.
abbrev pub ceil_from : ℕ → ℕ → ℕ → ℕ
ceil_from zero p n = p
ceil_from (suc fuel) p n = let next = ceil_from fuel (2 * p) n in if leb n p then p else next

unfoldable pub new : ℕ → HashIndex
new n = record { buckets = replicate (ceil_from 64 1 (max 16 n)) empty_bucket; size = 0 }

abbrev pub home : List Bucket → ℕ → ℕ
home bs hash = bit_and hash (length bs - 1)

abbrev pub after : List Bucket → ℕ → ℕ
after bs i = bit_and (i + 1) (length bs - 1)

-- What a probe ends with: the row that is equal, or the empty bucket.
pub data Probe : Type 0 where
  found : ℕ → Probe
  vacant : ℕ → Probe
  lost : Probe

-- The probing loop, from bucket i on; as many rounds as there are buckets visit them all.
unfoldable pub probe : ℕ → List Bucket → ℕ → (ℕ → Result Bool) → ℕ → Result Probe
probe zero bs hash equal i = ok lost
probe (suc fuel) bs hash equal i =
    let later = probe fuel bs hash equal (after bs i) in
    let b = get_or bs i empty_bucket in
    elim b.row [
      | none ↦ ok (vacant i)
      | some r ↦
          if b.hash == hash
          then (equal r >>= λ same. if same then ok (found r) else later)
          else later
    ]

abbrev pub found_row : Probe → Option ℕ
found_row (found r) = some r
found_row _ = none

unfoldable pub find : HashIndex → ℕ → (ℕ → Result Bool) → Result (Option ℕ)
unfolding probe
find h hash equal = do
  p ← probe (length h.buckets) h.buckets hash equal (home h.buckets hash)
  ok (found_row p)

abbrev pub filled : List Bucket → Bucket → Result Probe → List Bucket
filled bs b (ok (vacant i)) = set bs i b
filled bs b _ = bs

-- `grow` puts an occupied bucket at the first empty one from its home on.
unfoldable pub place : List Bucket → Bucket → List Bucket
unfolding probe
place bs b = filled bs b (probe (length bs) bs b.hash (λ r. ok false) (home bs b.hash))

unfoldable pub rehash : List Bucket → List Bucket → List Bucket
unfolding place
rehash bs [] = bs
rehash bs (b ∷ old) = elim b.row [ none ↦ rehash bs old | some r ↦ rehash (place bs b) old ]

-- The vector is moved from, then resized: every bucket is empty.
unfoldable pub grow : HashIndex → HashIndex
unfolding rehash
grow h = record h { buckets = rehash (replicate (length h.buckets * 2) empty_bucket) h.buckets }

-- What `find_or_insert` does at the end of the probe.
abbrev pub inserted : HashIndex → ℕ → ℕ → Probe → HashIndex × ℕ × Bool
inserted h hash fresh (found r) = (h, r, false)
inserted h hash fresh (vacant i) = (
  record {
    buckets = set h.buckets i (record { hash = hash; row = some fresh });
    size = h.size + 1;
  },
  fresh,
  true,
)
inserted h hash fresh lost = (h, fresh, false)

-- The row, whether it is new, and the index after the call. `fresh` is the row that `create` gives.
unfoldable pub find_or_insert :
    HashIndex → ℕ → (ℕ → Result Bool) → ℕ → Result (HashIndex × ℕ × Bool)
unfolding probe grow
find_or_insert h hash equal fresh = do
  let h' = (if ltb (length h.buckets * 7) ((h.size + 1) * 10) then grow h else h)
  p ← probe (length h'.buckets) h'.buckets hash equal (home h'.buckets hash)
  ok (inserted h' hash fresh p)
