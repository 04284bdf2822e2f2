-- ===== src/Hash/Index/Probing.antt =====
-- The probes of HashIndex (src/hash.cpp) end: at most seven buckets in ten are occupied.
use vectorized_query_engine.Base.{
  ℕ, zero, suc, ◌+◌, ◌-◌, ◌*◌, ◌%◌, ◌^◌, ◌≤◌, ◌<◌, ◌≡◌, ◌⊎◌, refl, ap, ◌∙◌, Bool, true, false,
  Option, none, some, List, [], ◌∷◌, ltb, leb, ◌==◌, if◌then◌else◌, get_or, set, length, length-set,
  replicate, length-replicate, arith, inl, inr, Bool-cases, Option-cases,
}
use native.Mathlib.Nat.{mod-lt, mod-eq_of_lt, mod_self}
use vectorized_query_engine.Base.Bits.{bit_and-mask}
use vectorized_query_engine.Base.Results.{Result, ok, ◌>>=◌}
use vectorized_query_engine.Hash.Index.{
  Bucket, empty_bucket, HashIndex, home, after, Probe, found, vacant, probe, place, rehash, grow,
  find_or_insert,
}

abbrev row_count : Option ℕ → ℕ
row_count none = 0
row_count (some r) = 1

-- How many buckets hold a row.
abbrev pub occupied : List Bucket → ℕ
occupied [] = 0
occupied (b ∷ bs) = row_count b.row + occupied bs

row_count-le : (r : Option ℕ) → row_count r ≤ 1
row_count-le none = omega arith
row_count-le (some r) = omega arith

-- A list that is not full has an empty bucket.
some_empty :
    (bs : List Bucket)
    → occupied bs < length bs
    → (e : ℕ) × (e < length bs) × ((get_or bs e empty_bucket).row ≡ none)
some_empty [] h = absurd (omega (arith, h))
some_empty (b ∷ bs) h = elim (Option-cases b.row) [
  | inl gone ↦ (0, omega arith, gone)
  | inr (r, there) ↦
      let (e, below, empty) = some_empty bs (let k = rw there at h in omega (arith, k)) in
      (suc e, omega arith, empty)
]

occupied-set :
    (bs : List Bucket) (j : ℕ) (b : Bucket) {r : ℕ}
    → j < length bs
    → (get_or bs j empty_bucket).row ≡ none
    → b.row ≡ some r
    → occupied (set bs j b) ≡ occupied bs + 1
occupied-set [] j b h empty full = absurd (omega (arith, h))
occupied-set (c ∷ bs) zero b h empty full = rw (empty, full) (omega arith)
occupied-set (c ∷ bs) (suc j) b h empty full =
    let rest = occupied-set bs j b (omega arith) empty full in omega (arith, rest)

-- How many buckets a probe passes from i before it is at e.
abbrev distance : ℕ → ℕ → ℕ → ℕ
distance n i e = if leb i e then e - i else e + n - i

module _ (bs : List Bucket) (k : ℕ) (size : length bs ≡ 2 ^ k) where
  after-eq : (i : ℕ) → after bs i ≡ (i + 1) % 2 ^ k
  after-eq i = rw size (bit_and-mask k (i + 1))

  home-lt : (hash : ℕ) → 0 < length bs → home bs hash < length bs
  home-lt hash h =
      let e : home bs hash ≡ hash % 2 ^ k = rw size (bit_and-mask k hash) in
      rw (e, size) (mod-lt hash (omega (arith, size, h)))

  after-step : (i : ℕ) → i < length bs → after bs i ≡ (if i + 1 == length bs then 0 else i + 1)
  after-step i h = elim (Bool-cases (i + 1 == length bs)) [
    | inl last ↦
        let e : i + 1 ≡ 2 ^ k = ground (arith, size) in
        rw last (after-eq i ∙ ap (λ x. x % 2 ^ k) e ∙ mod_self (2 ^ k))
    | inr more ↦ rw more (after-eq i ∙ mod-eq_of_lt (ground (arith, size)))
  ]

  -- What a probe ends with.
  abbrev Ends : (ℕ → Result Bool) → Result Probe → Type 0
  Ends equal result =
      ((r : ℕ) × (result ≡ ok (found r)) × (equal r ≡ ok true))
      ⊎ ((j : ℕ) × (result ≡ ok (vacant j))
          × (j < length bs)
          × ((get_or bs j empty_bucket).row ≡ none))

  probe-empty :
      (fuel hash i : ℕ) (equal : ℕ → Result Bool)
      → (get_or bs i empty_bucket).row ≡ none
      → probe (suc fuel) bs hash equal i ≡ ok (vacant i)
  unfolding probe
  probe-empty fuel hash i equal h = rw (probe, h)

  probe-occupied :
      (fuel hash i : ℕ) (equal : ℕ → Result Bool) {r : ℕ}
      → (get_or bs i empty_bucket).row ≡ some r
      → probe (suc fuel) bs hash equal i ≡ (
          if (get_or bs i empty_bucket).hash == hash
          then (equal r >>= λ same.
              if same then ok (found r) else probe fuel bs hash equal (after bs i))
          else probe fuel bs hash equal (after bs i))
  unfolding probe
  probe-occupied fuel hash i equal h = rw (probe, h)

  probe-Ends :
      (fuel hash i e : ℕ) (equal : ℕ → Result Bool)
      → ((r : ℕ) → (b : Bool) × (equal r ≡ ok b))
      → i < length bs
      → e < length bs
      → (get_or bs e empty_bucket).row ≡ none
      → distance (length bs) i e < fuel
      → Ends equal (probe fuel bs hash equal i)
  probe-Ends zero hash i e equal answers h he empty enough = absurd (omega (arith, enough))
  probe-Ends (suc fuel) hash i e equal answers h he empty enough =
      elim (Option-cases (get_or bs i empty_bucket).row) [
        | inl gone ↦ inr (i, probe-empty fuel hash i equal gone, h, gone)
        | inr (r, there) ↦
            let differ : i ≡ e → ⊥ = (λ same. (let x = rw same at there in absurd cc)) in
            let step = after-step i h in
            let later =
              probe-Ends fuel hash (after bs i) e equal answers (ground (arith, step, h)) he empty
                (ground (arith, step, h, he, enough, differ)) in
            let (same, answer) = answers r in
            let open_up = probe-occupied fuel hash i equal there in
            elim (Bool-cases ((get_or bs i empty_bucket).hash == hash)) [
              | inr other ↦ rw (open_up, other) later
              | inl equal_hash ↦ elim (Bool-cases same) [
                | inl hit ↦ inl (r, rw (open_up, equal_hash, answer, hit), answer ∙ ap ok hit)
                | inr miss ↦ rw (open_up, equal_hash, answer, miss) later
              ]
            ]
      ]

  -- From any bucket, if one is empty.
  pub search-Ends :
      (hash : ℕ) (equal : ℕ → Result Bool)
      → ((r : ℕ) → (b : Bool) × (equal r ≡ ok b))
      → occupied bs < length bs
      → Ends equal (probe (length bs) bs hash equal (home bs hash))
  search-Ends hash equal answers h =
      let (e, below, empty) = some_empty bs h in
      let at = home-lt hash (omega (arith, h)) in
      probe-Ends (length bs) hash (home bs hash) e equal answers at below empty
        (ground (arith, at, below))

-- A bucket that is moved finds an empty one.
place-occupied :
    (bs : List Bucket) (k : ℕ) (b : Bucket) {r : ℕ}
    → length bs ≡ 2 ^ k
    → occupied bs < length bs
    → b.row ≡ some r
    → (length (place bs b) ≡ length bs) × (occupied (place bs b) ≡ occupied bs + 1)
unfolding place
place-occupied bs k b size room full =
    elim (search-Ends bs k size b.hash (λ r. ok false) (λ r. (false, refl)) room) [
      | inl (r, e, no_row) ↦ absurd cc
      | inr (j, e, below, empty) ↦ rw e (length-set bs j b, occupied-set bs j b below empty full)
    ]

rehash-occupied :
    (bs : List Bucket) (k : ℕ) (old : List Bucket)
    → length bs ≡ 2 ^ k
    → occupied bs + occupied old < length bs
    → (length (rehash bs old) ≡ length bs) × (occupied (rehash bs old) ≡ occupied bs + occupied old)
unfolding rehash
rehash-occupied bs k [] size room = (refl, omega arith)
rehash-occupied bs k (b ∷ old) size room = elim (Option-cases b.row) [
  | inl gone ↦
      let (long, all) =
        rehash-occupied bs k old size (let h = rw gone at room in omega (arith, h)) in
      rw gone (long, all ∙ omega arith)
  | inr (r, there) ↦
      let h = rw there at room in
      let (long, more) = place-occupied bs k b size (omega (arith, h)) there in
      let (long', all) =
        rehash-occupied (place bs b) k old (long ∙ size) (omega (arith, h, long, more)) in
      rw there (long' ∙ long, all ∙ omega (arith, more))
]

occupied-replicate : (n : ℕ) → occupied (replicate n empty_bucket) ≡ 0
occupied-replicate zero = refl
occupied-replicate (suc n) = let rest = occupied-replicate n in omega (arith, rest)

-- The width is a power of two, the size counts the occupied buckets, and seven in ten at most are
-- occupied.
pub record IsIndex (h : HashIndex) : Type 0 where
  pub exponent : ℕ
  pub width : length h.buckets ≡ 2 ^ exponent
  pub counted : occupied h.buckets ≡ h.size
  pub loaded : h.size * 10 ≤ length h.buckets * 7
  pub wide : 16 ≤ length h.buckets

grow-IsIndex :
    (h : HashIndex)
    → IsIndex h
    → IsIndex (grow h) × ((grow h).size ≡ h.size) × (length (grow h).buckets ≡ length h.buckets * 2)
unfolding grow
grow-IsIndex h good =
    let blank = replicate (length h.buckets * 2) empty_bucket in
    let long : length blank ≡ length h.buckets * 2 =
      length-replicate (length h.buckets * 2) empty_bucket in
    let none_there = occupied-replicate (length h.buckets * 2) in
    let width : length blank ≡ 2 ^ suc good.exponent = omega (arith, long, good.width) in
    let (same, all) =
      rehash-occupied blank (suc good.exponent) h.buckets width
        (omega (arith, long, none_there, good.counted, good.loaded, good.wide)) in
    (
      record {
        exponent = suc good.exponent;
        width = same ∙ width;
        counted = all ∙ omega (arith, none_there, good.counted);
        loaded = omega (arith, same, long, good.loaded);
        wide = omega (arith, same, long, good.wide);
      },
      refl,
      same ∙ long,
    )

-- The index that an insertion probes has room for one row more.
pub ready :
    (h : HashIndex)
    → IsIndex h
    → (h' : HashIndex) × ((if ltb (length h.buckets * 7) ((h.size + 1) * 10) then grow h else h)
        ≡ h')
      × IsIndex h'
      × (h'.size ≡ h.size)
      × ((h.size + 1) * 10 ≤ length h'.buckets * 7)
ready h good = elim (Bool-cases (ltb (length h.buckets * 7) ((h.size + 1) * 10))) [
  | inl full ↦
      let (good', same, long) = grow-IsIndex h good in
      (grow h, rw full, good', same, omega (arith, long, good.loaded, good.wide))
  | inr room ↦ (h, rw room, good, refl, ground (arith, room))
]

-- For a hash index whose number of buckets is a power of two and at least 16, and whose size counts
-- the occupied buckets and is at most seven tenths of them, and a test for equality that answers
-- for every row: find_or_insert returns either a row that the test calls equal, with the size as
-- before, or the fresh row, with the size one larger. The index is such an index again, grown where
-- it had to be.
pub find_or_insert-IsIndex :
    (h : HashIndex) (hash fresh : ℕ) (equal : ℕ → Result Bool)
    → IsIndex h
    → ((r : ℕ) → (b : Bool) × (equal r ≡ ok b))
    → (h' : HashIndex) × (r : ℕ) × (new : Bool) × (find_or_insert h hash equal fresh
        ≡ ok (h', r, new))
      × IsIndex h'
      × (h'.size ≡ (if new then h.size + 1 else h.size))
      × (if new then r ≡ fresh else equal r ≡ ok true)
unfolding find_or_insert
find_or_insert-IsIndex h hash fresh equal good answers =
    let (h', e, good', same, room) = ready h good in
    elim (search-Ends h'.buckets good'.exponent good'.width hash equal answers
      (omega (arith, good'.counted, same, room, good'.wide))) [
        | inl (r, ep, hit) ↦ (h', r, false, rw (e, ep), good', same, hit)
        | inr (j, ep, below, empty) ↦
            let b : Bucket = record { hash = hash; row = some fresh } in
            let long = length-set h'.buckets j b in
            let more = occupied-set h'.buckets j b below empty refl in
            (
              record { buckets = set h'.buckets j b; size = h'.size + 1 },
              fresh,
              true,
              rw (e, ep),
              record {
                exponent = good'.exponent;
                width = long ∙ good'.width;
                counted = more ∙ omega (arith, good'.counted);
                loaded = omega (arith, long, room, same);
                wide = omega (arith, long, good'.wide);
              },
              omega (arith, same),
              refl,
            )
      ]
