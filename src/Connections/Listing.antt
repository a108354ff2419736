-- ===== src/Connections/Listing.antt =====
-- The list of a principal's routes is exact: the index covers every live device.
use maim.Common.{
  ℕ, ◌≤◌, ◌<◌, ◌≡◌, ◌↔◌, refl, sym, subst, inl, inr, Bool, true, ◌&&◌, some, List, [], ◌∷◌, Memᴰ,
  arith, ◌==◌, ltb, All, All-mem, mem-cons_cases, mem-of_exists, find, exists, UniqueKeys,
  exists-mem, select-mem, mem-sort_by, Bool-cases, Option-cases,
}
use maim.Connections.{
  Route, DeviceRow, IndexRow, Principal, get, of_device, live_index, by_score, collect, list_script,
}

abbrev pub device_of : DeviceRow → ℕ
device_of row = row.device

-- The index has the device at its expiry.
abbrev pub indexed : List IndexRow → DeviceRow → Bool
indexed index row = exists (λ i. i.device == row.device && i.score == row.expires) index

-- A device has one key, and every live key is in the index, which outlives it.
pub record IsIndexed (now : ℕ) (p : Principal) : Type 0 where
  pub keyed : UniqueKeys device_of p.devices
  pub covered :
      All
        (λ row. now < row.expires → (indexed p.index row ≡ true) × (row.expires ≤ p.index_expires))
        p.devices

pub get-mem :
    (now : ℕ) (p : Principal) (row : DeviceRow)
    → UniqueKeys device_of p.devices
    → Memᴰ row p.devices
    → now < row.expires
    → get now row.device p ≡ some row
unfolding get
get-mem now p row u m h = find_unique p.devices u m
  where
    find_unique :
        (rows : List DeviceRow)
        → UniqueKeys device_of rows
        → Memᴰ row rows
        → find (λ r. of_device row.device r && ltb now r.expires) rows ≡ some row
    find_unique [] v k = elim k [ ]
    find_unique (x ∷ xs) v (Memᴰ.head e) = rw (← e) (ground arith)
    find_unique (x ∷ xs) v (Memᴰ.tail k) =
        ground (arith, find_unique xs v.1 k, exists-mem device_of row.device xs row k refl, v.0)

pub mem-get :
    (now d : ℕ) (p : Principal) (row : DeviceRow)
    → get now d p ≡ some row
    → Memᴰ row p.devices × (row.device ≡ d) × (now < row.expires)
unfolding get
mem-get now d p row h = found p.devices h
  where
    found :
        (rows : List DeviceRow)
        → find (λ r. of_device d r && ltb now r.expires) rows ≡ some row
        → Memᴰ row rows × (row.device ≡ d) × (now < row.expires)
    found [] k = cc
    found (x ∷ xs) k = elim (Bool-cases (of_device d x && ltb now x.expires)) [
      | inl e ↦ let q : x ≡ row = ground arith in (Memᴰ.head (sym q), ground arith, ground arith)
      | inr e ↦ let (m, q, r) = found xs (rw e at k) in (Memᴰ.tail m, q, r)
    ]

collect-mem :
    (now : ℕ) (p : Principal) (is : List IndexRow) (i : IndexRow) (row : DeviceRow)
    → Memᴰ i is
    → get now i.device p ≡ some row
    → Memᴰ row.route (collect now p is).0
unfolding collect
collect-mem now p [] i row m g = elim m [ ]
collect-mem now p (x ∷ is) i row (Memᴰ.head e) g = rw (← e) (rw (g, collect) (Memᴰ.head refl))
collect-mem now p (x ∷ is) i row (Memᴰ.tail m) g = elim (Option-cases (get now x.device p)) [
  | inl e ↦ rw (e, collect) (collect-mem now p is i row m g)
  | inr (y, e) ↦ rw (e, collect) (Memᴰ.tail (collect-mem now p is i row m g))
]

mem-collect :
    (now : ℕ) (p : Principal) (is : List IndexRow) (r : Route)
    → Memᴰ r (collect now p is).0
    → (row : DeviceRow) × Memᴰ row p.devices × (now < row.expires) × (row.route ≡ r)
unfolding collect
mem-collect now p [] r m = elim m [ ]
mem-collect now p (x ∷ is) r m = elim (Option-cases (get now x.device p)) [
  | inl e ↦ mem-collect now p is r (rw (e, collect) at m)
  | inr (y, e) ↦ elim (mem-cons_cases r y.route (collect now p is).0 (rw (e, collect) at m)) [
    | inl q ↦ let (k, d, l) = mem-get now x.device p y e in (y, k, l, sym q)
    | inr k ↦ mem-collect now p is r k
  ]
]

-- The list of a principal holds the route of a device exactly when its key has not expired.
pub list_script_exact :
    (now : ℕ) (p : Principal) (r : Route)
    → IsIndexed now p
    → Memᴰ r (list_script now p).1
      ↔ ((row : DeviceRow) × Memᴰ row p.devices × (now < row.expires) × (row.route ≡ r))
unfolding list_script
list_script_exact now p r v = (
  λ m. mem-collect now p (by_score now (live_index now p)) r m,
  λ (row, m, l, e).
      let (ix, le) = All-mem _ p.devices row v.covered m l in
      let (i, k, t) = mem-of_exists _ p.index ix in
      let alive : live_index now p ≡ p.index = ground arith in
      let same : i.device ≡ row.device = ground arith in
      subst (λ z. Memᴰ z (collect now p (by_score now (live_index now p))).0) e
        (collect-mem now p (by_score now (live_index now p)) i row
          (rw alive (
            mem-sort_by (λ j. j.score) i _
              (mem-sort_by (λ j. j.device) i _ (select-mem _ p.index i (ground arith) k))))
          (rw same (get-mem now p row v.keyed m l))),
)
