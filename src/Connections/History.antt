-- ===== src/Connections/History.antt =====
-- The registry through any history: the index goes on covering every live device.
use maim.Common.{
  ℕ, ◌+◌, ◌≤◌, ◌<◌, ◌≡◌, ◌↔◌, refl, inl, inr, true, false, ◌&&◌, none, some, List, [], ◌∷◌, Memᴰ,
  arith, ◌==◌, All, All-map, All-mem, All-of_mem, All-delete, UniqueKeys-delete, exists-delete,
  exists-delete-false, exists-of_mem, mem-of_exists, delete, Bool-cases, Option-cases, mem-sort_by,
  select-mem,
}
use maim.Connections.{
  Route, DeviceRow, IndexRow, Principal, no_keys, get, of_device, indexes, zrem, live_index,
  store_route, same_incarnation, register_script, refresh_script, remove_script, collect, by_score,
  list_script,
}
use maim.Connections.Listing.{device_of, indexed, IsIndexed, list_script_exact, get-mem}

-- Also, no key outlives a time to live.
pub record IsRegistry (ttl now : ℕ) (p : Principal) : Type 0 where
  pub is_indexed : IsIndexed now p
  pub bounded : All (λ row. row.expires ≤ now + ttl) p.devices

-- A row that another entry of the index is written or removed for.
indexed-zrem :
    (d : ℕ) (row : DeviceRow) (index : List IndexRow)
    → (row.device == d) ≡ false
    → indexed index row ≡ true
    → indexed (zrem d index) row ≡ true
indexed-zrem d row index ne h = ground (
  arith,
  exists-delete (λ i. i.device == row.device && i.score == row.expires) (indexes d) index
      (λ i t. ground arith),
)

indexed-live :
    (now : ℕ) (p : Principal) (row : DeviceRow)
    → now < row.expires
    → row.expires ≤ p.index_expires
    → indexed p.index row ≡ true
    → indexed (live_index now p) row ≡ true
indexed-live now p row h k i = ground arith

pub store_route-IsRegistry :
    (ttl now d : ℕ) (r : Route) (p : Principal)
    → IsRegistry ttl now p
    → IsRegistry ttl now (store_route now ttl d r p)
store_route-IsRegistry ttl now d r p v = record {
  is_indexed = record {
    keyed = (
      exists-delete-false (λ row. device_of row == d) (of_device d) p.devices (λ row t. t),
      UniqueKeys-delete device_of (of_device d) p.devices v.is_indexed.keyed,
    );
    covered = (
      (λ h. (ground arith, ground arith)),
      All-delete _ (of_device d) p.devices (λ row m ne h.
          let (ix, le) = All-mem _ p.devices row v.is_indexed.covered m h in
          let (old, b) : (indexed (zrem d (live_index now p)) row ≡ true)
              × (row.expires ≤ now + ttl) =
            (
              indexed-zrem d row _ ne (indexed-live now p row h le ix),
              All-mem _ p.devices row v.bounded m,
            ) in
          (ground arith, b)),
    );
  };
  bounded = (
    omega arith,
    All-delete _ (of_device d) p.devices (λ row m ne. All-mem _ p.devices row v.bounded m),
  );
}

register_script-IsRegistry :
    (ttl now : ℕ) (r : Route) (p : Principal)
    → IsRegistry ttl now p
    → IsRegistry ttl now (register_script now ttl r p).0
unfolding register_script
register_script-IsRegistry ttl now r p v = store_route-IsRegistry ttl now r.device_id r p v

refresh_script-IsRegistry :
    (ttl now : ℕ) (r : Route) (p : Principal)
    → IsRegistry ttl now p
    → IsRegistry ttl now (refresh_script now ttl r p).0
unfolding refresh_script
refresh_script-IsRegistry ttl now r p v = elim (Option-cases (get now r.device_id p)) [
  | inl e ↦ rw (e, refresh_script) v
  | inr (row, e) ↦ elim (Bool-cases (same_incarnation row.route r)) [
    | inl s ↦
        rw (e, refresh_script) (rw s (store_route-IsRegistry ttl now r.device_id row.route p v))
    | inr s ↦ rw (e, refresh_script) (rw s v)
  ]
]

-- The index entry of a device goes, and with it the device's key unless it is gone.
removed-IsRegistry :
    (ttl now d : ℕ) (p : Principal) (rows : List DeviceRow)
    → rows ≡ delete (of_device d) p.devices
    → IsRegistry ttl now p
    → IsRegistry ttl now (record p { devices = rows; index = zrem d (live_index now p) })
removed-IsRegistry ttl now d p rows e v = rw e (record {
  is_indexed = record {
    keyed = UniqueKeys-delete device_of (of_device d) p.devices v.is_indexed.keyed;
    covered = All-delete _ (of_device d) p.devices (λ row m ne h.
        let (ix, le) = All-mem _ p.devices row v.is_indexed.covered m h in
        (indexed-zrem d row _ ne (indexed-live now p row h le ix), le));
  };
  bounded = All-delete _ (of_device d) p.devices (λ row m ne. All-mem _ p.devices row v.bounded m);
})

-- Without a live key of the device no live row loses its entry.
expired-IsRegistry :
    (ttl now d : ℕ) (p : Principal)
    → get now d p ≡ none
    → IsRegistry ttl now p
    → IsRegistry ttl now (record p { index = zrem d (live_index now p) })
expired-IsRegistry ttl now d p gone v = record {
  is_indexed = record {
    keyed = v.is_indexed.keyed;
    covered = All-of_mem _ p.devices (λ row m h.
        let (ix, le) = All-mem _ p.devices row v.is_indexed.covered m h in
        elim (Bool-cases (row.device == d)) [
          | inl e ↦
              let same : row.device ≡ d = ground arith in
              let found = get-mem now p row v.is_indexed.keyed m h in absurd (cc (rw same at found))
          | inr ne ↦ (indexed-zrem d row _ ne (indexed-live now p row h le ix), le)
        ]);
  };
  bounded = v.bounded;
}

remove_script-IsRegistry :
    (ttl now : ℕ) (r : Route) (p : Principal)
    → IsRegistry ttl now p
    → IsRegistry ttl now (remove_script now r p).0
unfolding remove_script
remove_script-IsRegistry ttl now r p v = elim (Option-cases (get now r.device_id p)) [
  | inl e ↦ rw (e, remove_script) (expired-IsRegistry ttl now r.device_id p e v)
  | inr (row, e) ↦ elim (Bool-cases (same_incarnation row.route r)) [
    | inl s ↦ rw (e, remove_script) (rw s (removed-IsRegistry ttl now r.device_id p _ refl v))
    | inr s ↦ rw (e, remove_script) (rw s v)
  ]
]

-- An entry whose key is there is kept.
collect-kept :
    (now : ℕ) (p : Principal) (is : List IndexRow) (i : IndexRow) (row : DeviceRow)
    → Memᴰ i is
    → get now i.device p ≡ some row
    → Memᴰ i (collect now p is).1
unfolding collect
collect-kept now p [] i row m g = elim m [ ]
collect-kept now p (x ∷ is) i row (Memᴰ.head e) g = rw (← e) (rw (g, collect) (Memᴰ.head refl))
collect-kept now p (x ∷ is) i row (Memᴰ.tail m) g = elim (Option-cases (get now x.device p)) [
  | inl e ↦ rw (e, collect) (collect-kept now p is i row m g)
  | inr (y, e) ↦ rw (e, collect) (Memᴰ.tail (collect-kept now p is i row m g))
]

list_script-IsRegistry :
    (ttl now : ℕ) (p : Principal) → IsRegistry ttl now p → IsRegistry ttl now (list_script now p).0
unfolding list_script
list_script-IsRegistry ttl now p v = record {
  is_indexed = record {
    keyed = v.is_indexed.keyed;
    covered = All-of_mem _ p.devices (λ row m h.
        let (ix, le) = All-mem _ p.devices row v.is_indexed.covered m h in
        let (i, k, t) = mem-of_exists _ (live_index now p) (indexed-live now p row h le ix) in
        let same : i.device ≡ row.device = ground arith in
        let kept =
          collect-kept now p (by_score now (live_index now p)) i row
            (mem-sort_by (λ j. j.score) i _
              (mem-sort_by (λ j. j.device) i _
                (select-mem _ (live_index now p) i (ground arith) k)))
            (rw same (get-mem now p row v.is_indexed.keyed m h)) in
        (exists-of_mem _ _ i kept t, le));
  };
  bounded = v.bounded;
}

-- What is live later is live now.
later-IsRegistry :
    (ttl now later : ℕ) (p : Principal)
    → now ≤ later
    → IsRegistry ttl now p
    → IsRegistry ttl later p
later-IsRegistry ttl now later p h v = record {
  is_indexed = record {
    keyed = v.is_indexed.keyed;
    covered = All-map _ _ p.devices (λ row c k. c (omega arith)) v.is_indexed.covered;
  };
  bounded = All-map _ _ p.devices (λ row c. omega arith) v.bounded;
}

-- The states that a principal's keys can reach: time goes on, and the scripts run one at a time.
pub data Reach (ttl : ℕ) : ℕ → Principal → Type 0 where
  opens : Reach ttl 0 no_keys
  waits : {now : ℕ} {p : Principal} (later : ℕ) → Reach ttl now p → now ≤ later → Reach ttl later p
  registers :
      {now : ℕ} {p : Principal} (r : Route)
      → Reach ttl now p
      → Reach ttl now (register_script now ttl r p).0
  refreshes :
      {now : ℕ} {p : Principal} (r : Route)
      → Reach ttl now p
      → Reach ttl now (refresh_script now ttl r p).0
  removes :
      {now : ℕ} {p : Principal} (r : Route)
      → Reach ttl now p
      → Reach ttl now (remove_script now r p).0
  lists : {now : ℕ} {p : Principal} → Reach ttl now p → Reach ttl now (list_script now p).0

Reach-IsRegistry : {ttl now : ℕ} {p : Principal} → Reach ttl now p → IsRegistry ttl now p
Reach-IsRegistry opens = record { is_indexed = record { keyed = tt; covered = tt }; bounded = tt }
Reach-IsRegistry {ttl} (waits {now} {p} later h le) =
    later-IsRegistry ttl now later p le (Reach-IsRegistry h)
Reach-IsRegistry {ttl} (registers {now} {p} r h) =
    register_script-IsRegistry ttl now r p (Reach-IsRegistry h)
Reach-IsRegistry {ttl} (refreshes {now} {p} r h) =
    refresh_script-IsRegistry ttl now r p (Reach-IsRegistry h)
Reach-IsRegistry {ttl} (removes {now} {p} r h) =
    remove_script-IsRegistry ttl now r p (Reach-IsRegistry h)
Reach-IsRegistry {ttl} (lists {now} {p} h) = list_script-IsRegistry ttl now p (Reach-IsRegistry h)

-- After any history of registrations, refreshes, removals and lists, with one time to live, the list
-- of a principal holds a route exactly if some device's key holds it and has not expired.
pub list_script-Reach :
    (ttl now : ℕ) (p : Principal) (r : Route)
    → Reach ttl now p
    → Memᴰ r (list_script now p).1
      ↔ ((row : DeviceRow) × Memᴰ row p.devices × (now < row.expires) × (row.route ≡ r))
list_script-Reach ttl now p r h = list_script_exact now p r (Reach-IsRegistry h).is_indexed
