-- ===== src/Connections/Fencing.antt =====
-- A superseded incarnation of a device cannot disturb the one that holds the key.
use maim.Common.{
  ℕ, ◌+◌, ◌/◌, ◌<◌, ◌≡◌, refl, ◌∙◌, Bool, true, false, ◌&&◌, none, some, List, [], ◌∷◌, arith, ltb,
  All, delete, find-delete-none, ap,
}
use maim.Connections.{
  Route, DeviceRow, IndexRow, zrem, live_index, Principal, get, of_device, register_script,
  refresh_script, remove_script, same_incarnation, owns_route,
}

-- The device's key holds the incarnation until the given time.
unfoldable pub Holds : ℕ → Route → Principal → Type 0
Holds until r p =
    (row : DeviceRow) × (row.expires ≡ until)
    × (row.route.generation ≡ r.generation)
    × (row.route.instance_id ≡ r.instance_id)
    × ((now : ℕ) → now < until → get now r.device_id p ≡ some row)

get-register :
    (now ttl t : ℕ) (r : Route) (p : Principal)
    → t < now + ttl
    → get t r.device_id (register_script now ttl r p).0
      ≡ some (record {
        device = r.device_id;
        route = record r { last_active = now / 1000 };
        expires = now + ttl;
      })
unfolding get register_script
get-register now ttl t r p h = ground arith

-- After a registration the device's key holds the new incarnation for the time to live.
pub register-Holds :
    (now ttl : ℕ) (r : Route) (p : Principal) → Holds (now + ttl) r (register_script now ttl r p).0
unfolding Holds
register-Holds now ttl r p = (
  record {
    device = r.device_id;
    route = record r { last_active = now / 1000 };
    expires = now + ttl;
  },
  refl,
  refl,
  refl,
  λ t h. get-register now ttl t r p h,
)

-- What another incarnation of the device may try.
pub data Attempt : Type 0 where
  refreshes : ℕ → ℕ → Route → Attempt
  removes : ℕ → Route → Attempt

abbrev pub attempt : Attempt → Principal → Principal × Bool
attempt (refreshes now ttl r) p = refresh_script now ttl r p
attempt (removes now r) p = remove_script now r p

-- The attempt is by another incarnation of the device, before the key expires.
abbrev pub IsStale : ℕ → Route → Attempt → Type 0
IsStale until holder (refreshes now ttl r) =
    (now < until) × (r.device_id ≡ holder.device_id) × (same_incarnation holder r ≡ false)
IsStale until holder (removes now r) =
    (now < until) × (r.device_id ≡ holder.device_id) × (same_incarnation holder r ≡ false)

pub attempts : List Attempt → Principal → Principal × List Bool
attempts [] p = (p, [])
attempts (a ∷ as_) p =
    let (p', done) = attempt a p in let (p'', rest) = attempts as_ p' in (p'', done ∷ rest)

attempt_stale :
    (until : ℕ) (holder : Route) (a : Attempt) (p : Principal)
    → Holds until holder p
    → IsStale until holder a
    → attempt a p ≡ (p, false)
unfolding Holds refresh_script remove_script
attempt_stale until holder (refreshes now ttl r) p (row, e, g, i, at) s = ground (arith, at now)
attempt_stale until holder (removes now r) p (row, e, g, i, at) s = ground (arith, at now)

abbrev pub refusals : List Attempt → List Bool
refusals [] = []
refusals (a ∷ as_) = false ∷ refusals as_

attempts_stale :
    (until : ℕ) (holder : Route) (as_ : List Attempt) (p : Principal)
    → Holds until holder p
    → All (IsStale until holder) as_
    → attempts as_ p ≡ (p, refusals as_)
unfolding attempts
attempts_stale until holder [] p h s = refl
attempts_stale until holder (a ∷ as_) p h s =
    rw (attempt_stale until holder a p h s.0) (rw (attempts_stale until holder as_ p h s.1))

-- Once an incarnation is registered, no sequence of refreshes and removals by other incarnations of
-- its device changes any key of the principal, before the new key expires; each is answered with
-- false.
pub register_fences :
    (now ttl : ℕ) (r : Route) (p : Principal) (as_ : List Attempt)
    → All (IsStale (now + ttl) r) as_
    → attempts as_ (register_script now ttl r p).0 ≡ ((register_script now ttl r p).0, refusals as_)
register_fences now ttl r p as_ s =
    attempts_stale (now + ttl) r as_ (register_script now ttl r p).0 (register-Holds now ttl r p) s

owns_route-get :
    (t : ℕ) (r : Route) (p : Principal) {row : DeviceRow}
    → get t r.device_id p ≡ some row
    → owns_route t r p ≡ same_incarnation row.route r
unfolding owns_route
owns_route-get t r p e = rw (e, owns_route)

remove_script-get :
    (t : ℕ) (r : Route) (p : Principal) {row : DeviceRow}
    → get t r.device_id p ≡ some row
    → same_incarnation row.route r ≡ true
    → remove_script t r p ≡ (
      record p {
        devices = delete (of_device r.device_id) p.devices;
        index = zrem r.device_id (live_index t p);
      },
      true,
    )
unfolding remove_script
remove_script-get t r p e s = rw (e, remove_script) (rw s)

get-deleted :
    (u d : ℕ) (p : Principal) (index : List IndexRow)
    → get u d (record p { devices = delete (of_device d) p.devices; index = index }) ≡ none
unfolding get
get-deleted u d p index =
    find-delete-none (λ row. of_device d row && ltb u row.expires) (of_device d) p.devices
      (λ a t. ground arith)

-- Before the key expires the new incarnation owns its device, an incarnation that differs does not,
-- and the new one can be removed by itself, after which the device has no key at any time.
pub register_owns :
    (now ttl t : ℕ) (r old : Route) (p : Principal)
    → t < now + ttl
    → old.device_id ≡ r.device_id
    → let q = (register_script now ttl r p).0 in
      (owns_route t r q ≡ true)
      × (owns_route t old q ≡ same_incarnation r old)
      × ((remove_script t r q).1 ≡ true)
      × ((u : ℕ) → get u r.device_id (remove_script t r q).0 ≡ none)
register_owns now ttl t r old p h d =
    let g = get-register now ttl t r p h in
    let q : Principal = (register_script now ttl r p).0 in
    let held : DeviceRow = record {
      device = r.device_id;
      route = record r { last_active = now / 1000 };
      expires = now + ttl;
    } in
    let keeps : same_incarnation (record r { last_active = now / 1000 }) r ≡ true = ground arith in
    (
      owns_route-get t r q g ∙ keeps,
      owns_route-get t old q {row = held} (rw d g),
      ap (λ (z : Principal × Bool). z.1) (remove_script-get t r q g keeps),
      λ u. rw (remove_script-get t r q g keeps) (get-deleted u r.device_id q _),
    )
