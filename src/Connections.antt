-- ===== src/Connections.antt =====
-- The connection registry of pkg/connections/registry.go: its Redis scripts over the keys of one
-- principal, a user or a bot. A principal has one key for each device and a sorted set of its device
-- keys; a key is gone from its expiry on, a millisecond
-- sooner than in Redis, which drops it once the clock is past its expiry. `now` is the server's time in milliseconds.
pub mod Fencing
pub mod Listing
pub mod History
use maim.Common.{
  ℕ, ◌+◌, ◌/◌, Bool, true, false, ◌&&◌, not, Option, none, some, List, [], ◌∷◌, ◌++◌, Result, ok,
  err, ◌>>=◌, ◌>>◌, guard, if◌then◌else◌, ◌==◌, ltb, leb, find, exists, delete, select, sort_by,
}

pub data Kind : Type 0 where
  user bot : Kind

pub record Route : Type 0 where
  pub kind : Kind
  pub id : ℕ
  pub device_id : ℕ
  pub instance_id : ℕ
  pub generation : ℕ
  pub last_active : ℕ

-- The key of a device with its value and its expiry.
pub record DeviceRow : Type 0 where
  pub device : ℕ
  pub route : Route
  pub expires : ℕ

-- A member of the sorted set.
pub record IndexRow : Type 0 where
  pub device : ℕ
  pub score : ℕ

pub record Principal : Type 0 where
  pub devices : List DeviceRow
  pub index : List IndexRow
  pub index_expires : ℕ

abbrev pub no_keys : Principal
no_keys = record { devices = []; index = []; index_expires = 0 }

abbrev pub of_device : ℕ → DeviceRow → Bool
of_device d row = row.device == d

abbrev pub indexes : ℕ → IndexRow → Bool
indexes d row = row.device == d

-- GET.
unfoldable pub get : ℕ → ℕ → Principal → Option DeviceRow
get now d p = find (λ row. of_device d row && ltb now row.expires) p.devices

-- SET ... PX: the key has this value and expiry alone.
abbrev pub set_device : ℕ → ℕ → Route → List DeviceRow → List DeviceRow
set_device d at route rows =
    record { device = d; route = route; expires = at } ∷ delete (of_device d) rows

-- The sorted set, unless it has expired.
abbrev pub live_index : ℕ → Principal → List IndexRow
live_index now p = if ltb now p.index_expires then p.index else []

-- ZADD and ZREM.
abbrev pub zadd : ℕ → ℕ → List IndexRow → List IndexRow
zadd d score rows = record { device = d; score = score } ∷ delete (indexes d) rows

abbrev pub zrem : ℕ → List IndexRow → List IndexRow
zrem d = delete (indexes d)

-- SET, ZADD and PEXPIRE, as both writing scripts do.
abbrev pub store_route : ℕ → ℕ → ℕ → Route → Principal → Principal
store_route now ttl d r p = record {
  devices = set_device d (now + ttl) (record r { last_active = now / 1000 }) p.devices;
  index = zadd d (now + ttl) (live_index now p);
  index_expires = now + ttl;
}

-- registerScript: the new incarnation replaces the old one, which is returned.
unfoldable pub register_script : ℕ → ℕ → Route → Principal → Principal × Option DeviceRow
unfolding get
register_script now ttl r p = (store_route now ttl r.device_id r p, get now r.device_id p)

abbrev pub same_incarnation : Route → Route → Bool
same_incarnation current r =
    current.generation == r.generation && current.instance_id == r.instance_id

-- refreshScript: only the incarnation that holds the key may extend it.
unfoldable pub refresh_script : ℕ → ℕ → Route → Principal → Principal × Bool
unfolding get
refresh_script now ttl r p = elim (get now r.device_id p) [
  | none ↦ (p, false)
  | some row ↦
      if same_incarnation row.route r
      then (store_route now ttl r.device_id row.route p, true)
      else (p, false)
]

-- removeScript: without a value the index entry is dropped, and another incarnation's key stays.
unfoldable pub remove_script : ℕ → Route → Principal → Principal × Bool
unfolding get
remove_script now r p = elim (get now r.device_id p) [
  | none ↦ (record p { index = zrem r.device_id (live_index now p) }, false)
  | some row ↦
      if same_incarnation row.route r
      then (
        record p {
          devices = delete (of_device r.device_id) p.devices;
          index = zrem r.device_id (live_index now p);
        },
        true,
      )
      else (p, false)
]

-- The loop of listScript: the values of the keys, and the index without the keys that are gone.
pub collect : ℕ → Principal → List IndexRow → List Route × List IndexRow
unfolding get
collect now p [] = ([], [])
collect now p (i ∷ is) =
    let (routes, kept) = collect now p is in
    elim (get now i.device p) [ some row ↦ (row.route ∷ routes, i ∷ kept) | none ↦ (routes, kept) ]

-- ZREMRANGEBYSCORE -inf now, and ZRANGE in the order of scores, then of keys.
abbrev pub by_score : ℕ → List IndexRow → List IndexRow
by_score now rows =
    sort_by (λ i. i.score) (sort_by (λ i. i.device) (select (λ i. ltb now i.score) rows))

unfoldable pub list_script : ℕ → Principal → Principal × List Route
unfolding collect
list_script now p =
    let (routes, kept) = collect now p (by_score now (live_index now p)) in
    (record p { index = kept }, routes)

-- The registry, by principal.
abbrev pub Store : Type 0
Store = Kind → ℕ → Principal

abbrev pub same_kind : Kind → Kind → Bool
same_kind user user = true
same_kind bot bot = true
same_kind _ _ = false

abbrev pub put : Kind → ℕ → Principal → Store → Store
put kind id p s kind' id' = if same_kind kind kind' && id == id' then p else s kind' id'

pub data RegistryError : Type 0 where
  invalid_identity : RegistryError

abbrev route_of : Option DeviceRow → Option Route
route_of none = none
route_of (some row) = some row.route

-- The methods: `valid` is identity.Validate.
unfoldable pub register :
    (ℕ → Bool) → ℕ → ℕ → Route → Store → Result RegistryError (Store × Option Route)
unfolding register_script
register valid now ttl r s = do
  guard (valid r.id) invalid_identity
  let (p, old) = register_script now ttl r (s r.kind r.id)
  ok (put r.kind r.id p s, route_of old)

unfoldable pub refresh : (ℕ → Bool) → ℕ → ℕ → Route → Store → Result RegistryError (Store × Bool)
unfolding refresh_script
refresh valid now ttl r s = do
  guard (valid r.id) invalid_identity
  let (p, done) = refresh_script now ttl r (s r.kind r.id)
  ok (put r.kind r.id p s, done)

unfoldable pub remove : (ℕ → Bool) → ℕ → Route → Store → Result RegistryError (Store × Bool)
unfolding remove_script
remove valid now r s = do
  guard (valid r.id) invalid_identity
  let (p, done) = remove_script now r (s r.kind r.id)
  ok (put r.kind r.id p s, done)

unfoldable pub list : (ℕ → Bool) → ℕ → Kind → ℕ → Store → Result RegistryError (Store × List Route)
unfolding list_script
list valid now kind id s = do
  guard (valid id) invalid_identity
  let (p, routes) = list_script now (s kind id)
  ok (put kind id p s, routes)

-- The incarnation that the device's key holds.
unfoldable pub owns_route : ℕ → Route → Principal → Bool
unfolding get
owns_route now r p = elim (get now r.device_id p) [
  | none ↦ false
  | some row ↦ same_incarnation row.route r
]

unfoldable pub owns : (ℕ → Bool) → ℕ → Route → Store → Result RegistryError Bool
unfolding owns_route
owns valid now r s = do guard (valid r.id) invalid_identity; ok (owns_route now r (s r.kind r.id))

abbrev is_nonempty : List Route → Bool
is_nonempty [] = false
is_nonempty (r ∷ rs) = true

unfoldable pub is_online : (ℕ → Bool) → ℕ → ℕ → Store → Bool
unfolding list
is_online valid now id s = elim (list valid now user id s) [
  | err e ↦ false
  | ok (s', routes) ↦ is_nonempty routes
]
