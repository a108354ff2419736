-- ===== src/Examples/Registry.antt =====
-- The connection registry: a device that reconnects while its old incarnation is still closing.
use maim.Common.{ℕ, ◌<◌, ◌≡◌, ◌↔◌, refl, true, none, List, [], ◌∷◌, Memᴰ, arith}
use maim.Connections.{
  Route, DeviceRow, Principal, user, no_keys, get, same_incarnation, owns_route, register_script,
  remove_script, list_script,
}
use maim.Connections.Fencing.{Attempt, attempts, refusals, register_fences, register_owns}
use maim.Connections.History.{Reach, opens, waits, registers, list_script-Reach}

abbrev phone : ℕ → ℕ → Route
phone instance generation = record {
  kind = user;
  id = 1;
  device_id = 5;
  instance_id = instance;
  generation = generation;
  last_active = 0;
}

abbrev connected : Principal
connected = (register_script 1000 90000 (phone 1 11) no_keys).0

abbrev late : List Attempt
late = Attempt.refreshes 3000 90000 (phone 1 11) ∷ Attempt.removes 4000 (phone 1 11) ∷ []

register_fences_example :
    attempts late (register_script 2000 90000 (phone 2 12) connected).0
    ≡ ((register_script 2000 90000 (phone 2 12) connected).0, refusals late)
register_fences_example =
    register_fences 2000 90000 (phone 2 12) connected late
      ((omega arith, refl, refl), ((omega arith, refl, refl), tt))

register_owns_example :
    let q = (register_script 2000 90000 (phone 2 12) connected).0 in
    (owns_route 5000 (phone 2 12) q ≡ true)
    × (owns_route 5000 (phone 1 11) q ≡ same_incarnation (phone 2 12) (phone 1 11))
    × ((remove_script 5000 (phone 2 12) q).1 ≡ true)
    × ((u : ℕ) → get u 5 (remove_script 5000 (phone 2 12) q).0 ≡ none)
register_owns_example =
    register_owns 2000 90000 5000 (phone 2 12) (phone 1 11) connected (omega arith) refl

abbrev reconnected : Principal
reconnected =
    (remove_script 3000 (phone 1 11)
      (register_script 2000 90000 (phone 2 12)
        (register_script 1000 90000 (phone 1 11) no_keys).0).0).0

reconnected-Reach : Reach 90000 3000 reconnected
reconnected-Reach = Reach.removes (phone 1 11) (
    waits 3000
      (registers (phone 2 12)
        (waits 2000 (registers (phone 1 11) (waits 1000 opens (omega arith))) (omega arith)))
      (omega arith))

-- The route as it was stored, in seconds.
abbrev listed : Route
listed = record (phone 2 12) { last_active = 2 }

list_script-Reach_example : Memᴰ listed (list_script 3000 reconnected).1 ↔ (
    (row : DeviceRow) × Memᴰ row reconnected.devices × (3000 < row.expires) × (row.route ≡ listed))
list_script-Reach_example = list_script-Reach 90000 3000 reconnected listed reconnected-Reach
