-- ===== src/Examples/Contacts.antt =====
-- The contacts: a request that is accepted, groups, a block, and the race of the two.
use maim.Common.{
  ℕ, ◌-◌, ◌*◌, ◌^◌, ◌<◌, ◌≤◌, ◌≡◌, refl, Bool, true, false, none, some, List, [], ◌∷◌, ltb, ok, ◌↔◌,
  ◌==◌, ◌&&◌, Memᴰ, arith, pos,
}
use maim.Friends.Model.{FriendStatus, Friend, User, FriendRequest, Contacts, pending}
use maim.Friends.Caller.{pagination_params, reported_page, pagination_resp}
use maim.Friends.Repo.{is_friend, is_blocked, accept, list_friend_rows, matches_group}
use maim.Friends.Requests.{accept_request_checks}
use maim.Friends.Relations.{block_user}
use maim.Friends.Invariant.{IsSound}
use maim.Friends.Handlers.{
  Call, send, accepts, blocks, creates_group, sets_group, unblocks, serve, serve-IsSound,
}
use maim.Friends.Status.{Evolves, serve-Evolves}
use maim.Friends.Blocking.{block_user_holds, accept_after_block_befriends}
use maim.Friends.Pages.{
  pagination_params_bounds, IsDescending, friend_pages_cover, read_pages, friend_page,
}

abbrev known : ℕ → Bool
known i = ltb 0 i

abbrev people : List User
people =
    record { id = 1; username = 101; avatar = 201 }
    ∷ record { id = 2; username = 102; avatar = 202 }
    ∷ record { id = 3; username = 103; avatar = 203 }
    ∷ []

abbrev request : FriendRequest
request = record {
  id = 50;
  from_user_id = 1;
  to_user_id = 2;
  message = 7;
  status = pending;
  created_at = 10;
  updated_at = 10;
}

abbrev contacts : Contacts
contacts = record {
  users = people;
  requests = request ∷ [];
  friends = [];
  groups = [];
  blocks = [];
}

contacts-IsSound : IsSound contacts
unfolding is_friend is_blocked
contacts-IsSound = record {
  symmetric = λ a b. refl;
  apart = λ a b h. refl;
  irreflexive = λ a. refl;
  between = (refl, tt);
  grouped = tt;
}

-- 2 accepts 1 into a group, 1 asks 3, and 2 blocks 1.
abbrev calls : List Call
calls =
    accepts (some 60) (some 61) 20 2 0 50
    ∷ creates_group (some 70) 21 2 2 (32 ∷ 104 ∷ [])
    ∷ sets_group 2 0 1 (some 70) false
    ∷ send (some 51) 22 1 0 3 8
    ∷ blocks (some 80) 23 2 0 1
    ∷ []

serve-IsSound_example : IsSound (serve known calls contacts)
serve-IsSound_example = serve-IsSound known calls contacts contacts-IsSound

serve-Evolves_example : Evolves contacts.requests (serve known calls contacts).requests
serve-Evolves_example = serve-Evolves known calls contacts

abbrev after_block : Contacts
after_block = record contacts {
  blocks = record { id = 80; user_id = 2; blocked_user_id = 1; created_at = 23 } ∷ [];
}

blocked_now : block_user known (some 80) 23 2 0 1 contacts ≡ ok after_block
unfolding block_user
blocked_now = refl

-- What 1 and 2 try behind the block.
abbrev attempts : List Call
attempts =
    accepts (some 60) (some 61) 24 2 0 50
    ∷ send (some 52) 25 1 0 2 9
    ∷ unblocks 1 0 2
    ∷ unblocks 2 0 3
    ∷ []

block_user_holds_example :
    (is_friend 2 1 (serve known attempts after_block) ≡ false)
    × (is_friend 1 2 (serve known attempts after_block) ≡ false)
    × (is_blocked 2 1 (serve known attempts after_block) ≡ true)
block_user_holds_example =
    block_user_holds known (some 80) 23 2 0 1 attempts contacts after_block contacts-IsSound
      blocked_now (refl, (refl, (refl, (refl, tt))))

checked_before : accept_request_checks known 2 0 50 contacts ≡ ok request
unfolding accept_request_checks
checked_before = refl

abbrev after_accept : Contacts
after_accept = record after_block {
  requests = record request { status = FriendStatus.accepted; updated_at = 24 } ∷ [];
  friends =
      record { id = 60; user_id = 1; friend_id = 2; group_id = none; remark = 0; created_at = 24 }
      ∷ record { id = 61; user_id = 2; friend_id = 1; group_id = none; remark = 0; created_at = 24 }
      ∷ [];
}

accepted_after : accept (some 60) (some 61) 24 request after_block ≡ ok after_accept
unfolding accept
accepted_after = refl

accept_after_block_befriends_example :
    (is_friend 2 1 after_accept ≡ true) × (is_blocked 2 1 after_accept ≡ true)
accept_after_block_befriends_example =
    accept_after_block_befriends known (some 60) (some 61) (some 80) 23 24 2 0 50 request contacts
      after_block after_accept checked_before blocked_now accepted_after

pagination_params_bounds_example :
    (1 ≤ (pagination_params (some (record { page = pos 3; page_size = pos 500 }))).1)
    × ((pagination_params (some (record { page = pos 3; page_size = pos 500 }))).1 ≤ 100)
    × (1 ≤ (reported_page (some (record { page = pos 3; page_size = pos 500 }))).0)
    × ((reported_page (some (record { page = pos 3; page_size = pos 500 }))).1
        ≡ (pagination_params (some (record { page = pos 3; page_size = pos 500 }))).1)
    × ((pagination_params (some (record { page = pos 3; page_size = pos 500 }))).0
        ≡ ((reported_page (some (record { page = pos 3; page_size = pos 500 }))).0 - 1)
          * (pagination_params (some (record { page = pos 3; page_size = pos 500 }))).1)
pagination_params_bounds_example =
    pagination_params_bounds (some (record { page = pos 3; page_size = pos 500 }))

-- The friends of user 1, and one row of another user.
abbrev befriended : ℕ → ℕ → ℕ → Friend
befriended user friend at = record {
  id = at;
  user_id = user;
  friend_id = friend;
  remark = 0;
  group_id = none;
  created_at = at;
}

abbrev three_friends : Contacts
three_friends = record after_accept {
  friends = befriended 1 2 20 ∷ befriended 2 1 20 ∷ befriended 1 3 40 ∷ befriended 1 4 30 ∷ [];
}

few_rows : (list_friend_rows 1 none 0 none three_friends).1 < 2 ^ 31
unfolding list_friend_rows
few_rows = omega arith

friend_pages_cover_example :
    (n : ℕ) × ((pagination_resp 1 2 (list_friend_rows 1 none 0 none three_friends).1).total_pages
      ≡ pos n)
    × (read_pages (friend_page 1 none 2 three_friends) n
        ≡ (list_friend_rows 1 none 0 none three_friends).0)
    × IsDescending
        (λ (f : Friend). f.created_at)
        (read_pages (friend_page 1 none 2 three_friends) n)
    × ((f : Friend)
        → Memᴰ f (read_pages (friend_page 1 none 2 three_friends) n)
          ↔ (Memᴰ f three_friends.friends × ((f.user_id == 1 && matches_group none f) ≡ true)))
friend_pages_cover_example =
    friend_pages_cover 1 none 2 three_friends (omega arith) (omega arith) few_rows
      (refl, (refl, (refl, tt)))
