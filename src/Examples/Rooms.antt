-- ===== src/Examples/Rooms.antt =====
-- A group with an owner, an admin and a member, and what they may do to one another.
use maim.Common.{
  ℕ, ◌+◌, ◌≤◌, ◌≡◌, refl, Bool, true, false, Option, none, some, List, [], ◌∷◌, ◌++◌, Memᴰ,
  UniqueKeys, ltb, ok, arith, pos, negsuc, All, exists, length, max,
}
use maim.Sequence
use maim.Conversations.Model.{
  read_updated, Member, Room, type_group, removed, upserted, member_left, member_joined, by_user,
}
use maim.Conversations.Channel.{
  publish_inbox_change, publish_bot_activity, publish_conversation_change,
}
use maim.Conversations.Permission.{validate_request, require_role}
use maim.Conversations.Members.{
  add_members, users_of, add_members_within_limit, remove_members, check_removal,
}
use maim.Conversations.Publishing.{IsChannel}
use maim.Conversations.Calls.{
  Call, adds, removes, transfers_to, updates, mutes, mutes_all, deletes_all, serve,
}
use maim.Conversations.Governance.{IsGoverned, serve-IsGoverned}
use maim.Conversations.Owner.{HasOwner, serve_protects_owner}
use maim.Conversations.Orphan.{IsOrphan, owner_leaves_for_good}
use maim.Conversations.Publications.{serve-IsChannel}
use maim.Conversations.Capacity.{add_members_lem}
use maim.Conversations.Reads.{ReadSeq, mark_as_read, upsert_read_seq, store_read_seq}
use maim.Conversations.Reads.Forward.{IsMarked, mark_as_read_forward}

abbrev known : ℕ → Bool
known i = ltb 0 i

abbrev member : ℕ → ℕ → Member
member user role = record {
  id = 100 + user;
  user_id = user;
  role = role;
  alias = 0;
  is_muted = false;
  mute_until = pos 0;
  joined_at = 5;
}

abbrev group : Room
group = record {
  conv =
      some (record {
        type = type_group;
        owner_id = some 1;
        is_muted_all = false;
        member_count = pos 3;
      });
  members = member 1 1 ∷ member 2 2 ∷ member 3 3 ∷ [];
  channel = record { current_seq = some 4; max_seq = 4; publication_sequence = 9; outbox = [] };
}

abbrev fresh : ℕ → Option ℕ
fresh n = some (1000 + n)

group-IsGoverned : IsGoverned group
group-IsGoverned = record {
  keyed = (refl, (refl, (refl, tt)));
  ranked =
      ((omega arith, omega arith), ((omega arith, omega arith), ((omega arith, omega arith), tt)));
  owned =
      (((λ top. refl), ((λ top. absurd (omega arith)), ((λ top. absurd (omega arith)), tt))), refl);
}

-- The admin adds, removes and mutes, and tries to remove, mute and depose the owner.
abbrev attempts : List Call
attempts =
    record {
      caller = 2;
      operator = 2;
      now = 20;
      new_id = fresh;
      request = adds ((4, some 104) ∷ (3, some 105) ∷ []);
    }
    ∷ record { caller = 2; operator = 2; now = 21; new_id = fresh; request = mutes 3 (pos 60) }
    ∷ record { caller = 2; operator = 2; now = 22; new_id = fresh; request = removes (3 ∷ []) }
    ∷ record { caller = 2; operator = 2; now = 23; new_id = fresh; request = removes (1 ∷ []) }
    ∷ record { caller = 2; operator = 2; now = 24; new_id = fresh; request = mutes 1 (negsuc 0) }
    ∷ record { caller = 2; operator = 2; now = 25; new_id = fresh; request = transfers_to 2 }
    ∷ record {
      caller = 2;
      operator = 1;
      now = 26;
      new_id = fresh;
      request = updates 1 (some (pos 3)) none;
    }
    ∷ record { caller = 2; operator = 2; now = 27; new_id = fresh; request = deletes_all }
    ∷ []

-- The owner hands the group to the admin and deletes it, which fails.
abbrev handover : List Call
handover =
    record { caller = 1; operator = 1; now = 30; new_id = fresh; request = transfers_to 2 }
    ∷ record { caller = 1; operator = 1; now = 31; new_id = fresh; request = deletes_all }
    ∷ record {
      caller = 2;
      operator = 2;
      now = 32;
      new_id = fresh;
      request = updates 3 (some (pos 2)) (some 77);
    }
    ∷ record { caller = 3; operator = 3; now = 33; new_id = fresh; request = mutes_all }
    ∷ []

serve-IsGoverned_example : IsGoverned (serve known 4 7 handover group)
serve-IsGoverned_example = serve-IsGoverned known 4 7 handover group group-IsGoverned

serve_protects_owner_example : HasOwner 1 (member 1 1) (serve known 4 7 attempts group)
serve_protects_owner_example =
    serve_protects_owner known 4 7 1 (member 1 1) attempts group group-IsGoverned
      ((_, refl, refl), refl) refl
      (refl, (refl, (refl, (refl, (refl, (refl, (refl, (refl, tt))))))))

abbrev left : Room
left = record {
  conv =
      some (record {
        type = type_group;
        owner_id = some 1;
        is_muted_all = false;
        member_count = pos 2;
      });
  members = member 2 2 ∷ member 3 3 ∷ [];
  channel = record {
    current_seq = some 5;
    max_seq = 5;
    publication_sequence = 12;
    outbox =
        record { id = 1010; publication_sequence = 10; change = member_left 1 5 }
        ∷ record { id = 1011; publication_sequence = 11; change = upserted (2 ∷ 3 ∷ []) }
        ∷ record { id = 1012; publication_sequence = 12; change = removed (1 ∷ []) }
        ∷ [];
  };
}

owner_left : remove_members known fresh 1 1 7 (1 ∷ []) group ≡ ok left
unfolding remove_members validate_request require_role check_removal publish_bot_activity
    publish_conversation_change Sequence.next
owner_left = refl

owner_leaves_for_good_example : IsOrphan (serve known 4 7 attempts left)
owner_leaves_for_good_example =
    owner_leaves_for_good known 4 1 1 7 fresh (1 ∷ []) _ attempts group left group-IsGoverned refl
      refl (Memᴰ.head refl) owner_left

serve-IsChannel_example : IsChannel (serve known 4 7 handover group).channel
serve-IsChannel_example =
    serve-IsChannel known 4 7 handover group
      (record { ascends = tt; bounded = tt; in_range = omega arith })

abbrev grown : Room
grown = record {
  conv =
      some (record {
        type = type_group;
        owner_id = some 1;
        is_muted_all = false;
        member_count = pos 4;
      });
  members =
      member 1 1
      ∷ member 2 2
      ∷ member 3 3
      ∷ record {
        id = 104;
        user_id = 4;
        role = 3;
        alias = 0;
        is_muted = false;
        mute_until = pos 0;
        joined_at = 20;
      }
      ∷ [];
  channel = record {
    current_seq = some 5;
    max_seq = 5;
    publication_sequence = 11;
    outbox =
        record { id = 1010; publication_sequence = 10; change = member_joined 4 5 }
        ∷ record { id = 1011; publication_sequence = 11; change = upserted (1 ∷ 2 ∷ 3 ∷ 4 ∷ []) }
        ∷ [];
  };
}

two_added :
    add_members known fresh 4 20 2 2 7 ((4, some 104) ∷ (3, some 105) ∷ []) group
    ≡ ok (grown, 4 ∷ [], 3 ∷ [])
unfolding add_members add_members_within_limit validate_request require_role publish_bot_activity
    publish_conversation_change Sequence.next
two_added = refl

add_members_lem_example :
    All (λ u. exists (by_user u) grown.members ≡ true) (4 ∷ 3 ∷ [])
    × ((new : List Member) × (grown.members ≡ group.members ++ new)
        × (users_of new ≡ 4 ∷ [])
        × UniqueKeys (λ (m : Member). m.user_id) new)
    × All (λ u. exists (by_user u) group.members ≡ false) (4 ∷ [])
    × (length grown.members ≡ length group.members + length {A = ℕ} (4 ∷ []))
    × (length grown.members ≤ max 4 (length group.members))
add_members_lem_example =
    add_members_lem known fresh 4 20 2 2 7 ((4, some 104) ∷ (3, some 105) ∷ []) group grown (4 ∷ [])
      (3 ∷ []) two_added

abbrev marked : Room
marked = record group {
  channel = record {
    current_seq = some 4;
    max_seq = 4;
    publication_sequence = 10;
    outbox = record { id = 1010; publication_sequence = 10; change = read_updated 3 4 } ∷ [];
  };
}

abbrev reads : List ReadSeq
reads =
    record { id = 51; user_id = 2; last_read_seq = 1 }
    ∷ record { id = 52; user_id = 3; last_read_seq = 2 }
    ∷ []

abbrev reads_after : List ReadSeq
reads_after =
    record { id = 51; user_id = 2; last_read_seq = 1 }
    ∷ record { id = 52; user_id = 3; last_read_seq = 4 }
    ∷ []

marked_now : mark_as_read known (some 53) fresh 3 3 7 (pos 9) group reads ≡ ok (marked, reads_after)
unfolding mark_as_read upsert_read_seq store_read_seq validate_request publish_inbox_change
    Sequence.validate Sequence.next
marked_now = refl

mark_as_read_forward_example : IsMarked 3 (pos 9) group reads (marked, reads_after)
mark_as_read_forward_example =
    mark_as_read_forward known (some 53) fresh 3 3 7 (pos 9) group marked reads reads_after
      marked_now
