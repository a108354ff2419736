-- ===== src/Examples/Streams.antt =====
-- The inbox: a batch for two users, delivered twice, read and pruned.
use maim.Common.{
  ℕ, ◌+◌, ◌-◌, ◌<◌, ◌≤◌, ◌≡◌, ◌↔◌, ◌⊎◌, refl, Bool, true, none, some, List, [], ◌∷◌, Memᴰ, ltb,
  Result, ok, err, All, length, find, IsSorted, pos, negsuc, ◌+ℤ◌, ◌≤ℤ◌, arith, if◌then◌else◌,
}
use mathlib.Core.Option
use maim.Sequence
use maim.Sequence.{max_sequence, next_lem, exhausted, outside_range}
use maim.Sequence.Json.{parse_json, format_int, not_an_integer, parse_json-format_int}
use maim.Inbox
use maim.Inbox.Model.{
  InboxKind, message_new, UserInbox, InboxStream, InboxRepo, stream_key, UniqueEntries,
}
use maim.Inbox.Batch.{batch_insert}
use maim.Inbox.Batch.Redelivery.{batch_insert_again}
use maim.Inbox.Page.{
  InboxPage, read_page, allocated_before, is_allocated, rebuild_reason, pending, cut_page, last?,
}
use maim.Inbox.Page.Sorted.{position_of}
use maim.Inbox.Page.Complete.{read_page_complete, read_page_sound}
use maim.Inbox.Page.Checkpoint.{read_page_continues, catch_up, catch_up_complete, IsTail}
use maim.Inbox.Prune.{prune}
use maim.Inbox.Prune.Invisible.{prune_invisible}

next_lem_example :
    ((pos 0 ≤ℤ pos 41)
      × (pos 41 ≤ℤ pos (max_sequence - 1))
      × (Sequence.next (pos 41) ≡ ok (pos 41 +ℤ pos 1)))
    ⊎ ((pos 41 ≡ pos max_sequence) × (Sequence.next (pos 41) ≡ err exhausted))
    ⊎ (((pos 41 ≤ℤ negsuc 0) ⊎ (pos (max_sequence + 1) ≤ℤ pos 41))
        × (Sequence.next (pos 41) ≡ err outside_range))
next_lem_example = next_lem (pos 41)

abbrev known : ℕ → Bool
known i = ltb 0 i

abbrev change : ℕ → ℕ → ℕ → ℕ → UserInbox
change user position message at = record {
  user_id = user;
  position = position;
  conv_id = 7;
  message_id = some message;
  kind = message_new;
  change_id = message;
  last_read_seq = pos 0;
  created_at = at;
}

abbrev batch : List UserInbox
batch = change 1 0 21 5 ∷ change 2 0 22 5 ∷ change 1 0 23 6 ∷ change 1 0 24 6 ∷ []

abbrev empty : InboxRepo
empty = record { entries = []; streams = []; applied = [] }

abbrev or_empty : Result Inbox.Model.InboxError InboxRepo → InboxRepo
or_empty (ok r) = r
or_empty (err e) = empty

abbrev at_position : ℕ → ℕ → ℕ → Inbox.Model.InboxAppliedChange
at_position user change position = record {
  user_id = user;
  change_id = change;
  position = some position;
  created_at = if ltb change 23 then 5 else 6;
}

abbrev stored : InboxRepo
stored = record {
  entries = change 1 1 21 5 ∷ change 1 2 23 6 ∷ change 1 3 24 6 ∷ change 2 1 22 5 ∷ [];
  streams =
      record { user_id = 1; position = 3; retained_position = 0 }
      ∷ record { user_id = 2; position = 1; retained_position = 0 }
      ∷ [];
  applied = at_position 1 21 1 ∷ at_position 1 23 2 ∷ at_position 1 24 3 ∷ at_position 2 22 1 ∷ [];
}

first_delivery : batch_insert known 9 batch empty ≡ ok stored
unfolding batch_insert Sequence.next
first_delivery = refl

batch_insert_again_example : batch_insert known 30 batch stored ≡ ok stored
batch_insert_again_example = batch_insert_again known 9 30 batch empty stored tt first_delivery

abbrev first_page : InboxPage
first_page = record {
  entries = change 1 2 23 6 ∷ [];
  next_position = 2;
  has_more = true;
  rebuild_reason = none;
}

first_read : read_page 1 (pos 1) 1 0 stored ≡ ok first_page
unfolding read_page allocated_before is_allocated rebuild_reason pending cut_page Sequence.validate
    last?
first_read = refl

stored_unique : UniqueEntries stored.entries
stored_unique = (refl, (refl, (refl, (refl, tt))))

read_page_complete_example : Memᴰ (change 1 3 24 6) first_page.entries ↔ ((1 < 3) × (3 ≤ 2))
read_page_complete_example =
    read_page_complete 1 1 1 0 stored first_page (change 1 3 24 6) stored_unique first_read refl
      (Memᴰ.tail (Memᴰ.tail (Memᴰ.head refl))) refl

read_page_sound_example :
    All (λ e. Memᴰ e stored.entries × (e.user_id ≡ 1)) first_page.entries
    × IsSorted position_of first_page.entries
    × (length first_page.entries ≤ 1)
    × ((first_page.has_more ≡ true)
        ⊎ (Option.map (λ (s : InboxStream). s.position) (find (stream_key 1) stored.streams)
            ≡ some first_page.next_position))
read_page_sound_example = read_page_sound 1 1 1 0 stored first_page first_read refl

read_page_continues_example :
    (page' : InboxPage) × (read_page 1 (pos 2) 1 0 stored ≡ ok page')
    × (page'.rebuild_reason ≡ none)
read_page_continues_example =
    read_page_continues 1 1 1 0 stored first_page (omega arith) (omega arith) first_read refl

catch_up_complete_example :
    (es : List UserInbox) × (catch_up 3 1 1 1 0 stored ≡ some es) × IsTail 1 1 3 stored es
catch_up_complete_example =
    catch_up_complete 1 1 1 0 stored (record { user_id = 1; position = 3; retained_position = 0 })
      first_page stored_unique refl (omega arith) (omega arith) first_read refl

prune_invisible_example :
    read_page 1 (pos 2) 10 6 (prune 6 stored).0 ≡ read_page 1 (pos 2) 10 6 stored
prune_invisible_example = prune_invisible 6 stored 1 10 (pos 2)

parse_json-format_int_example : parse_json (format_int 9007199254740991) ≡ ok (pos 9007199254740991)
parse_json-format_int_example = parse_json-format_int 9007199254740991 (omega arith)

-- Space and a sign are accepted, a leading zero and a fraction are not.
spaced : parse_json (b' ' ∷ b'7' ∷ b'0' ∷ b' ' ∷ []) ≡ ok (pos 70)
unfolding parse_json Sequence.validate
spaced = refl

signed : parse_json (b'-' ∷ b'0' ∷ []) ≡ ok (pos 0)
unfolding parse_json Sequence.validate
signed = refl

led_by_zero : parse_json (b'0' ∷ b'7' ∷ []) ≡ err not_an_integer
unfolding parse_json
led_by_zero = refl

fraction : parse_json (b'7' ∷ b'.' ∷ b'0' ∷ []) ≡ err not_an_integer
unfolding parse_json
fraction = refl
