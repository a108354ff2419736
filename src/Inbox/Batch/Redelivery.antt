-- ===== src/Inbox/Batch/Redelivery.antt =====
-- A batch that is delivered again changes nothing: what BatchInsert does a second time.
use maim.Common.{
  ℕ, ◌≡◌, refl, Bool, none, List, [], ◌∷◌, ◌++◌, Memᴰ, ok, >>=-eq-ok, All, All-map, UniqueKeys,
  mem-of_sort_by, mem-of_select, All-of_mem,
}
use maim.Inbox.Model.{UserInbox, InboxStream, InboxRepo}
use maim.Inbox.Batch.{
  start, users_after, create_streams, lock_streams, apply_entries, save_streams, check_entries,
  insert_sorted, batch_insert,
}
use maim.Inbox.Batch.Applied.{IsApplied, apply_entries-applied, apply_entries_again}
use maim.Inbox.Batch.Streams.{
  HasStream, create_streams-All, create_streams_again, create_streams-UniqueKeys,
  save_streams-keeps, save_streams-UniqueKeys, save_streams_same,
}

lock_streams-mem :
    (us : List ℕ) (table : List InboxStream) → All (λ s. Memᴰ s table) (lock_streams us table)
unfolding lock_streams
lock_streams-mem us table =
    All-of_mem (λ s. Memᴰ s table) _
      (λ a m. mem-of_select _ table a (mem-of_sort_by (λ s. s.user_id) a _ m))

-- A batch whose users have rows and whose changes are on record does nothing.
insert_sorted_idle :
    (now : ℕ) (batch : List UserInbox) (r : InboxRepo)
    → UniqueKeys (λ s. s.user_id) r.streams
    → All (HasStream r.streams) (users_after none batch)
    → All (IsApplied r.applied) batch
    → insert_sorted now batch r ≡ ok r
unfolding insert_sorted
insert_sorted_idle now batch r u rows done =
    rw (create_streams_again (users_after none batch) r.streams rows) (
      rw (apply_entries_again now batch (start (users_after none batch) r.streams r) done) (
        rw (
          save_streams_same (lock_streams (users_after none batch) r.streams) r.streams u
            (lock_streams-mem _ r.streams))))

insert_sorted_done :
    (now : ℕ) (batch : List UserInbox) (r r' : InboxRepo)
    → UniqueKeys (λ s. s.user_id) r.streams
    → insert_sorted now batch r ≡ ok r'
    → UniqueKeys (λ s. s.user_id) r'.streams
      × All (HasStream r'.streams) (users_after none batch)
      × All (IsApplied r'.applied) batch
unfolding insert_sorted
insert_sorted_done now batch r r' u h =
    let users : List ℕ = users_after none batch in
    let (c, k, q) =
      >>=-eq-ok (apply_entries now batch (start users (create_streams users r.streams) r)) _ h in
    let e : r' ≡ record {
      entries = c.entries;
      streams = save_streams (c.passed ++ c.streams) (create_streams users r.streams);
      applied = c.applied;
    } =
      cc in
    rw e (
      save_streams-UniqueKeys (c.passed ++ c.streams) (create_streams users r.streams)
          (create_streams-UniqueKeys users r.streams u),
      All-map (HasStream (create_streams users r.streams)) _ users
          (λ v m. save_streams-keeps (c.passed ++ c.streams) (create_streams users r.streams) v m)
          (create_streams-All users r.streams),
      (apply_entries-applied now batch (start users (create_streams users r.streams) r) k).0,
    )

-- If a batch is accepted, delivering it again at any later time is accepted and changes no table:
-- no position is allocated twice. The stream table has its primary key.
pub batch_insert_again :
    (valid : ℕ → Bool) (now later : ℕ) (es : List UserInbox) (r r' : InboxRepo)
    → UniqueKeys (λ s. s.user_id) r.streams
    → batch_insert valid now es r ≡ ok r'
    → batch_insert valid later es r' ≡ ok r'
unfolding batch_insert
batch_insert_again valid now later [] r r' u h = refl
batch_insert_again valid now later (e ∷ es) r r' u h =
    let (ready, k, q) = >>=-eq-ok (check_entries valid (e ∷ es)) _ h in
    let (keyed, rows, done) = insert_sorted_done now _ r r' u q in
    rw k (insert_sorted_idle later _ r' keyed rows done)
