-- ===== src/Inbox/Batch/Applied.antt =====
-- The record of applied changes through BatchInsert's loop: what is on record stays, and each entry
-- of the batch is on record after its round.
use maim.Common.{
  ℕ, ◌≡◌, refl, ◌∙◌, ap, ◌⊎◌, inl, inr, true, none, some, List, [], ◌∷◌, ◌++◌, arith, false, ok,
  >>=-eq-ok, Bool-cases, All, exists, find, delete, update, exists-append, exists-update,
  if◌then◌else◌, guard, guard-eq-ok, not,
}
use maim.Inbox.Model.{
  duplicated_key, UserInbox, InboxStream, InboxAppliedChange, is_read, entry_key, applied_key,
}
use maim.Inbox.Batch.{Cursor, same_read, advance, allocate, place, seek, apply_entry, apply_entries}

-- The change of an entry is on record.
abbrev pub IsApplied : List InboxAppliedChange → UserInbox → Type 0
IsApplied applied e = exists (applied_key e.user_id e.change_id) applied ≡ true

-- Whatever was on record before is on record after.
abbrev pub Keeps : List InboxAppliedChange → List InboxAppliedChange → Type 0
Keeps before after =
    (user change : ℕ)
    → exists (applied_key user change) before ≡ true
    → exists (applied_key user change) after ≡ true

-- The cursor after an allocation at `next`, with the advanced rows.
abbrev pub allocated : UserInbox → Cursor → ℕ × List InboxStream → Cursor
allocated e c (next, streams') = record c {
  entries = c.entries ++ record e { position = next } ∷ [];
  applied =
      update (applied_key e.user_id e.change_id)
        (λ a. record a { position = some next; created_at = e.created_at }) c.applied;
  streams = streams';
}

pub allocate-inv :
    (e : UserInbox) (c : Cursor) {c' : Cursor}
    → allocate e c ≡ ok c'
    → (p : ℕ × List InboxStream) × (exists (λ r. entry_key r e.user_id p.0) c.entries ≡ false)
      × (c' ≡ allocated e c p)
unfolding allocate
allocate-inv e c h =
    let (p, k, h1) = >>=-eq-ok (advance c.streams) _ h in
    let (u, free, h2) =
      >>=-eq-ok (guard (not (exists (λ r. entry_key r e.user_id p.0) c.entries)) duplicated_key) _
        h1 in
    (p, ground (arith, guard-eq-ok _ _ free), cc)

allocate-applied :
    (e : UserInbox) (c : Cursor) {c' : Cursor} (user change : ℕ)
    → allocate e c ≡ ok c'
    → exists (applied_key user change) c'.applied ≡ exists (applied_key user change) c.applied
allocate-applied e c user change h =
    let ((next, rows), k, q) = allocate-inv e c h in
    rw q (
      exists-update (applied_key user change) (applied_key e.user_id e.change_id)
        (λ a. record a { position = some next; created_at = e.created_at }) c.applied (λ a. refl))

-- What `place` hands to `allocate`: the older read position of the conversation is gone.
abbrev pub coalesced : UserInbox → Cursor → Cursor
coalesced e c =
    if is_read e.kind
    then elim (find (same_read e) c.entries) [
      | none ↦ c
      | some old ↦ record c {
        entries = delete (λ r. entry_key r old.user_id old.position) c.entries;
      }
    ]
    else c

pub place-inv :
    (e : UserInbox) (c : Cursor) {c' : Cursor}
    → place e c ≡ ok c'
    → (c' ≡ c) ⊎ (allocate e (coalesced e c) ≡ ok c')
unfolding place
place-inv e c h = ground arith

pub coalesced-applied : (e : UserInbox) (c : Cursor) → (coalesced e c).applied ≡ c.applied
coalesced-applied e c = ground arith

pub place-applied :
    (e : UserInbox) (c : Cursor) {c' : Cursor} (user change : ℕ)
    → place e c ≡ ok c'
    → exists (applied_key user change) c'.applied ≡ exists (applied_key user change) c.applied
place-applied e c user change h = elim (place-inv e c h) [
  | inl q ↦ rw q
  | inr k ↦
      allocate-applied e (coalesced e c) user change k
      ∙ ap (exists (applied_key user change)) (coalesced-applied e c)
]

abbrev pub fresh_row : ℕ → UserInbox → InboxAppliedChange
fresh_row now e = record {
  user_id = e.user_id;
  change_id = e.change_id;
  position = none;
  created_at = now;
}

-- The cursor of an entry that is new, before it is placed.
abbrev pub sought : ℕ → UserInbox → Cursor → List InboxStream × List InboxStream → Cursor
sought now e c (passed', streams') = record c {
  applied = c.applied ++ fresh_row now e ∷ [];
  passed = passed';
  streams = streams';
}

pub apply_entry-inv :
    (now : ℕ) (e : UserInbox) (c : Cursor) {c' : Cursor}
    → apply_entry now e c ≡ ok c'
    → (IsApplied c.applied e × (c' ≡ c))
      ⊎ ((exists (applied_key e.user_id e.change_id) c.applied ≡ false)
          × ((p : List InboxStream × List InboxStream) × (seek e.user_id c.passed c.streams ≡ ok p)
              × (place e (sought now e c p) ≡ ok c')))
unfolding apply_entry
apply_entry-inv now e c h =
    elim (Bool-cases (exists (applied_key e.user_id e.change_id) c.applied)) [
      | inl t ↦ inl (t, ground arith)
      | inr f ↦ inr (f, >>=-eq-ok (seek e.user_id c.passed c.streams) _ (rw (f, apply_entry) at h))
    ]

-- After its round the change of the entry is on record, and no record is lost.
apply_entry-applied :
    (now : ℕ) (e : UserInbox) (c : Cursor) {c' : Cursor}
    → apply_entry now e c ≡ ok c'
    → IsApplied c'.applied e × Keeps c.applied c'.applied
apply_entry-applied now e c h = elim (apply_entry-inv now e c h) [
  | inl (t, q) ↦ rw q (t, λ u x k. k)
  | inr (off, (p, s, k)) ↦ (
    ground (
      arith,
      place-applied e (sought now e c p) e.user_id e.change_id k,
      exists-append (applied_key e.user_id e.change_id) c.applied (fresh_row now e ∷ []),
    ),
    λ user change x. ground (
      arith,
      place-applied e (sought now e c p) user change k,
      exists-append (applied_key user change) c.applied (fresh_row now e ∷ []),
    ),
  )
]

-- After the loop every change of the batch is on record.
pub apply_entries-applied :
    (now : ℕ) (es : List UserInbox) (c : Cursor) {c' : Cursor}
    → apply_entries now es c ≡ ok c'
    → All (IsApplied c'.applied) es × Keeps c.applied c'.applied
unfolding apply_entries
apply_entries-applied now [] c h = (tt, λ u x k. ground arith)
apply_entries-applied now (e ∷ es) c h =
    let (c1, h1, h2) = >>=-eq-ok (apply_entry now e c) _ h in
    let (done, keeps) = apply_entry-applied now e c h1 in
    let (rest, keeps') = apply_entries-applied now es c1 h2 in
    ((keeps' e.user_id e.change_id done, rest), λ u x k. keeps' u x (keeps u x k))

-- A loop over changes that are on record does nothing.
pub apply_entries_again :
    (now : ℕ) (es : List UserInbox) (c : Cursor)
    → All (IsApplied c.applied) es
    → apply_entries now es c ≡ ok c
unfolding apply_entries apply_entry
apply_entries_again now [] c h = refl
apply_entries_again now (e ∷ es) c h = rw h.0 (apply_entries_again now es c h.1)
