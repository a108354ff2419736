-- ===== src/Inbox/Batch/Once.antt =====
-- A change has one entry at most in the stream of a user, however often it is delivered.
use maim.Common.{
  ℕ, ◌≡◌, refl, sym, ◌∙◌, subst, Bool, true, false, ◌&&◌, List, [], ◌∷◌, ◌++◌, arith, ok, >>=-eq-ok,
  All, All-map, All-append, All-mem, All-delete, exists, exists-append, exists-update,
  exists-delete_le, update, delete, inl, inr, Bool-cases, find, none, some, ◌==◌, Option-cases,
  ok-injective, sort_by, All-of_mem, mem-sort_by,
}
use maim.Inbox.Model.{UserInbox, InboxAppliedChange, InboxRepo, is_read, entry_key, applied_key}
use maim.Inbox.Batch.{
  Cursor, same_read, allocate, apply_entry, apply_entries, start, users_after, create_streams,
  insert_sorted, check_entries, batch_insert,
}
use maim.Inbox.Batch.Applied.{
  IsApplied, allocate-inv, coalesced, coalesced-applied, place-inv, fresh_row, sought,
  apply_entry-inv, Keeps, apply_entries-applied,
}

-- An entry for the change in the stream of the user.
abbrev pub entry_for : ℕ → ℕ → UserInbox → Bool
entry_for user change e = e.user_id == user && e.change_id == change

abbrev pub UniqueChanges : List UserInbox → Type 0
UniqueChanges [] = Unit
UniqueChanges (x ∷ xs) = (exists (entry_for x.user_id x.change_id) xs ≡ false) × UniqueChanges xs

-- No change has two entries of a user, and what has an entry is on record as applied.
pub record IsOnce (entries : List UserInbox) (applied : List InboxAppliedChange) : Type 0 where
  pub unique : UniqueChanges entries
  pub recorded : All (IsApplied applied) entries

UniqueChanges-append :
    (xs : List UserInbox) (e : UserInbox)
    → exists (entry_for e.user_id e.change_id) xs ≡ false
    → UniqueChanges xs
    → UniqueChanges (xs ++ e ∷ [])
UniqueChanges-append [] e n u = (refl, tt)
UniqueChanges-append (x ∷ xs) e n u = (
  ground (arith, exists-append (entry_for x.user_id x.change_id) xs (e ∷ []), u.0),
  UniqueChanges-append xs e (ground arith) u.1,
)

UniqueChanges-delete :
    (doomed : UserInbox → Bool) (xs : List UserInbox)
    → UniqueChanges xs
    → UniqueChanges (delete doomed xs)
UniqueChanges-delete doomed [] u = tt
UniqueChanges-delete doomed (x ∷ xs) u = elim (Bool-cases (doomed x)) [
  | inl e ↦ rw e (UniqueChanges-delete doomed xs u.1)
  | inr e ↦ rw e (
    exists-delete_le (entry_for x.user_id x.change_id) doomed xs u.0,
    UniqueChanges-delete doomed xs u.1,
  )
]

-- A change that is not on record has no entry.
unrecorded :
    (user change : ℕ) (xs : List UserInbox) (applied : List InboxAppliedChange)
    → exists (applied_key user change) applied ≡ false
    → All (IsApplied applied) xs
    → exists (entry_for user change) xs ≡ false
unrecorded user change [] applied n h = refl
unrecorded user change (x ∷ xs) applied n h =
    let rest = unrecorded user change xs applied n h.1 in
    elim (Bool-cases (entry_for user change x)) [
      | inl e ↦
          let recorded : exists (applied_key user change) applied ≡ true =
            named x.user_id x.change_id e h.0 in
          cc
      | inr e ↦ rw e rest
    ]
  where
    named :
        (u c : ℕ)
        → (u == user && c == change) ≡ true
        → exists (applied_key u c) applied ≡ true
        → exists (applied_key user change) applied ≡ true
    named u c e k =
        let same : u ≡ user = ground (arith, e) in
        let same_change : c ≡ change = ground (arith, e) in
        subst (λ z. exists (applied_key z change) applied ≡ true) same
          (subst (λ z. exists (applied_key u z) applied ≡ true) same_change k)

-- The entry is stored, behind what is left of the older ones.
allocate-IsOnce :
    (e : UserInbox) (c c' : Cursor)
    → allocate e c ≡ ok c'
    → exists (entry_for e.user_id e.change_id) c.entries ≡ false
    → IsApplied c.applied e
    → IsOnce c.entries c.applied
    → IsOnce c'.entries c'.applied
allocate-IsOnce e c c' h free on v =
    let ((next, rows), k, q) = allocate-inv e c h in
    rw q (record {
      unique = UniqueChanges-append c.entries (record e { position = next }) free v.unique;
      recorded =
          All-append _ c.entries (record e { position = next } ∷ [])
            (All-map _ _ c.entries (λ x k. kept next x.user_id x.change_id ∙ k) v.recorded)
            (kept next e.user_id e.change_id ∙ on, tt);
    })
  where
    kept :
        (next user change : ℕ)
        → exists (applied_key user change) (
            update
              (applied_key e.user_id e.change_id)
              (λ a. record a { position = some next; created_at = e.created_at })
              c.applied)
          ≡ exists (applied_key user change) c.applied
    kept next user change =
        exists-update (applied_key user change) (applied_key e.user_id e.change_id)
          (λ a. record a { position = some next; created_at = e.created_at }) c.applied (λ a. refl)

coalesced-cases :
    (P : List UserInbox → Type 0) (e : UserInbox) (c : Cursor)
    → P c.entries
    → ((doomed : UserInbox → Bool) → P (delete doomed c.entries))
    → P (coalesced e c).entries
coalesced-cases P e c a b = elim (Bool-cases (is_read e.kind)) [
  | inl r ↦ elim (Option-cases (find (same_read e) c.entries)) [
    | inl f ↦ rw (r, f) a
    | inr (old, f) ↦ rw (r, f) (b (λ z. entry_key z old.user_id old.position))
  ]
  | inr r ↦ rw r a
]

apply_entry-IsOnce :
    (now : ℕ) (e : UserInbox) (c c' : Cursor)
    → apply_entry now e c ≡ ok c'
    → IsOnce c.entries c.applied
    → IsOnce c'.entries c'.applied
apply_entry-IsOnce now e c c' h v = elim (apply_entry-inv now e c h) [
  | inl (t, q) ↦ rw q v
  | inr (off, (p, s, k)) ↦
      let d : Cursor = sought now e c p in
      let noted : IsOnce d.entries d.applied = record {
        unique = v.unique;
        recorded = All-map _ _ c.entries (λ x k. longer x.user_id x.change_id k) v.recorded;
      } in
      let free = unrecorded e.user_id e.change_id c.entries c.applied off v.recorded in
      elim (place-inv e d k) [
        | inl q ↦ rw q noted
        | inr q ↦
            allocate-IsOnce e (coalesced e d) c' q
              (coalesced-cases (λ xs. exists (entry_for e.user_id e.change_id) xs ≡ false) e d free
                (λ doomed.
                  exists-delete_le (entry_for e.user_id e.change_id) doomed c.entries free))
              (subst (λ z. IsApplied z e) (sym (coalesced-applied e d)) on_record)
              (subst (λ z. IsOnce (coalesced e d).entries z) (sym (coalesced-applied e d))
                (coalesced-cases (λ xs. IsOnce xs d.applied) e d noted
                  (λ doomed. record {
                    unique = UniqueChanges-delete doomed c.entries noted.unique;
                    recorded =
                        All-delete _ doomed c.entries
                          (λ x m f. All-mem _ c.entries x noted.recorded m);
                  })))
      ]
]
  where
    longer :
        (user change : ℕ)
        → exists (applied_key user change) c.applied ≡ true
        → exists (applied_key user change) (c.applied ++ fresh_row now e ∷ []) ≡ true
    longer user change k =
        ground (arith, exists-append (applied_key user change) c.applied (fresh_row now e ∷ []))

    on_record :
        exists (applied_key e.user_id e.change_id) (c.applied ++ fresh_row now e ∷ []) ≡ true
    on_record =
        ground (
          arith,
          exists-append (applied_key e.user_id e.change_id) c.applied (fresh_row now e ∷ []),
        )

apply_entries-IsOnce :
    (now : ℕ) (es : List UserInbox) (c c' : Cursor)
    → apply_entries now es c ≡ ok c'
    → IsOnce c.entries c.applied
    → IsOnce c'.entries c'.applied
unfolding apply_entries
apply_entries-IsOnce now [] c c' h v =
    subst (λ (z : Cursor). IsOnce z.entries z.applied) (ok-injective h) v
apply_entries-IsOnce now (e ∷ es) c c' h v =
    let (d, h1, h2) = >>=-eq-ok (apply_entry now e c) _ h in
    apply_entries-IsOnce now es d c' h2 (apply_entry-IsOnce now e c d h1 v)

pub batch_insert-IsOnce :
    (valid : ℕ → Bool) (now : ℕ) (es : List UserInbox) (r r' : InboxRepo)
    → batch_insert valid now es r ≡ ok r'
    → IsOnce r.entries r.applied
    → IsOnce r'.entries r'.applied
unfolding batch_insert insert_sorted
batch_insert-IsOnce valid now [] r r' h v =
    subst (λ (z : InboxRepo). IsOnce z.entries z.applied) (ok-injective h) v
batch_insert-IsOnce valid now (e ∷ es) r r' h v =
    let batch : List UserInbox = sort_by (λ (x : UserInbox). x.user_id) (e ∷ es) in
    let users : List ℕ = users_after none batch in
    let (ready, k, q) = >>=-eq-ok (check_entries valid (e ∷ es)) _ h in
    let (c, a, b) =
      >>=-eq-ok (apply_entries now batch (start users (create_streams users r.streams) r)) _ q in
    subst (λ (z : InboxRepo). IsOnce z.entries z.applied) (ok-injective b)
      (apply_entries-IsOnce now batch (start users (create_streams users r.streams) r) c a v)

-- The changes of a batch that is accepted are on record, and those that were stay there.
pub batch_insert-applied :
    (valid : ℕ → Bool) (now : ℕ) (es : List UserInbox) (r r' : InboxRepo)
    → batch_insert valid now es r ≡ ok r'
    → All (IsApplied r'.applied) es × Keeps r.applied r'.applied
unfolding batch_insert insert_sorted
batch_insert-applied valid now [] r r' h =
    (tt, subst (λ (z : InboxRepo). Keeps r.applied z.applied) (ok-injective h) (λ u x k. k))
batch_insert-applied valid now (e ∷ es) r r' h =
    let batch : List UserInbox = sort_by (λ (x : UserInbox). x.user_id) (e ∷ es) in
    let users : List ℕ = users_after none batch in
    let (ready, k, q) = >>=-eq-ok (check_entries valid (e ∷ es)) _ h in
    let (c, a, b) =
      >>=-eq-ok (apply_entries now batch (start users (create_streams users r.streams) r)) _ q in
    let (done, keeps) =
      apply_entries-applied now batch (start users (create_streams users r.streams) r) a in
    subst (λ (z : InboxRepo). All (IsApplied z.applied) (e ∷ es) × Keeps r.applied z.applied)
      (ok-injective b)
      (
        All-of_mem (IsApplied c.applied) (e ∷ es) (λ x m.
            All-mem (IsApplied c.applied) batch x done
              (mem-sort_by (λ (y : UserInbox). y.user_id) x (e ∷ es) m)),
        keeps,
      )
