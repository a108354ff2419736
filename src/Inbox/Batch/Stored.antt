-- ===== src/Inbox/Batch/Stored.antt =====
-- What BatchInsert writes to the streams: a change that is accepted is a row of its user's stream.
use maim.Common.{
  ℕ, ◌≡◌, ◌⊎◌, refl, sym, ◌∙◌, ap, subst, Bool, true, false, ◌&&◌, List, [], ◌∷◌, ◌++◌, Memᴰ, arith,
  ok, >>=-eq-ok, ok-injective, All, All-mem, All-of_mem, exists, exists-append, exists-delete_le,
  delete, find, find-mem, find_passes, none, some, ◌==◌, ==_refl, inl, inr, Bool-cases,
  Option-cases, Memᴰ-append_left, Memᴰ-append_right, mem-delete_miss, sort_by, mem-of_sort_by,
  leb_ℤ,
}
use maim.Inbox.Model.{
  UserInbox, InboxAppliedChange, InboxRepo, UniqueEntries, unique_entry, is_read, entry_key,
  applied_key,
}
use maim.Inbox.Batch.{
  Cursor, same_read, allocate, place, apply_entry, apply_entries, start, users_after,
  create_streams, insert_sorted, check_entries, batch_insert,
}
use maim.Inbox.Batch.Applied.{
  IsApplied, allocate-inv, coalesced, place-inv, fresh_row, sought, apply_entry-inv, place-applied,
}

-- The row is the entry, at some position and of some time.
abbrev pub IsRowOf : UserInbox → UserInbox → Type 0
IsRowOf e x = x ≡ record e { position = x.position; created_at = x.created_at }

-- The stream has the entry.
abbrev pub IsHeld : UserInbox → List UserInbox → Type 0
IsHeld e entries = (x : UserInbox) × Memᴰ x entries × IsRowOf e x

UniqueEntries-append :
    (xs : List UserInbox) (e : UserInbox)
    → exists (λ r. entry_key r e.user_id e.position) xs ≡ false
    → UniqueEntries xs
    → UniqueEntries (xs ++ e ∷ [])
UniqueEntries-append [] e n u = (refl, tt)
UniqueEntries-append (x ∷ xs) e n u = (
  ground (arith, exists-append (λ y. entry_key y x.user_id x.position) xs (e ∷ []), u.0),
  UniqueEntries-append xs e (ground arith) u.1,
)

UniqueEntries-delete :
    (doomed : UserInbox → Bool) (xs : List UserInbox)
    → UniqueEntries xs
    → UniqueEntries (delete doomed xs)
UniqueEntries-delete doomed [] u = tt
UniqueEntries-delete doomed (x ∷ xs) u = elim (Bool-cases (doomed x)) [
  | inl e ↦ rw e (UniqueEntries-delete doomed xs u.1)
  | inr e ↦ rw e (
    exists-delete_le (λ y. entry_key y x.user_id x.position) doomed xs u.0,
    UniqueEntries-delete doomed xs u.1,
  )
]

-- Of the rows, only an older read position goes.
coalesced-rows :
    (e : UserInbox) (c : Cursor)
    → UniqueEntries c.entries
    → UniqueEntries (coalesced e c).entries
      × ((x : UserInbox)
          → is_read x.kind ≡ false
          → Memᴰ x c.entries
          → Memᴰ x (coalesced e c).entries)
coalesced-rows e c u = elim (Bool-cases (is_read e.kind)) [
  | inr r ↦ rw r (u, λ x n m. m)
  | inl r ↦ elim (Option-cases (find (same_read e) c.entries)) [
    | inl f ↦ rw (r, f) (u, λ x n m. m)
    | inr (old, f) ↦
        rw (r, f)
          (
            UniqueEntries-delete (λ z. entry_key z old.user_id old.position) c.entries u,
            λ x n m.
                mem-delete_miss (λ z. entry_key z old.user_id old.position) c.entries x
                  (spared old x f n m) m,
          )
  ]
]
  where
    both : false ≡ true → ⊥
    both h = cc

    spared :
        (old x : UserInbox)
        → find (same_read e) c.entries ≡ some old
        → is_read x.kind ≡ false
        → Memᴰ x c.entries
        → entry_key x old.user_id old.position ≡ false
    spared old x f n m = elim (Bool-cases (entry_key x old.user_id old.position)) [
      | inr k ↦ k
      | inl k ↦
          let user_same : x.user_id ≡ old.user_id = ground (arith, k) in
          let position_same : x.position ≡ old.position = ground (arith, k) in
          let same =
            unique_entry c.entries x old u m (find-mem (same_read e) c.entries f) user_same
              position_same in
          let read : is_read old.kind ≡ true =
            ground (arith, find_passes (same_read e) c.entries f) in
          absurd (both (sym n ∙ ap (λ (z : UserInbox). is_read z.kind) same ∙ read))
    ]

-- A round keeps the primary key and the rows that are no read positions.
apply_entry-rows :
    (now : ℕ) (e : UserInbox) (c : Cursor) {c' : Cursor}
    → apply_entry now e c ≡ ok c'
    → UniqueEntries c.entries
    → UniqueEntries c'.entries
      × ((x : UserInbox) → is_read x.kind ≡ false → Memᴰ x c.entries → Memᴰ x c'.entries)
apply_entry-rows now e c h u = elim (apply_entry-inv now e c h) [
  | inl (t, q) ↦ rw q (u, λ x n m. m)
  | inr (off, (p, s, k)) ↦ elim (place-inv e (sought now e c p) k) [
    | inl q ↦ rw q (u, λ x n m. m)
    | inr a ↦
        let d : Cursor = coalesced e (sought now e c p) in
        let ((next, rows), free, q) = allocate-inv e d a in
        let (kept, spared) = coalesced-rows e (sought now e c p) u in
        rw q (
          UniqueEntries-append d.entries (record e { position = next }) free kept,
          λ x n m. Memᴰ-append_left x d.entries (record e { position = next } ∷ []) (spared x n m),
        )
  ]
]

-- A new change that is no read position is stored.
apply_entry-IsHeld :
    (now : ℕ) (e : UserInbox) (c : Cursor) {c' : Cursor}
    → apply_entry now e c ≡ ok c'
    → is_read e.kind ≡ false
    → exists (applied_key e.user_id e.change_id) c.applied ≡ false
    → IsHeld e c'.entries
unfolding apply_entry place
apply_entry-IsHeld now e c h n new = elim (apply_entry-inv now e c h) [
  | inl (t, q) ↦ let bad = sym t ∙ new in cc
  | inr (off, (p, s, k)) ↦
      let (next, free, q) = allocate-inv e (sought now e c p) (rw (n, place) at k) in
      rw q (
        record e { position = next.0 },
        Memᴰ-append_right (record e { position = next.0 }) c.entries _ (Memᴰ.head refl),
        refl,
      )
]

IsHeld-of_row :
    (e x : UserInbox) (entries : List UserInbox) → IsRowOf e x → IsHeld x entries → IsHeld e entries
IsHeld-of_row e x entries r (y, m, s) = (
  y,
  m,
  s ∙ ap (λ (z : UserInbox). record z { position = y.position; created_at = y.created_at }) r,
)

module _ (e : UserInbox) where
  -- The change is new to the user, or its entry is in the stream.
  pub record IsReady (entries : List UserInbox) (applied : List InboxAppliedChange) : Type 0 where
    pub unique : UniqueEntries entries
    pub held : (exists (applied_key e.user_id e.change_id) applied ≡ false) ⊎ IsHeld e entries

  -- Another entry is for another user or change.
  abbrev pub IsAlike : UserInbox → Type 0
  IsAlike x = IsRowOf e x ⊎ ((x.user_id == e.user_id && x.change_id == e.change_id) ≡ false)

  apply_entry-other :
      (now : ℕ) (x : UserInbox) (c : Cursor) {c' : Cursor}
      → apply_entry now x c ≡ ok c'
      → (x.user_id == e.user_id && x.change_id == e.change_id) ≡ false
      → exists (applied_key e.user_id e.change_id) c.applied ≡ false
      → exists (applied_key e.user_id e.change_id) c'.applied ≡ false
  apply_entry-other now x c h other new = elim (apply_entry-inv now x c h) [
    | inl (t, q) ↦ rw q new
    | inr (off, (p, s, k)) ↦ ground (
      arith,
      place-applied x (sought now x c p) e.user_id e.change_id k,
      exists-append (applied_key e.user_id e.change_id) c.applied (fresh_row now x ∷ []),
    )
  ]

  apply_entry-IsReady :
      (now : ℕ) (x : UserInbox) (c : Cursor) {c' : Cursor}
      → apply_entry now x c ≡ ok c'
      → is_read e.kind ≡ false
      → IsAlike x
      → IsReady c.entries c.applied
      → IsReady c'.entries c'.applied
  apply_entry-IsReady now x c {c'} h n alike v =
      let (unique, kept) = apply_entry-rows now x c h v.unique in
      record {
        unique = unique;
        held = elim v.held [
          | inr (y, m, s) ↦ inr (y, kept y (ap (λ (z : UserInbox). is_read z.kind) s ∙ n) m, s)
          | inl new ↦ elim alike [
            | inr other ↦ inl (apply_entry-other now x c h other new)
            | inl row ↦ inr (
                IsHeld-of_row e x c'.entries row (
                  apply_entry-IsHeld now x c h (ap (λ (z : UserInbox). is_read z.kind) row ∙ n) (
                    ap (λ (z : UserInbox). exists (applied_key z.user_id z.change_id) c.applied) row
                    ∙ new)))
          ]
        ];
      }

  apply_entries-IsReady :
      (now : ℕ) (es : List UserInbox) (c : Cursor) {c' : Cursor}
      → apply_entries now es c ≡ ok c'
      → is_read e.kind ≡ false
      → All IsAlike es
      → IsReady c.entries c.applied
      → IsReady c'.entries c'.applied
  unfolding apply_entries
  apply_entries-IsReady now [] c h n a v =
      subst (λ (z : Cursor). IsReady z.entries z.applied) (ok-injective h) v
  apply_entries-IsReady now (x ∷ es) c h n a v =
      let (d, h1, h2) = >>=-eq-ok (apply_entry now x c) _ h in
      apply_entries-IsReady now es d h2 n a.1 (apply_entry-IsReady now x c h1 n a.0 v)

  pub batch_insert-IsReady :
      (valid : ℕ → Bool) (now : ℕ) (es : List UserInbox) (r r' : InboxRepo)
      → batch_insert valid now es r ≡ ok r'
      → is_read e.kind ≡ false
      → All IsAlike es
      → IsReady r.entries r.applied
      → IsReady r'.entries r'.applied
  unfolding batch_insert insert_sorted
  batch_insert-IsReady valid now [] r r' h n a v =
      subst (λ (z : InboxRepo). IsReady z.entries z.applied) (ok-injective h) v
  batch_insert-IsReady valid now (x ∷ es) r r' h n a v =
      let batch : List UserInbox = sort_by (λ (y : UserInbox). y.user_id) (x ∷ es) in
      let users : List ℕ = users_after none batch in
      let (ready, k, q) = >>=-eq-ok (check_entries valid (x ∷ es)) _ h in
      let (c, l, b) =
        >>=-eq-ok (apply_entries now batch (start users (create_streams users r.streams) r)) _ q in
      let alike = All-of_mem IsAlike batch (λ y m.
        All-mem IsAlike (x ∷ es) y a
          (mem-of_sort_by (λ (z : UserInbox). z.user_id) y (x ∷ es) m)) in
      subst (λ (z : InboxRepo). IsReady z.entries z.applied) (ok-injective b)
        (apply_entries-IsReady now batch (start users (create_streams users r.streams) r) l n alike
          v)

  -- What is on record is then in the stream.
  pub IsReady-IsHeld :
      (entries : List UserInbox) (applied : List InboxAppliedChange)
      → IsReady entries applied
      → IsApplied applied e
      → IsHeld e entries
  IsReady-IsHeld entries applied v on = elim v.held [
    | inr s ↦ s
    | inl new ↦ let bad = sym on ∙ new in absurd (both bad)
  ]
    where
      both : true ≡ false → ⊥
      both h = cc

-- The stream has a read position of the conversation, at the entry's or behind it.
abbrev pub IsReadFrom : UserInbox → List UserInbox → Type 0
IsReadFrom e entries =
    (x : UserInbox) × Memᴰ x entries
    × (same_read e x ≡ true)
    × (leb_ℤ e.last_read_seq x.last_read_seq ≡ true)

allocate-IsReadFrom :
    (e : UserInbox) (c : Cursor) {c' : Cursor}
    → allocate e c ≡ ok c'
    → is_read e.kind ≡ true
    → IsReadFrom e c'.entries
allocate-IsReadFrom e c h r =
    let (next, free, q) = allocate-inv e c h in
    rw q (
      record e { position = next.0 },
      Memᴰ-append_right (record e { position = next.0 }) c.entries _ (Memᴰ.head refl),
      ground (arith, r, ==_refl e.user_id, ==_refl e.conv_id),
      ground arith,
    )

place-IsReadFrom :
    (e : UserInbox) (c : Cursor) {c' : Cursor}
    → place e c ≡ ok c'
    → is_read e.kind ≡ true
    → IsReadFrom e c'.entries
unfolding place
place-IsReadFrom e c h r = elim (Option-cases (find (same_read e) c.entries)) [
  | inl f ↦ allocate-IsReadFrom e c (rw (r, f, place) at h) r
  | inr (old, f) ↦ elim (Bool-cases (leb_ℤ e.last_read_seq old.last_read_seq)) [
    | inr l ↦
        allocate-IsReadFrom e
          (record c { entries = delete (λ z. entry_key z old.user_id old.position) c.entries })
          (rw (r, f, l, place) at h) r
    | inl l ↦
        subst (λ (z : Cursor). IsReadFrom e z.entries) (ok-injective (rw (r, f, l, place) at h))
          (old, find-mem (same_read e) c.entries f, find_passes (same_read e) c.entries f, l)
  ]
]

-- A batch of one read position.
pub batch_insert-IsReadFrom :
    (valid : ℕ → Bool) (now : ℕ) (e : UserInbox) (r r' : InboxRepo)
    → batch_insert valid now (e ∷ []) r ≡ ok r'
    → is_read e.kind ≡ true
    → IsApplied r.applied e ⊎ IsReadFrom e r'.entries
unfolding batch_insert insert_sorted apply_entries
batch_insert-IsReadFrom valid now e r r' h read =
    let users : List ℕ = users_after none (e ∷ []) in
    let (ready, k, q) = >>=-eq-ok (check_entries valid (e ∷ [])) _ h in
    let (c, l, b) =
      >>=-eq-ok (apply_entries now (e ∷ []) (start users (create_streams users r.streams) r)) _ q in
    let (d, h1, h2) =
      >>=-eq-ok (apply_entry now e (start users (create_streams users r.streams) r)) _ l in
    let rows : d.entries ≡ r'.entries =
      ap (λ (z : Cursor). z.entries) (ok-injective h2)
      ∙ ap (λ (z : InboxRepo). z.entries) (ok-injective b) in
    elim (apply_entry-inv now e (start users (create_streams users r.streams) r) h1) [
      | inl (t, g) ↦ inl t
      | inr (off, (p, s, g)) ↦ inr (
          subst (IsReadFrom e) rows (
            place-IsReadFrom e (sought now e (start users (create_streams users r.streams) r) p) g
              read))
    ]
