-- ===== src/Inbox/Page/Complete.antt =====
-- A page that ReadPage returns holds exactly the changes up to its next position.
use maim.Common.{
  true, ◌⊎◌, Bool-cases, ℕ, suc, ◌≤◌, ◌<◌, ◌≡◌, ◌↔◌, sym, ap, ◌∙◌, inl, inr, false, none, some,
  Memᴰ, arith, ok, or_fail, >>=-eq-ok, ok-injective, err≢ok, or_fail-eq-ok, Option-cases,
  Result-cases, All, All-mem, find, take, length, length-take, take-mem, take_cover, All-of_mem,
  IsSorted, max, pos,
}
use maim.Sequence
use mathlib.Core.Option
use maim.Inbox.Model.{
  UserInbox, InboxStream, InboxRepo, record_not_found, UniqueEntries, unique_entry, stream_key,
}
use maim.Inbox.Page.{
  InboxPage, allocated_before, is_allocated, rebuild_reason, pending, cut_page, page_from,
  read_page,
}
use maim.Inbox.Page.Cut.{
  IsCut, whole, partial, pending-mem, mem-pending, pending-IsSorted, cut_page-IsCut,
}
use maim.Inbox.Page.Sorted.{position_of, last?-mem, last?-upper, take-IsSorted}

-- What a page without a rebuild comes from.
pub record IsPageOf (user p limit cutoff : ℕ) (r : InboxRepo) (page : InboxPage) : Type 0 where
  pub stream : InboxStream
  pub found : find (stream_key user) r.streams ≡ some stream
  pub no_reason :
      rebuild_reason p stream.position
        (max stream.retained_position (allocated_before user cutoff r))
        (is_allocated user p r)
      ≡ none
  pub cut :
      cut_page limit stream.position (take (suc limit) (pending user p stream.position r)) ≡ ok page

pub read_page-stream :
    (user p limit cutoff : ℕ) (r : InboxRepo) (page : InboxPage)
    → read_page user (pos p) limit cutoff r ≡ ok page
    → (s : InboxStream) × (find (stream_key user) r.streams ≡ some s)
      × (page_from user p limit cutoff r s ≡ ok page)
unfolding read_page
read_page-stream user p limit cutoff r page h = elim (Result-cases (Sequence.validate (pos p))) [
  | inl (u, v) ↦
      let (s, f, q) =
        >>=-eq-ok (or_fail (find (stream_key user) r.streams) record_not_found)
          (page_from user p limit cutoff r) (rw (read_page, v) at h) in
      (s, or_fail-eq-ok _ _ f, q)
  | inr (x, v) ↦ absurd (err≢ok (rw (read_page, v) at h))
]

pub page_from-inv :
    (user p limit cutoff : ℕ) (r : InboxRepo) (s : InboxStream) (page : InboxPage)
    → page_from user p limit cutoff r s ≡ ok page
    → page.rebuild_reason ≡ none
    → (rebuild_reason p s.position
          (max s.retained_position (allocated_before user cutoff r))
          (is_allocated user p r)
        ≡ none)
      × (cut_page limit s.position (take (suc limit) (pending user p s.position r)) ≡ ok page)
unfolding page_from
page_from-inv user p limit cutoff r s page h n =
    elim (Option-cases (
      rebuild_reason p s.position (max s.retained_position (allocated_before user cutoff r))
        (is_allocated user p r))) [
          | inl e ↦ (e, rw (e, page_from) at h)
          | inr (reason, e) ↦
              let q = ok-injective (rw (e, page_from) at h) in
              cc (ap (λ (z : InboxPage). z.rebuild_reason) q)
        ]

pub read_page-inv :
    (user p limit cutoff : ℕ) (r : InboxRepo) (page : InboxPage)
    → read_page user (pos p) limit cutoff r ≡ ok page
    → page.rebuild_reason ≡ none
    → IsPageOf user p limit cutoff r page
read_page-inv user p limit cutoff r page h n =
    let (s, f, q) = read_page-stream user p limit cutoff r page h in
    let (e, c) = page_from-inv user p limit cutoff r s page q n in
    record { stream = s; found = f; no_reason = e; cut = c }

-- With the rows sorted, a page of either kind holds exactly the rows up to its next position.
cut_complete :
    (limit end user p : ℕ) (r : InboxRepo) (page : InboxPage) (e : UserInbox)
    → UniqueEntries r.entries
    → IsCut limit end (pending user p end r) page
    → Memᴰ e r.entries
    → e.user_id ≡ user
    → Memᴰ e page.entries ↔ ((p < e.position) × (e.position ≤ page.next_position))
cut_complete limit end user p r page e u (whole few rows next more) m own = (
  λ k. let (x, y, lo, hi) = pending-mem user p end r e (rw rows at k) in (lo, omega (arith, next)),
  λ b. rw rows (mem-pending user p end r e m own b.0 (omega (arith, next, b.1))),
)
cut_complete limit end user p r page e u (partial last rows at_end next more) m own = (
  λ k.
      let (x, y, lo, hi) = pending-mem user p end r e (take-mem limit _ e (rw rows at k)) in
      (lo, omega (arith, next, All-mem (λ z. z.position ≤ last.position) page.entries e bound k)),
  λ b. rw rows (inside b.0 (omega (arith, next, b.1))),
)
  where
    sorted : IsSorted position_of page.entries
    sorted = rw rows (take-IsSorted limit _ (pending-IsSorted user p end r))

    bound : All (λ z. z.position ≤ last.position) page.entries
    bound = last?-upper page.entries last sorted at_end

    last_in : Memᴰ last (take limit (pending user p end r))
    last_in = rw (← rows) (last?-mem page.entries at_end)

    inside :
        p < e.position → e.position ≤ last.position → Memᴰ e (take limit (pending user p end r))
    inside lo hi =
        let (x, y, z, w) = pending-mem user p end r last (take-mem limit _ last last_in) in
        let k = mem-pending user p end r e m own lo (omega arith) in
        elim (take_cover position_of limit (pending user p end r) e (pending-IsSorted user p end r)
          k) [
            | inl yes_in ↦ yes_in
            | inr below ↦
                let h : last.position ≤ e.position =
                  All-mem (λ z. position_of z ≤ position_of e) _ last below last_in in
                let eq : e ≡ last =
                  unique_entry r.entries e last u m x (own ∙ sym y) (omega arith) in
                rw eq last_in
          ]

-- For a page that asks for no rebuild: an entry of the user is on the page exactly when its
-- position is past the one that was read from and at most the page's next position. So a device
-- that goes on from there misses nothing and sees nothing twice. The entries have their primary key.
pub read_page_complete :
    (user p limit cutoff : ℕ) (r : InboxRepo) (page : InboxPage) (e : UserInbox)
    → UniqueEntries r.entries
    → read_page user (pos p) limit cutoff r ≡ ok page
    → page.rebuild_reason ≡ none
    → Memᴰ e r.entries
    → e.user_id ≡ user
    → Memᴰ e page.entries ↔ ((p < e.position) × (e.position ≤ page.next_position))
read_page_complete user p limit cutoff r page e u h n m own =
    let src = read_page-inv user p limit cutoff r page h n in
    cut_complete limit src.stream.position user p r page e u
      (cut_page-IsCut limit src.stream.position (pending user p src.stream.position r) page src.cut)
      m own

cut_sound :
    (limit end user p : ℕ) (r : InboxRepo) (page : InboxPage)
    → IsCut limit end (pending user p end r) page
    → All (λ e. Memᴰ e r.entries × (e.user_id ≡ user)) page.entries
      × IsSorted position_of page.entries
      × (length page.entries ≤ limit)
      × ((page.has_more ≡ false) → page.next_position ≡ end)
cut_sound limit end user p r page (whole few rows next more) = (
  rw rows (All-of_mem _ _ (λ e m. let (x, y, z, w) = pending-mem user p end r e m in (x, y))),
  rw rows (pending-IsSorted user p end r),
  rw rows few,
  λ q. next,
)
cut_sound limit end user p r page (partial last rows at_end next more) = (
  rw rows (
      All-of_mem _ _
        (λ e m. let (x, y, z, w) = pending-mem user p end r e (take-mem limit _ e m) in (x, y))),
  rw rows (take-IsSorted limit _ (pending-IsSorted user p end r)),
  rw rows (omega (arith, length-take limit (pending user p end r))),
  λ q. absurd (cc),
)

-- For a page that asks for no rebuild: every row is one of the user's entries, the rows are in the
-- order of positions and within the limit, and unless more is there the page ends at the end of the
-- user's stream.
pub read_page_sound :
    (user p limit cutoff : ℕ) (r : InboxRepo) (page : InboxPage)
    → read_page user (pos p) limit cutoff r ≡ ok page
    → page.rebuild_reason ≡ none
    → All (λ e. Memᴰ e r.entries × (e.user_id ≡ user)) page.entries
      × IsSorted position_of page.entries
      × (length page.entries ≤ limit)
      × ((page.has_more ≡ true)
          ⊎ (Option.map (λ (s : InboxStream). s.position) (find (stream_key user) r.streams)
              ≡ some page.next_position))
read_page_sound user p limit cutoff r page h n =
    let src = read_page-inv user p limit cutoff r page h n in
    let (rows, sorted, few, end) = cut_sound limit src.stream.position user p r page (
      cut_page-IsCut limit src.stream.position (pending user p src.stream.position r) page
        src.cut) in
    (
      rows,
      sorted,
      few,
      elim (Bool-cases page.has_more) [
        | inl more ↦ inl more
        | inr done ↦ inr (rw (src.found, end done))
      ],
    )
