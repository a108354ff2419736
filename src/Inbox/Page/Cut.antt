-- ===== src/Inbox/Page/Cut.antt =====
-- The rows of a page: what ReadPage selects, and how it cuts the page off.
use maim.Common.{
  ℕ, suc, ◌≤◌, ◌<◌, ◌≡◌, sym, ap, ◌∙◌, inl, inr, true, false, ◌&&◌, some, List, Memᴰ, arith, ok,
  or_fail, >>=-eq-ok, ok-injective, or_fail-eq-ok, Bool-cases, select, take, length, length-take,
  take_all, take-take, mem-sort_by, mem-of_sort_by, select-mem, mem-of_select, select-test_mem,
  sort_by-IsSorted, IsSorted, ltb, leb, ◌==◌,
}
use maim.Inbox.Model.{UserInbox, InboxRepo, index_out_of_range}
use maim.Inbox.Page.{InboxPage, last?, pending, cut_page}
use maim.Inbox.Page.Sorted.{position_of}

-- What was asked for: the changes of the user past `p`, up to the end of the stream.
pub pending-mem :
    (user p end : ℕ) (r : InboxRepo) (e : UserInbox)
    → Memᴰ e (pending user p end r)
    → Memᴰ e r.entries × (e.user_id ≡ user) × (p < e.position) × (e.position ≤ end)
unfolding pending
pending-mem user p end r e m =
    let k = mem-of_sort_by position_of e _ m in
    let t = select-test_mem _ r.entries e k in
    (mem-of_select _ r.entries e k, ground arith, ground arith, ground arith)

pub mem-pending :
    (user p end : ℕ) (r : InboxRepo) (e : UserInbox)
    → Memᴰ e r.entries
    → e.user_id ≡ user
    → p < e.position
    → e.position ≤ end
    → Memᴰ e (pending user p end r)
unfolding pending
mem-pending user p end r e m u lo hi =
    mem-sort_by position_of e _ (select-mem _ r.entries e (ground arith) m)

pub pending-IsSorted :
    (user p end : ℕ) (r : InboxRepo) → IsSorted position_of (pending user p end r)
unfolding pending
pending-IsSorted user p end r =
    sort_by-IsSorted position_of
      (select (λ e. e.user_id == user && (ltb p e.position && leb e.position end)) r.entries)

-- A page is either all the rows, or the first `limit` of more, and then it has a last row.
pub data IsCut (limit end : ℕ) (rows : List UserInbox) (page : InboxPage) : Type 0 where
  whole :
      length rows ≤ limit
      → page.entries ≡ rows
      → page.next_position ≡ end
      → page.has_more ≡ false
      → IsCut limit end rows page
  partial :
      (last : UserInbox)
      → page.entries ≡ take limit rows
      → last? page.entries ≡ some last
      → page.next_position ≡ last.position
      → page.has_more ≡ true
      → IsCut limit end rows page

pub cut_page-IsCut :
    (limit end : ℕ) (rows : List UserInbox) (page : InboxPage)
    → cut_page limit end (take (suc limit) rows) ≡ ok page
    → IsCut limit end rows page
unfolding cut_page
cut_page-IsCut limit end rows page h =
    elim (Bool-cases (ltb limit (length (take (suc limit) rows)))) [
      | inl t ↦
          let (last, f, q) =
            >>=-eq-ok (or_fail (last? (take limit (take (suc limit) rows))) index_out_of_range) _
              (rw (t, cut_page) at h) in
          let e = or_fail-eq-ok _ _ f in
          let g = ok-injective q in
          let rows_eq = ap (λ (z : InboxPage). z.entries) g in
          partial last (sym rows_eq ∙ take-take limit rows) (rw (← rows_eq) e)
            (sym (ap (λ (z : InboxPage). z.next_position) g))
            (sym (ap (λ (z : InboxPage). z.has_more) g))
      | inr t ↦
          let g = ok-injective (rw (t, cut_page) at h) in
          let few : length rows ≤ limit = ground (arith, length-take (suc limit) rows) in
          whole few
            (sym (ap (λ (z : InboxPage). z.entries) g) ∙ take_all (suc limit) rows (omega arith))
            (sym (ap (λ (z : InboxPage). z.next_position) g))
            (sym (ap (λ (z : InboxPage). z.has_more) g))
    ]
