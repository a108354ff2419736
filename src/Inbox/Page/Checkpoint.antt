-- ===== src/Inbox/Page/Checkpoint.antt =====
-- A page's next position is a checkpoint that ReadPage accepts, and reading on from checkpoint to
-- checkpoint ends with all the changes of the user.
use mathlib.Core.Option
use maim.Common.{
  ℕ, zero, suc, ◌-◌, ◌≤◌, ◌<◌, ◌≡◌, ◌↔◌, refl, sym, ap, ◌∙◌, ◌⊎◌, inl, inr, true, false, Option,
  none, some, List, [], ◌∷◌, ◌++◌, Memᴰ, arith, ok, err, Bool-cases, find, take, length,
  length-take, take-mem, max, pos, Memᴰ-append_left, Memᴰ-append_right, ltb,
}
use maim.Sequence.{max_sequence, validate_pos}
use maim.Inbox.Model.{UserInbox, InboxStream, InboxRepo, UniqueEntries, stream_key, exists-entry}
use maim.Inbox.Page.{
  InboxPage, allocated_before, is_allocated, rebuild_reason, pending, cut_page, page_from,
  read_page,
}
use maim.Inbox.Page.Sorted.{last?-mem, last?-some}
use maim.Inbox.Page.Cut.{IsCut, whole, partial, pending-mem, cut_page-IsCut}
use maim.Inbox.Page.Reason.{rebuild_reason-none, none-rebuild_reason}
use maim.Inbox.Page.Complete.{read_page-inv, page_from-inv, read_page_complete}

-- What is known of a page's end: it is at least where the page began and at most the stream's end,
-- and unless it is the stream's end it is an entry's position, past the beginning.
record IsNext (user p end : ℕ) (r : InboxRepo) (page : InboxPage) : Type 0 where
  lower : p ≤ page.next_position
  upper : page.next_position ≤ end
  known : (page.next_position ≡ end) ⊎ (is_allocated user page.next_position r ≡ true)
  progress : page.has_more ≡ true → p < page.next_position
  ended : page.has_more ≡ false → page.next_position ≡ end

IsCut-IsNext :
    (limit end user p : ℕ) (r : InboxRepo) (page : InboxPage)
    → p ≤ end
    → IsCut limit end (pending user p end r) page
    → IsNext user p end r page
unfolding is_allocated
IsCut-IsNext limit end user p r page le (whole few rows next more) = record {
  lower = omega (arith, next);
  upper = omega (arith, next);
  known = inl next;
  progress = λ q. absurd (cc);
  ended = λ q. next;
}
IsCut-IsNext limit end user p r page le (partial last rows at_end next more) =
    let (m, own, lo, hi) =
      pending-mem user p end r last
        (take-mem limit _ last (rw (← rows) (last?-mem page.entries at_end))) in
    record {
      lower = omega (arith, next);
      upper = omega (arith, next);
      known =
          inr
            (ground (arith, exists-entry r.entries last user page.next_position m own (sym next)));
      progress = λ q. omega (arith, next);
      ended = λ q. absurd (cc);
    }

cut_page_total :
    (limit end : ℕ) (rows : List UserInbox)
    → 0 < limit
    → (page : InboxPage) × (cut_page limit end rows ≡ ok page) × (page.rebuild_reason ≡ none)
unfolding cut_page
cut_page_total limit end rows h = elim (Bool-cases (ltb limit (length rows))) [
  | inl t ↦
      let (l, e) = last?-some (take limit rows) (ground (arith, length-take limit rows)) in
      (
        record {
          entries = take limit rows;
          next_position = l.position;
          has_more = true;
          rebuild_reason = none;
        },
        rw (t, e),
        refl,
      )
  | inr t ↦ (
    record { entries = rows; next_position = end; has_more = false; rebuild_reason = none },
    rw t,
    refl,
  )
]

page_from_total :
    (user p limit cutoff : ℕ) (r : InboxRepo) (s : InboxStream)
    → 0 < limit
    → rebuild_reason p s.position
        (max s.retained_position (allocated_before user cutoff r))
        (is_allocated user p r)
      ≡ none
    → (page : InboxPage) × (page_from user p limit cutoff r s ≡ ok page)
      × (page.rebuild_reason ≡ none)
unfolding page_from
page_from_total user p limit cutoff r s h n =
    let (page, e, q) =
      cut_page_total limit s.position (take (suc limit) (pending user p s.position r)) h in
    (page, rw (n, page_from) e, q)

read_page-found :
    (user p limit cutoff : ℕ) (r : InboxRepo) (s : InboxStream)
    → p ≤ max_sequence
    → find (stream_key user) r.streams ≡ some s
    → read_page user (pos p) limit cutoff r ≡ page_from user p limit cutoff r s
unfolding read_page
read_page-found user p limit cutoff r s h f = rw ((validate_pos p).1 h, read_page) (rw f)

-- From a page that asks for no rebuild the device goes on at the next position: there ReadPage
-- answers again, with no rebuild, if the stream's end is in the safe range and the limit is positive.
pub read_page_continues :
    (user p limit cutoff : ℕ) (r : InboxRepo) (page : InboxPage)
    → 0 < limit
    → page.next_position ≤ max_sequence
    → read_page user (pos p) limit cutoff r ≡ ok page
    → page.rebuild_reason ≡ none
    → (page' : InboxPage) × (read_page user (pos page.next_position) limit cutoff r ≡ ok page')
      × (page'.rebuild_reason ≡ none)
read_page_continues user p limit cutoff r page pl safe h n =
    let src = read_page-inv user p limit cutoff r page h n in
    let s : InboxStream = src.stream in
    let (a, b, c) = rebuild_reason-none p s.position _ _ src.no_reason in
    let nx =
      IsCut-IsNext limit s.position user p r page b
        (cut_page-IsCut limit s.position (pending user p s.position r) page src.cut) in
    let (page', e, q) = page_from_total user page.next_position limit cutoff r s pl (
      none-rebuild_reason page.next_position s.position _ _ (omega (arith, nx.lower)) nx.upper
        (omega (arith, nx.lower)) nx.known) in
    (page', read_page-found user page.next_position limit cutoff r s safe src.found ∙ e, q)

-- A device that reads on until no more is announced; `none` when the fuel runs out, or at an error or
-- a rebuild.
pub catch_up : ℕ → ℕ → ℕ → ℕ → ℕ → InboxRepo → Option (List UserInbox)
catch_up zero user p limit cutoff r = none
catch_up (suc fuel) user p limit cutoff r = elim (read_page user (pos p) limit cutoff r) [
  | err e ↦ none
  | ok page ↦ elim page.rebuild_reason [
    | some reason ↦ none
    | none ↦ elim page.has_more [
      | false ↦ some page.entries
      | true ↦
          Option.map (λ rest. page.entries ++ rest)
            (catch_up fuel user page.next_position limit cutoff r)
    ]
  ]
]

-- The changes of the user past `p`, and nothing else, are in `es`.
abbrev pub IsTail : ℕ → ℕ → ℕ → InboxRepo → List UserInbox → Type 0
IsTail user p end r es =
    (e : UserInbox)
    → Memᴰ e r.entries
    → e.user_id ≡ user
    → Memᴰ e es ↔ ((p < e.position) × (e.position ≤ end))

≤-or-lt : (a b : ℕ) → (a ≤ b) ⊎ (b < a)
≤-or-lt a b = omega arith

mem-append_cases :
    (a : UserInbox) (xs ys : List UserInbox) → Memᴰ a (xs ++ ys) → Memᴰ a xs ⊎ Memᴰ a ys
mem-append_cases a [] ys m = inr m
mem-append_cases a (x ∷ xs) ys (Memᴰ.head e) = inl (Memᴰ.head e)
mem-append_cases a (x ∷ xs) ys (Memᴰ.tail m) = elim (mem-append_cases a xs ys m) [
  | inl k ↦ inl (Memᴰ.tail k)
  | inr k ↦ inr k
]

IsTail-append :
    (user p q end : ℕ) (r : InboxRepo) (xs ys : List UserInbox)
    → p ≤ q
    → q ≤ end
    → IsTail user p q r xs
    → IsTail user q end r ys
    → IsTail user p end r (xs ++ ys)
IsTail-append user p q end r xs ys a b f g e m own = (
  λ k. elim (mem-append_cases e xs ys k) [
    | inl l ↦ let (lo, hi) = (f e m own).0 l in (lo, omega arith)
    | inr l ↦ let (lo, hi) = (g e m own).0 l in (omega arith, hi)
  ],
  λ w. elim (≤-or-lt e.position q) [
    | inl le ↦ Memᴰ-append_left e xs ys ((f e m own).1 (w.0, le))
    | inr lt ↦ Memᴰ-append_right e xs ys ((g e m own).1 (lt, w.1))
  ],
)

catch_up_last :
    (fuel user p limit cutoff : ℕ) (r : InboxRepo) (page : InboxPage)
    → read_page user (pos p) limit cutoff r ≡ ok page
    → page.rebuild_reason ≡ none
    → page.has_more ≡ false
    → catch_up (suc fuel) user p limit cutoff r ≡ some page.entries
unfolding catch_up
catch_up_last fuel user p limit cutoff r page h n more = rw (h, catch_up) (rw n (rw more))

catch_up_more :
    (fuel user p limit cutoff : ℕ) (r : InboxRepo) (page : InboxPage) (es : List UserInbox)
    → read_page user (pos p) limit cutoff r ≡ ok page
    → page.rebuild_reason ≡ none
    → page.has_more ≡ true
    → catch_up fuel user page.next_position limit cutoff r ≡ some es
    → catch_up (suc fuel) user p limit cutoff r ≡ some (page.entries ++ es)
unfolding catch_up
catch_up_more fuel user p limit cutoff r page es h n more g =
    rw (h, catch_up) (rw n (rw more (ap (Option.map (λ rest. page.entries ++ rest)) g)))

catch_up-IsTail :
    (fuel user p limit cutoff : ℕ) (r : InboxRepo) (s : InboxStream)
    → UniqueEntries r.entries
    → find (stream_key user) r.streams ≡ some s
    → s.position ≤ max_sequence
    → 0 < limit
    → p ≤ s.position
    → rebuild_reason p s.position
        (max s.retained_position (allocated_before user cutoff r))
        (is_allocated user p r)
      ≡ none
    → s.position - p < fuel
    → (es : List UserInbox) × (catch_up fuel user p limit cutoff r ≡ some es)
      × IsTail user p s.position r es
unfolding catch_up
catch_up-IsTail zero user p limit cutoff r s u f safe pl le n k = absurd (omega arith)
catch_up-IsTail (suc fuel) user p limit cutoff r s u f safe pl le n k =
    let (page, e, q) = page_from_total user p limit cutoff r s pl n in
    let h : read_page user (pos p) limit cutoff r ≡ ok page =
      read_page-found user p limit cutoff r s (omega arith) f ∙ e in
    let full : IsTail user p page.next_position r page.entries =
      λ x m own. read_page_complete user p limit cutoff r page x u h q m own in
    let (a, b, c) = rebuild_reason-none p s.position _ _ n in
    let nx = IsCut-IsNext limit s.position user p r page b (
      cut_page-IsCut limit s.position (pending user p s.position r) page
        (page_from-inv user p limit cutoff r s page e q).1) in
    elim (Bool-cases page.has_more) [
      | inr last ↦ (
        page.entries,
        catch_up_last fuel user p limit cutoff r page h q last,
        rw (nx.ended last) at full,
      )
      | inl more ↦
          let (es, g, tail) =
            catch_up-IsTail fuel user page.next_position limit cutoff r s u f safe pl nx.upper
              (none-rebuild_reason page.next_position s.position _ _ (omega (arith, nx.lower))
                nx.upper (omega (arith, nx.lower)) nx.known)
              (omega (arith, nx.progress more)) in
          (
            page.entries ++ es,
            catch_up_more fuel user p limit cutoff r page es h q more g,
            IsTail-append user p page.next_position s.position r page.entries es nx.lower nx.upper
                full tail,
          )
    ]

-- A device that reads on from a checkpoint that needs no rebuild gets to the end of the stream, in
-- at most as many pages as there are positions left and one, and has then seen exactly the user's
-- changes past the checkpoint. The stream's end is in the safe range, the limit is positive, and the
-- entries have their primary key.
pub catch_up_complete :
    (user p limit cutoff : ℕ) (r : InboxRepo) (s : InboxStream) (page : InboxPage)
    → UniqueEntries r.entries
    → find (stream_key user) r.streams ≡ some s
    → s.position ≤ max_sequence
    → 0 < limit
    → read_page user (pos p) limit cutoff r ≡ ok page
    → page.rebuild_reason ≡ none
    → (es : List UserInbox) × (catch_up (suc (s.position - p)) user p limit cutoff r ≡ some es)
      × IsTail user p s.position r es
catch_up_complete user p limit cutoff r s page u f safe pl h n =
    let src = read_page-inv user p limit cutoff r page h n in
    let same : src.stream ≡ s = cc (src.found, f) in
    let why = rw same at (src.no_reason) in
    let (a, b, c) = rebuild_reason-none p s.position _ _ why in
    catch_up-IsTail (suc (s.position - p)) user p limit cutoff r s u f safe pl b why (omega arith)
