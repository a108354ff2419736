-- ===== src/Messages/Invariant.antt =====
-- What holds of the messages of a conversation after any calls.
pub mod Tail
pub mod Keys
use maim.Common.{
  ℕ, ◌+◌, ◌≤◌, ◌<◌, ◌≡◌, Bool, true, false, Option, none, some, List, [], ◌∷◌, ◌++◌, Memᴰ, refl,
  sym, ◌∙◌, ap, arith, All, All-append, All-mem, All-map, All-update, All-delete, All-of_mem, inl,
  inr, Bool-cases, Option-cases, some_injective, if◌then◌else◌, ◌==◌, ==_iff, eq_opt, find, update,
  delete, subst, length, length-append, find-mem, UniqueKeys, UniqueKeys-update, UniqueKeys-delete,
  UniqueKeys-append, unique_row,
}
use maim.Conversations.Publishing.{IsChannel}
use maim.Messages.Model.{Message, Thread, by_id}
use maim.Messages.Permission.{shown, latest_of}
use maim.Messages.Change.{update_content}
use maim.Messages.Steps.{
  Step, stays, sends, rewrites, removes, hides, Rewrite, edits, recalls, seq_of, tail_of, IsFrame,
  SameKeys,
}
use maim.Messages.Calls.{Call, actor_of, serve, serve_kept}
use maim.Messages.Invariant.Tail.{
  Ascends, Ascends-append, Ascends-update, Ascends-delete, last_of, last_of-mem, last_of-none,
  latest_of-last, last_of-append, last_of-update, last_of-delete,
}
use maim.Messages.Invariant.Keys.{
  UniqueSubmissions, UniqueSubmissions-append, UniqueSubmissions-update, UniqueSubmissions-delete,
}

abbrev pub HasHistory : Message → Type 0
HasHistory m = m.edit_count ≡ length m.edit_history

pub record IsThread (cut : ℕ → ℕ) (t : Thread) : Type 0 where
  -- One row for each identity, and for each key of a sender.
  pub unique : UniqueKeys (λ (m : Message). m.id) t.messages
  pub submissions : UniqueSubmissions t.messages
  -- Strictly ascending numbers, up to the conversation's two counters, which agree.
  pub ascends : Ascends t.messages
  pub bounded : All (λ (m : Message). m.seq ≤ t.room.channel.max_seq) t.messages
  pub counters : t.room.channel.max_seq ≡ seq_of t.room.channel.current_seq
  -- The conversation shows the newest message.
  pub tail : tail_of t ≡ shown cut (latest_of t.messages)
  -- Each edit left its old content behind.
  pub history : All HasHistory t.messages
  pub channel : IsChannel t.room.channel

-- The row that a change names is the only one with its identity.
pub the_row :
    (t : Thread) (cut : ℕ → ℕ) (m x : Message)
    → IsThread cut t
    → find (by_id m.id) t.messages ≡ some m
    → Memᴰ x t.messages
    → by_id m.id x ≡ true
    → x ≡ m
the_row t cut m x v found mem e =
    unique_row (λ (y : Message). y.id) t.messages x m v.unique mem
      (find-mem (by_id m.id) t.messages found) ((==_iff x.id m.id).0 e)

rewritten-HasHistory : (m m' : Message) → Rewrite m m' → HasHistory m → HasHistory m'
unfolding update_content
rewritten-HasHistory m m' (edits content) h =
    omega (arith, h, length-append m.edit_history (m.content ∷ []))
rewritten-HasHistory m m' recalls h = h

-- A table in which a row is found has a newest row, which the conversation shows.
tail-cases :
    (cut : ℕ → ℕ) (t : Thread) (m : Message)
    → IsThread cut t
    → find (by_id m.id) t.messages ≡ some m
    → (l : Message) × (last_of t.messages ≡ some l) × (t.last_message_id ≡ some l.id)
unfolding shown
tail-cases cut t m v found = elim (Option-cases (last_of t.messages)) [
  | inl e ↦ let bad = rw (last_of-none t.messages e) at found in cc
  | inr (l, e) ↦
      (l, e, ap (λ p. p.0) (v.tail ∙ ap (shown cut) (latest_of-last t.messages v.ascends ∙ e)))
]

-- The tail behind a change of the row `m`, and behind its deletion.
tail-rewritten :
    (cut : ℕ → ℕ) (t : Thread) (m : Message) (f : Message → Message)
    → IsThread cut t
    → find (by_id m.id) t.messages ≡ some m
    → ((x : Message) → SameKeys (f x) x)
    → (if eq_opt t.last_message_id m.id then shown cut (some (f m)) else tail_of t)
      ≡ shown cut (latest_of (update (by_id m.id) f t.messages))
tail-rewritten cut t m f v found keep =
    let (l, e, id) = tail-cases cut t m v found in
    let now =
      latest_of-last (update (by_id m.id) f t.messages)
        (Ascends-update (by_id m.id) f t.messages keep v.ascends)
      ∙ last_of-update (by_id m.id) f t.messages e in
    elim (Bool-cases (l.id == m.id)) [
      | inl b ↦
          let same = the_row t cut m l v found (last_of-mem t.messages e) b in
          rw (id, now, b, same) refl
      | inr b ↦
          let before = v.tail ∙ ap (shown cut) (latest_of-last t.messages v.ascends ∙ e) in
          rw (id, now, b) (rw id at before)
    ]

tail-removed :
    (cut : ℕ → ℕ) (t : Thread) (m : Message)
    → IsThread cut t
    → find (by_id m.id) t.messages ≡ some m
    → (if eq_opt t.last_message_id m.id
        then shown cut (latest_of (delete (by_id m.id) t.messages))
        else tail_of t)
      ≡ shown cut (latest_of (delete (by_id m.id) t.messages))
tail-removed cut t m v found =
    let (l, e, id) = tail-cases cut t m v found in
    elim (Bool-cases (l.id == m.id)) [
      | inl b ↦ rw (id, b) refl
      | inr b ↦
          let now =
            latest_of-last (delete (by_id m.id) t.messages)
              (Ascends-delete (by_id m.id) t.messages v.ascends)
            ∙ last_of-delete (by_id m.id) t.messages e b in
          let before = v.tail ∙ ap (shown cut) (latest_of-last t.messages v.ascends ∙ e) in
          rw (id, b, now) (rw id at before)
    ]

pub Step-IsThread :
    (cut : ℕ → ℕ) (actor : ℕ) (t t' : Thread)
    → Step cut actor t t'
    → IsThread cut t
    → IsThread cut t'
Step-IsThread cut actor t t' (stays e) v = subst (IsThread cut) (sym e) v
Step-IsThread cut actor t t'
      (sends m key frame sender client free fresh new past count seq now ms ds tail) v =
    let up = below t.messages v.bounded in
    let ascends = Ascends-append t.messages m v.ascends up in
    record {
      unique = rw ms (UniqueKeys-append (λ (x : Message). x.id) t.messages m fresh v.unique);
      submissions =
          rw ms (UniqueSubmissions-append t.messages m actor key sender client free v.submissions);
      ascends = rw ms ascends;
      bounded =
          rw (ms, now.1)
            (All-append _ t.messages (m ∷ []) (All-map _ _ t.messages (λ x h. omega (arith, h)) up)
              (omega arith, tt));
      counters = rw (now.0, now.1) refl;
      tail =
          rw (ms, latest_of-last (t.messages ++ m ∷ []) ascends, last_of-append t.messages m) tail;
      history =
          rw ms (All-append HasHistory t.messages (m ∷ []) v.history (rw (count, past) refl, tt));
      channel = frame.published v.channel;
    }
  where
    below :
        (xs : List Message)
        → All (λ (x : Message). x.seq ≤ t.room.channel.max_seq) xs
        → All (λ (x : Message). x.seq < m.seq) xs
    below xs h = All-map _ _ xs (λ x k. omega (arith, k, v.counters, seq)) h
Step-IsThread cut actor t t' (rewrites m f frame seqs found sender new how keep ms ds tail) v =
    record {
      unique = rw ms (
          UniqueKeys-update (λ (x : Message). x.id) (by_id m.id) f t.messages (λ x. (keep x).0)
            v.unique);
      submissions = rw ms (UniqueSubmissions-update (by_id m.id) f t.messages keep v.submissions);
      ascends = rw ms (Ascends-update (by_id m.id) f t.messages keep v.ascends);
      bounded =
          rw (ms, seqs.1)
            (All-update _ (by_id m.id) f t.messages
              (λ x k e. omega (arith, (keep x).1, All-mem _ t.messages x v.bounded k))
              (λ x k e. All-mem _ t.messages x v.bounded k));
      counters = rw (seqs.0, seqs.1) v.counters;
      tail = rw ms (tail ∙ tail-rewritten cut t m f v found keep);
      history = rw ms (
          All-update HasHistory (by_id m.id) f t.messages
            (λ x k e.
              let same = the_row t cut m x v found k e in
              rw same (
                rewritten-HasHistory m (f m) how (
                  All-mem HasHistory t.messages m v.history
                    (find-mem (by_id m.id) t.messages found))))
            (λ x k e. All-mem HasHistory t.messages x v.history k));
      channel = frame.published v.channel;
    }
Step-IsThread cut actor t t' (removes m frame seqs found sender ms ds tail) v = record {
  unique = rw ms (UniqueKeys-delete (λ (x : Message). x.id) (by_id m.id) t.messages v.unique);
  submissions = rw ms (UniqueSubmissions-delete (by_id m.id) t.messages v.submissions);
  ascends = rw ms (Ascends-delete (by_id m.id) t.messages v.ascends);
  bounded =
      rw (ms, seqs.1)
        (All-delete _ (by_id m.id) t.messages (λ x k e. All-mem _ t.messages x v.bounded k));
  counters = rw (seqs.0, seqs.1) v.counters;
  tail = rw ms (tail ∙ tail-removed cut t m v found);
  history = rw ms (
      All-delete HasHistory (by_id m.id) t.messages
        (λ x k e. All-mem HasHistory t.messages x v.history k));
  channel = frame.published v.channel;
}
Step-IsThread cut actor t t' (hides message_id frame seqs ms ds tail) v = record {
  unique = rw ms (v.unique);
  submissions = rw ms (v.submissions);
  ascends = rw ms (v.ascends);
  bounded = rw (ms, seqs.1) (v.bounded);
  counters = rw (seqs.0, seqs.1) (v.counters);
  tail = rw ms (tail ∙ v.tail);
  history = rw ms (v.history);
  channel = frame.published v.channel;
}

-- Whatever is sent, edited, recalled and deleted, by whomever and in whatever order: the messages have
-- distinct identities, and distinct keys for one sender; their numbers ascend strictly and do not pass
-- the conversation's two counters, which agree; the conversation's row names and previews the newest
-- message, or none if there is none; the number of edits of a message is the number of the contents
-- that it keeps; and the publications stay in their order.
pub serve-IsThread :
    (cut : ℕ → ℕ) (cs : List Call) (t : Thread) → IsThread cut t → IsThread cut (serve cut cs t)
serve-IsThread cut cs t v =
    serve_kept cut (λ c. Unit {0}) (IsThread cut)
      (λ c a b u who step k. Step-IsThread cut (actor_of c) a b step k) cs t
      (All-of_mem (λ c. Unit {0}) cs (λ c m. tt)) v
