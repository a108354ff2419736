-- ===== src/Messages/Final.antt =====
-- What no call changes: the messages of others, and a message that is recalled.
use maim.Common.{
  ℕ, ◌≤◌, ◌<◌, ◌≡◌, ◌≢◌, ◌⊎◌, true, false, some, List, [], ◌∷◌, Memᴰ, sym, ◌∙◌, ap, arith, All,
  All-append, All-mem, All-map, All-update, All-delete, All-of_mem, inl, inr, Bool-cases, find,
  mem-update_miss, mem-delete_miss, Memᴰ-append_left,
}
use maim.Messages.Model.{Message, Thread, is_recalled, by_id}
use maim.Messages.Steps.{Step, stays, sends, rewrites, removes, hides}
use maim.Messages.Calls.{Call, actor_of, caller_of, serve, serve_kept}
use maim.Messages.Invariant.{IsThread, Step-IsThread, the_row}
use maim.Messages.Invariant.Tail.{Ascends}

-- The row `m` is not the one that the actor changes.
other_row :
    (cut : ℕ → ℕ) (t : Thread) (m r : Message) (actor : ℕ)
    → IsThread cut t
    → Memᴰ m t.messages
    → m.sender_id ≢ some actor
    → find (by_id r.id) t.messages ≡ some r
    → r.sender_id ≡ some actor
    → by_id r.id m ≡ false
other_row cut t m r actor v mem other found sender = elim (Bool-cases (by_id r.id m)) [
  | inl e ↦
      let same = the_row t cut r m v found mem e in
      absurd (other (ap (λ (x : Message). x.sender_id) same ∙ sender))
  | inr e ↦ e
]

Step-others :
    (cut : ℕ → ℕ) (actor : ℕ) (m : Message) (t t' : Thread)
    → m.sender_id ≢ some actor
    → Step cut actor t t'
    → IsThread cut t
    → Memᴰ m t.messages
    → Memᴰ m t'.messages
Step-others cut actor m t t' other (stays e) v mem = rw e mem
Step-others cut actor m t t' other
      (sends s key frame sender client free fresh new past count seq now ms ds tail) v mem =
    rw ms (Memᴰ-append_left m t.messages (s ∷ []) mem)
Step-others cut actor m t t' other (rewrites r f frame seqs found sender new how keep ms ds tail) v
      mem =
    rw ms (
      mem-update_miss (by_id r.id) f t.messages m
        (other_row cut t m r actor v mem other found sender) mem)
Step-others cut actor m t t' other (removes r frame seqs found sender ms ds tail) v mem = rw ms (
    mem-delete_miss (by_id r.id) t.messages m (other_row cut t m r actor v mem other found sender)
      mem)
Step-others cut actor m t t' other (hides id frame seqs ms ds tail) v mem = rw ms mem

-- The authenticated user is not the message's sender.
abbrev pub IsByOther : Message → Call → Type 0
IsByOther m c = (u : ℕ) → caller_of c ≡ some u → m.sender_id ≢ some u

-- As long as no call is authenticated as the message's sender, whomever the requests name, a stored
-- message stays as it is, in every column: nobody edits, recalls or deletes the message of another for
-- all.
pub serve_spares_others :
    (cut : ℕ → ℕ) (m : Message) (cs : List Call) (t : Thread)
    → All (IsByOther m) cs
    → IsThread cut t
    → Memᴰ m t.messages
    → Memᴰ m (serve cut cs t).messages
serve_spares_others cut m cs t a v mem =
    (serve_kept cut (IsByOther m) (λ z. IsThread cut z × Memᴰ m z.messages)
      (λ c x y other who step k. (
        Step-IsThread cut (actor_of c) x y step k.0,
        Step-others cut (actor_of c) m x y (other (actor_of c) who) step k.0 k.1,
      ))
      cs t a (v, mem)).1

-- Every row with the number of `m` is `m`.
abbrev pub OnlyAs : Message → Thread → Type 0
OnlyAs m t = All (λ (x : Message). (x ≡ m) ⊎ (x.seq ≢ m.seq)) t.messages

module _ (cut : ℕ → ℕ) (actor : ℕ) (m : Message) (t t' : Thread) where
  Step-OnlyAs :
      is_recalled m.status ≡ true
      → Step cut actor t t'
      → IsThread cut t
      → (m.seq ≤ t.room.channel.max_seq) × OnlyAs m t
      → (m.seq ≤ t'.room.channel.max_seq) × OnlyAs m t'
  Step-OnlyAs past (stays e) v k = rw e k
  Step-OnlyAs past (sends s key frame sender client free fresh new empty count seq now ms ds tail) v
        k =
      (
        omega (arith, k.0, seq, now.1, v.counters),
        rw ms (
            All-append _ t.messages (s ∷ []) k.1
              (inr (λ e. omega (arith, k.0, seq, e, v.counters)), tt)),
      )
  Step-OnlyAs past (rewrites r f frame seqs found sender new how keep ms ds tail) v k = (
    rw (seqs.1) (k.0),
    rw ms (
        All-update _ (by_id r.id) f t.messages
          (λ x mem e. elim (All-mem _ t.messages x k.1 mem) [
            | inl same ↦
                let row = the_row t cut r x v found mem e in
                let off = ap (λ (z : Message). is_recalled z.status) (sym same ∙ row) ∙ new in
                absurd (contradict (sym past ∙ off))
            | inr away ↦ inr (λ e'. away (sym (keep x).1 ∙ e'))
          ])
          (λ x mem e. All-mem _ t.messages x k.1 mem)),
  )
    where
      contradict : true ≡ false → ⊥
      contradict e = cc
  Step-OnlyAs past (removes r frame seqs found sender ms ds tail) v k = (
    rw (seqs.1) (k.0),
    rw ms (All-delete _ (by_id r.id) t.messages (λ x mem e. All-mem _ t.messages x k.1 mem)),
  )
  Step-OnlyAs past (hides id frame seqs ms ds tail) v k = (rw (seqs.1) (k.0), rw ms (k.1))

-- A recalled message stays recalled: whatever is called, by its sender too, the row with its number is
-- the recalled one with its content and its history unchanged, as long as there is one.
pub recall-IsFinal :
    (cut : ℕ → ℕ) (m : Message) (cs : List Call) (t : Thread)
    → is_recalled m.status ≡ true
    → IsThread cut t
    → Memᴰ m t.messages
    → OnlyAs m (serve cut cs t)
recall-IsFinal cut m cs t past v mem =
    (serve_kept cut (λ c. Unit {0})
      (λ z. IsThread cut z × (m.seq ≤ z.room.channel.max_seq) × OnlyAs m z)
      (λ c x y u who step k.
        let (w, le, only) = k in
        let (le', only') = Step-OnlyAs cut (actor_of c) m x y past step w (le, only) in
        (Step-IsThread cut (actor_of c) x y step w, le', only'))
      cs t (All-of_mem (λ c. Unit {0}) cs (λ c m. tt))
      (v, All-mem _ t.messages m v.bounded mem, at_start t.messages v.ascends mem)).2
  where
    -- Numbers ascend strictly, so no other row has the number.
    at_start :
        (ms : List Message)
        → Ascends ms
        → Memᴰ m ms
        → All (λ (x : Message). (x ≡ m) ⊎ (x.seq ≢ m.seq)) ms
    at_start [] a k = tt
    at_start (x ∷ xs) a (Memᴰ.head e) = (
      inl (sym e),
      All-map _ _ xs (λ y lt. inr (λ same. omega (arith, lt, same, ap (λ (z : Message). z.seq) e)))
          a.0,
    )
    at_start (x ∷ xs) a (Memᴰ.tail k) =
        let lt = All-mem (λ (y : Message). x.seq < y.seq) xs m a.0 k in
        (inr (λ same. omega (arith, lt, same)), at_start xs a.1 k)
