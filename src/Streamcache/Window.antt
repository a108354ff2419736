-- ===== src/Streamcache/Window.antt =====
-- What a replay shows of the messages that were stored before, within one time to live.
use maim.Common.{
  ℕ, zero, suc, ◌+◌, ◌≤◌, ◌<◌, ◌≡◌, refl, sym, ap, ◌∙◌, subst, Bool, true, false, ◌&&◌, Option,
  List, [], ◌∷◌, ◌++◌, Result, ok, err, if◌then◌else◌, ◌==◌, ltb, delete, select, length, take, All,
  ℤ, Bool-cases, Result-cases, inl, inr, arith, ==_refl,
}
use mathlib.Core.List.{append-nil, append_assoc}
use maim.Streamcache.{
  Raw, Payload, ChunkMsg, Config, StreamRow, CacheError, of_stream, chunks_at, push, set_stream,
  store_script, is_omitted, in_range, unmarshal, is_after, store, replay,
}

-- A message for a recipient, and the time at which it is stored.
pub record Call : Type 0 where
  pub now : ℕ
  pub user : ℕ
  pub stream : ℕ
  pub raw : Raw
  pub done : Bool

abbrev pub keep : List StreamRow → Result CacheError (List StreamRow) → List StreamRow
keep rows (ok after) = after
keep rows (err e) = rows

abbrev pub accepts : Result CacheError ChunkMsg → Bool
accepts (ok m) = in_range m.seq
accepts (err e) = false

and_false : (b : Bool) → (b && false) ≡ false
and_false b = ground arith

none_shown : (n : ℕ) → take {A = Raw} n [] ≡ []
none_shown zero = refl
none_shown (suc n) = refl

push-take : (n : ℕ) (xs : List Raw) (raw : Raw) → push n raw (take n xs) ≡ take n (xs ++ raw ∷ [])
push-take zero xs raw = ground arith
push-take (suc zero) [] raw = refl
push-take (suc (suc n)) [] raw = ground arith
push-take (suc n) (x ∷ xs) raw = elim (Bool-cases (ltb (length (take n xs)) n)) [
  | inl e ↦ let rest = push-take n xs raw in ground (arith, rest)
  | inr e ↦ let rest = push-take n xs raw in ground (arith, rest)
]

-- The keys of the other streams stay.
find-delete_other :
    (now u s u' s' : ℕ) (rows : List StreamRow)
    → (u' == u && s' == s) ≡ false
    → chunks_at now u s (delete (of_stream u' s') rows) ≡ chunks_at now u s rows
unfolding chunks_at
find-delete_other now u s u' s' [] h = refl
find-delete_other now u s u' s' (row ∷ rows) h =
    let rest = find-delete_other now u s u' s' rows h in ground (arith, rest)

chunks_at-delete :
    (now u s : ℕ) (rows : List StreamRow) → chunks_at now u s (delete (of_stream u s) rows) ≡ []
unfolding chunks_at
chunks_at-delete now u s [] = refl
chunks_at-delete now u s (row ∷ rows) = ground (arith, chunks_at-delete now u s rows)

pub chunks_at-set_other :
    (now at u s u' s' : ℕ) (cs : List Raw) (rows : List StreamRow)
    → (u' == u && s' == s) ≡ false
    → chunks_at now u s (set_stream u' s' at cs rows) ≡ chunks_at now u s rows
unfolding chunks_at set_stream
chunks_at-set_other now at u s u' s' [] rows h = find-delete_other now u s u' s' rows h
chunks_at-set_other now at u s u' s' (c ∷ cs) rows h = rw h (find-delete_other now u s u' s' rows h)

chunks_at-set :
    (now at u s : ℕ) (cs : List Raw) (rows : List StreamRow)
    → now < at
    → chunks_at now u s (set_stream u s at cs rows) ≡ cs
unfolding chunks_at set_stream
chunks_at-set now at u s [] rows h = chunks_at-delete now u s rows
chunks_at-set now at u s (c ∷ cs) rows h = ground (arith, h, ==_refl u, ==_refl s)

-- The accepted messages for one recipient and stream, in the order in which they are stored.
abbrev pub chunks_of : (Raw → Bool) → ℕ → ℕ → List Call → List Raw
chunks_of accepted user stream [] = []
chunks_of accepted user stream (c ∷ cs) =
    if accepted c.raw && (c.user == user && c.stream == stream)
    then c.raw ∷ chunks_of accepted user stream cs
    else chunks_of accepted user stream cs

module _ (decode : Raw → Option Payload) (valid : ℕ → Bool) (cfg : Config) where
  unfoldable pub serve : Call → List StreamRow → List StreamRow
  unfolding store
  serve c rows = keep rows (store decode valid cfg c.now c.user c.stream c.raw c.done rows)

  -- From the oldest message on.
  unfoldable pub serves : List Call → List StreamRow → List StreamRow
  unfolding serve
  serves [] rows = rows
  serves (c ∷ cs) rows = serves cs (serve c rows)

  abbrev pub accepted : Raw → Bool
  accepted raw = accepts (unmarshal decode raw)

  serve-eq :
      (c : Call) (rows : List StreamRow)
      → cfg.enabled ≡ true
      → serve c rows ≡ (
          if valid c.user && accepted c.raw
          then store_script c.now cfg.ttl cfg.max_chunks_per_stream c.user c.stream c.raw rows
          else rows)
  unfolding serve store
  serve-eq c rows h = elim (Bool-cases (valid c.user)) [
    | inr e ↦ ground (arith, e)
    | inl e ↦ elim (Result-cases (unmarshal decode c.raw)) [
      | inl f ↦ ground (arith, e, f, h)
      | inr f ↦ ground (arith, e, f, h)
    ]
  ]

  module _ (start user stream : ℕ) where
    -- At every time of the window, the list of the stream is the first of these messages.
    abbrev Shows : List StreamRow → List Raw → Type 0
    Shows rows xs =
        (t : ℕ)
        → t < start + cfg.ttl
        → chunks_at t user stream rows ≡ take cfg.max_chunks_per_stream xs

    abbrev pub InWindow : Call → Type 0
    InWindow c = (start ≤ c.now) × (c.now < start + cfg.ttl)

    store_script-Shows :
        (now : ℕ) (raw : Raw) (rows : List StreamRow) (xs : List Raw)
        → start ≤ now
        → now < start + cfg.ttl
        → Shows rows xs
        → Shows
            (store_script now cfg.ttl cfg.max_chunks_per_stream user stream raw rows)
            (xs ++ raw ∷ [])
    unfolding store_script
    store_script-Shows now raw rows xs h k shows t l = rw (shows now k) (
        chunks_at-set t (now + cfg.ttl) user stream _ rows (omega (arith, h, l))
        ∙ push-take cfg.max_chunks_per_stream xs raw)

    store_script-spares :
        (now u s : ℕ) (raw : Raw) (rows : List StreamRow) (xs : List Raw)
        → (u == user && s == stream) ≡ false
        → Shows rows xs
        → Shows (store_script now cfg.ttl cfg.max_chunks_per_stream u s raw rows) xs
    unfolding store_script
    store_script-spares now u s raw rows xs e shows t l =
        chunks_at-set_other t _ user stream u s _ rows e ∙ shows t l

    serve-Shows :
        (c : Call) (rows : List StreamRow) (xs : List Raw)
        → cfg.enabled ≡ true
        → valid user ≡ true
        → InWindow c
        → Shows rows xs
        → Shows (serve c rows) (
            if accepted c.raw && (c.user == user && c.stream == stream)
            then xs ++ c.raw ∷ []
            else xs)
    serve-Shows c rows xs on v w shows = elim (Bool-cases (c.user == user && c.stream == stream)) [
      | inl e ↦
          let user_same : c.user ≡ user = ground arith in
          let stream_same : c.stream ≡ stream = ground arith in
          elim (Bool-cases (accepted c.raw)) [
            | inl a ↦
                rw (serve-eq c rows on, e, a, user_same, stream_same, v)
                  (store_script-Shows c.now c.raw rows xs w.0 w.1 shows)
            | inr a ↦ rw (serve-eq c rows on, e, a, user_same, v) shows
          ]
      | inr e ↦ elim (Bool-cases (valid c.user && accepted c.raw)) [
        | inl a ↦
            rw (serve-eq c rows on, e, a, and_false (accepted c.raw))
              (store_script-spares c.now c.user c.stream c.raw rows xs e shows)
        | inr a ↦ rw (serve-eq c rows on, e, a, and_false (accepted c.raw)) shows
      ]
    ]

    serves-Shows :
        (cs : List Call) (rows : List StreamRow) (xs : List Raw)
        → cfg.enabled ≡ true
        → valid user ≡ true
        → All InWindow cs
        → Shows rows xs
        → Shows (serves cs rows) (xs ++ chunks_of accepted user stream cs)
    unfolding serves
    serves-Shows [] rows xs on v w shows = rw (append-nil xs) shows
    serves-Shows (c ∷ cs) rows xs on v w shows =
        let first = serve-Shows c rows xs on v w.0 shows in
        elim (Bool-cases (accepted c.raw && (c.user == user && c.stream == stream))) [
          | inl e ↦
              rw (e, sym (append_assoc xs (c.raw ∷ []) (chunks_of accepted user stream cs)))
                (serves-Shows cs (serve c rows) (xs ++ c.raw ∷ []) on v w.1
                  (subst (λ b. Shows (serve c rows) (if b then xs ++ c.raw ∷ [] else xs)) e first))
          | inr e ↦ rw e (
              serves-Shows cs (serve c rows) xs on v w.1
                (subst (λ b. Shows (serve c rows) (if b then xs ++ c.raw ∷ [] else xs)) e first))
        ]

    empty_Shows : Shows [] []
    unfolding chunks_at
    empty_Shows t k = sym (none_shown cfg.max_chunks_per_stream)

    -- Within one time to live, a replay shows, of the messages that were accepted for its recipient
    -- and stream, the first up to the bound, and of these the ones behind its position, in the order in
    -- which they were stored; no message for another recipient or stream makes a difference. The cache
    -- is enabled and empty before, the recipient's identity is valid, and the position is, or is
    -- omitted.
    pub replay-serves :
        (cs : List Call) (now : ℕ) (from : ℤ)
        → cfg.enabled ≡ true
        → valid user ≡ true
        → All InWindow cs
        → now < start + cfg.ttl
        → (if is_omitted from then true else in_range from) ≡ true
        → replay decode valid cfg now user stream from (serves cs [])
          ≡ ok (
              select
                (is_after decode from)
                (take cfg.max_chunks_per_stream (chunks_of accepted user stream cs)))
    unfolding replay
    replay-serves cs now from on v w l p =
        rw (v, p)
          (ap (λ b. if b then ok (select (is_after decode from) shown) else ok []) on
            ∙ ap (λ chunks. ok (select (is_after decode from) chunks))
                (serves-Shows cs [] [] on v w empty_Shows now l))
      where
        shown : List Raw
        shown = chunks_at now user stream (serves cs [])
