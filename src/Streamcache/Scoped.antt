-- ===== src/Streamcache/Scoped.antt =====
-- The key of a recipient and stream is the boundary of what a replay may show.
use maim.Common.{
  ℕ, ◌+◌, ◌≤◌, ◌≡◌, ◌⊎◌, suc, refl, sym, subst, Bool, true, ◌&&◌, Option, List, [], ◌∷◌, Memᴰ, ok,
  ltb, select, length, All, All-append, All-mem, All-of_mem, All-delete, All-select,
  All-select_test, ℤ, Bool-cases, Result-cases, inl, inr, arith, length-append,
}
use maim.Streamcache.{
  Raw, Payload, Config, StreamRow, of_stream, chunks_at, push, set_stream, store_script, in_range,
  unmarshal, is_after, store, replay,
}
use maim.Streamcache.Window.{Call, serve, serves}

-- The message was stored for this recipient and stream.
abbrev pub IsSentTo : List Call → ℕ → ℕ → Raw → Type 0
IsSentTo sent user stream raw =
    (c : Call) × Memᴰ c sent × (c.user ≡ user) × (c.stream ≡ stream) × (c.raw ≡ raw)

length-select : (test : Raw → Bool) (xs : List Raw) → length (select test xs) ≤ length xs
length-select test [] = omega arith
length-select test (x ∷ xs) = ground (arith, length-select test xs)

module _ (sent : List Call) (bound : ℕ) where
  abbrev IsScopedRow : StreamRow → Type 0
  IsScopedRow row = (length row.chunks ≤ bound) × All (IsSentTo sent row.user row.stream) row.chunks

  chunks_at-IsSentTo :
      (now user stream : ℕ) (rows : List StreamRow)
      → All IsScopedRow rows
      → (length (chunks_at now user stream rows) ≤ bound)
        × All (IsSentTo sent user stream) (chunks_at now user stream rows)
  unfolding chunks_at
  chunks_at-IsSentTo now user stream [] h = (omega arith, tt)
  chunks_at-IsSentTo now user stream (row ∷ rows) h =
      elim (Bool-cases (of_stream user stream row && ltb now row.expires)) [
        | inr e ↦ rw e (chunks_at-IsSentTo now user stream rows h.1)
        | inl e ↦
            let user_same : row.user ≡ user = ground arith in
            let stream_same : row.stream ≡ stream = ground arith in
            rw (e, sym user_same, sym stream_same) h.0
      ]

  push-IsSentTo :
      (user stream : ℕ) (raw : Raw) (chunks : List Raw)
      → IsSentTo sent user stream raw
      → (length chunks ≤ bound) × All (IsSentTo sent user stream) chunks
      → (length (push bound raw chunks) ≤ bound)
        × All (IsSentTo sent user stream) (push bound raw chunks)
  push-IsSentTo user stream raw chunks s h = elim (Bool-cases (ltb (length chunks) bound)) [
    | inr e ↦ rw e h
    | inl e ↦ rw e (
        let shorter : suc (length chunks) ≤ bound = ground arith in
        (
          omega (arith, length-append chunks (raw ∷ []), shorter),
          All-append (IsSentTo sent user stream) chunks (raw ∷ []) h.1 (s, tt),
        ))
  ]

  set_stream-IsScopedRow :
      (user stream at : ℕ) (chunks : List Raw) (rows : List StreamRow)
      → (length chunks ≤ bound) × All (IsSentTo sent user stream) chunks
      → All IsScopedRow rows
      → All IsScopedRow (set_stream user stream at chunks rows)
  unfolding set_stream
  set_stream-IsScopedRow user stream at [] rows h k =
      All-delete IsScopedRow _ rows (λ row m off. All-mem IsScopedRow rows row k m)
  set_stream-IsScopedRow user stream at (c ∷ cs) rows h k =
      (h, All-delete IsScopedRow _ rows (λ row m off. All-mem IsScopedRow rows row k m))

module _ (decode : Raw → Option Payload) (valid : ℕ → Bool) (cfg : Config) (sent : List Call) where
  -- A call stores its message, or changes nothing.
  serve-cases :
      (c : Call) (rows : List StreamRow)
      → (serve decode valid cfg c rows
          ≡ store_script c.now cfg.ttl cfg.max_chunks_per_stream c.user c.stream c.raw rows)
        ⊎ (serve decode valid cfg c rows ≡ rows)
  unfolding serve store
  serve-cases c rows = elim (Bool-cases (valid c.user)) [
    | inr e ↦ inr (ground (arith, e))
    | inl e ↦ elim (Result-cases (unmarshal decode c.raw)) [
      | inr f ↦ inr (ground (arith, e, f))
      | inl f ↦ elim (Bool-cases (in_range (f.0.seq) && cfg.enabled)) [
        | inl g ↦ inl (ground (arith, e, f, g))
        | inr g ↦ inr (ground (arith, e, f, g))
      ]
    ]
  ]

  serve-IsScopedRow :
      (c : Call) (rows : List StreamRow)
      → Memᴰ c sent
      → All (IsScopedRow sent cfg.max_chunks_per_stream) rows
      → All (IsScopedRow sent cfg.max_chunks_per_stream) (serve decode valid cfg c rows)
  unfolding store_script
  serve-IsScopedRow c rows m h =
      let stored =
        set_stream-IsScopedRow sent cfg.max_chunks_per_stream c.user c.stream (c.now + cfg.ttl) _
          rows
          (push-IsSentTo sent cfg.max_chunks_per_stream c.user c.stream c.raw _
            (c, m, refl, refl, refl)
            (chunks_at-IsSentTo sent cfg.max_chunks_per_stream c.now c.user c.stream rows h))
          h in
      elim (serve-cases c rows) [
        | inl e ↦ subst (All (IsScopedRow sent cfg.max_chunks_per_stream)) (sym e) stored
        | inr e ↦ subst (All (IsScopedRow sent cfg.max_chunks_per_stream)) (sym e) h
      ]

  serves-IsScopedRow :
      (cs : List Call) (rows : List StreamRow)
      → All (λ c. Memᴰ c sent) cs
      → All (IsScopedRow sent cfg.max_chunks_per_stream) rows
      → All (IsScopedRow sent cfg.max_chunks_per_stream) (serves decode valid cfg cs rows)
  unfolding serves
  serves-IsScopedRow [] rows m h = h
  serves-IsScopedRow (c ∷ cs) rows m h =
      serves-IsScopedRow cs (serve decode valid cfg c rows) m.1 (serve-IsScopedRow c rows m.0 h)

  replay-cases :
      (now user stream : ℕ) (from : ℤ) (rows : List StreamRow) (chunks : List Raw)
      → replay decode valid cfg now user stream from rows ≡ ok chunks
      → (chunks ≡ []) ⊎ (chunks ≡ select (is_after decode from) (chunks_at now user stream rows))
  unfolding replay
  replay-cases now user stream from rows chunks h = elim (Bool-cases cfg.enabled) [
    | inl e ↦ inr (ground (arith, e))
    | inr e ↦ inl (ground (arith, e))
  ]

  -- Whatever was stored before, for whom and when, a replay that succeeds shows at most as many
  -- messages as a stream may have, and each was stored for its very recipient and stream, and lies
  -- behind the position that was asked for. The cache is empty before.
  pub replay-IsScoped :
      (now user stream : ℕ) (from : ℤ) (chunks : List Raw)
      → replay decode valid cfg now user stream from (serves decode valid cfg sent []) ≡ ok chunks
      → (length chunks ≤ cfg.max_chunks_per_stream)
        × All (λ raw. IsSentTo sent user stream raw × (is_after decode from raw ≡ true)) chunks
  replay-IsScoped now user stream from chunks h =
      let found =
        chunks_at-IsSentTo sent cfg.max_chunks_per_stream now user stream _
          (serves-IsScopedRow sent [] (All-of_mem (λ c. Memᴰ c sent) sent (λ c m. m)) tt) in
      elim (replay-cases now user stream from (serves decode valid cfg sent []) chunks h) [
        | inl e ↦ rw e (omega arith, tt)
        | inr e ↦ rw e (
          omega (arith, found.0, length-select (is_after decode from) _),
          All-of_mem _ _ (λ raw m. (
            All-mem (IsSentTo sent user stream) _ raw
                (All-select (IsSentTo sent user stream) (is_after decode from) _ found.1) m,
            All-mem _ _ raw (All-select_test (is_after decode from) _) m,
          )),
        )
      ]
