-- ===== src/Outbox/Backoff.antt =====
-- The delays between the attempts to publish an event.
use maim.Common.{
  ℕ, zero, suc, ◌+◌, ◌*◌, ◌^◌, ◌<◌, ◌≡◌, refl, Bool, true, ◌&&◌, arith, ℤ, pos, min, ◌==◌, pos_part,
  neg_part,
}
use maim.Outbox.{exponential_backoff, max_backoff, second}

-- The test at every number of a small range, by evaluation.
holds_under : (ℕ → Bool) → ℕ → Bool
holds_under test zero = true
holds_under test (suc bound) = holds_under test bound && test bound

holds_under_at :
    (test : ℕ → Bool) (bound r : ℕ) → holds_under test bound ≡ true → r < bound → test r ≡ true
unfolding holds_under
holds_under_at test zero r found small = absurd (omega arith)
holds_under_at test (suc bound) r found small = ground (arith, holds_under_at test bound r)

same : ℤ → ℕ → Bool
same d n = (pos_part d == n) && (neg_part d == 0)

same_eq : (d : ℤ) (n : ℕ) → same d n ≡ true → d ≡ pos n
unfolding same
same_eq (pos m) n h = ground arith
same_eq _ n h = ground arith

table :
    holds_under (λ r. same (exponential_backoff (suc r)) (min (2 ^ r * second) max_backoff)) 34
    ≡ true
unfolding holds_under same exponential_backoff
table = refl

-- Attempts 1 to 34 wait one second, doubled for each attempt before and capped at a minute.
pub exponential_backoff_doubles :
    (r : ℕ) → r < 34 → exponential_backoff (suc r) ≡ pos (min (2 ^ r * second) max_backoff)
exponential_backoff_doubles r h = same_eq _ _ (
    holds_under_at (λ k. same (exponential_backoff (suc k)) (min (2 ^ k * second) max_backoff)) 34 r
      table h)

past : holds_under (λ r. same (exponential_backoff (56 + r)) 0) 8 ≡ true
unfolding holds_under same exponential_backoff
past = refl

-- The cap fails for a large number of attempts: the int64 product overflows to zero, and attempts 56
-- to 63 do not wait at all.
pub exponential_backoff_overflows : (r : ℕ) → r < 8 → exponential_backoff (56 + r) ≡ pos 0
exponential_backoff_overflows r h =
    same_eq _ 0 (holds_under_at (λ k. same (exponential_backoff (56 + k)) 0) 8 r past h)
