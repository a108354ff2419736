-- ===== src/Inbox/Page/Reason.antt =====
-- When ReadPage asks for a rebuild.
use maim.Common.{ℕ, ◌≤◌, ◌<◌, ◌≡◌, ◌⊎◌, Bool, true, none, arith}
use maim.Inbox.Page.{rebuild_reason}

-- The positions at which no rebuild is asked for.
pub rebuild_reason-none :
    (position end lower : ℕ) (known : Bool)
    → rebuild_reason position end lower known ≡ none
    → (0 < position) × (position ≤ end) × (lower ≤ position)
unfolding rebuild_reason
rebuild_reason-none position end lower known h = ground arith

pub none-rebuild_reason :
    (position end lower : ℕ) (known : Bool)
    → 0 < position
    → position ≤ end
    → lower ≤ position
    → (position ≡ end) ⊎ (known ≡ true)
    → rebuild_reason position end lower known ≡ none
unfolding rebuild_reason
none-rebuild_reason position end lower known a b c d = ground arith

-- Whether a position is on record matters only past the lower boundary.
pub rebuild_reason-known :
    (position end lower : ℕ) (known known' : Bool)
    → (lower < position → known' ≡ known)
    → rebuild_reason position end lower known' ≡ rebuild_reason position end lower known
unfolding rebuild_reason
rebuild_reason-known position end lower known known' h = ground arith
