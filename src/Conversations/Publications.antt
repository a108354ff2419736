-- ===== src/Conversations/Publications.antt =====
-- What a conversation publishes through any calls.
use maim.Common.{ℕ, Bool, List}
use maim.Conversations.Model.{Room}
use maim.Conversations.Steps.{Step, stays, joins, leaves, transfers, rewrites, flags, deletes}
use maim.Conversations.Calls.{Call, serve, serve_kept_by_all}
use maim.Conversations.Publishing.{IsChannel, remove_each-IsChannel}

Step-IsChannel :
    (actor : ℕ) (r r' : Room) → Step actor r r' → IsChannel r.channel → IsChannel r'.channel
Step-IsChannel actor r r' (stays e) v = rw e v
Step-IsChannel actor r r' (joins c candidates limit ch ec plain fits k e) v = rw e (k v)
Step-IsChannel actor r r' (leaves c users new_id ts ms ch ch' ec targets gone k e) v =
    rw e (k (remove_each-IsChannel new_id ts r.members ms r.channel ch gone v))
Step-IsChannel actor r r' (transfers c new target ch ec has g ne k e) v = rw e (k v)
Step-IsChannel actor r r' (rewrites c user f ch ec w k e) v = rw e (k v)
Step-IsChannel actor r r' (flags c muted ch ec k e) v = rw e (k v)
Step-IsChannel actor r r' (deletes ch has k e) v = rw e (k v)

-- Whatever is called, and also when the conversation is deleted in between, the events that it leaves
-- in the outbox have strictly ascending publication sequences in the order of their insertion, none
-- above the conversation's own, which stays in range.
pub serve-IsChannel :
    (valid : ℕ → Bool) (limit conv_id : ℕ) (cs : List Call) (r : Room)
    → IsChannel r.channel
    → IsChannel (serve valid limit conv_id cs r).channel
serve-IsChannel valid limit conv_id cs r v =
    serve_kept_by_all valid limit conv_id (λ z. IsChannel z.channel) Step-IsChannel cs r v
