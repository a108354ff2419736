-- ===== src/Lib.antt =====
-- The verification library of AIM, a messaging platform of Go services: what its message-service,
-- its user-service, realtime-service's cache and two of its shared packages promise of ordering,
-- delivery and contacts.
--
-- Parts and files
--
-- message-service accepts a message and writes it with an outbox event in one transaction. The
-- dispatcher (app/message-service/internal/dispatcher) publishes the events to Kafka, a
-- conversation's in their order. The fanout consumer turns an event into changes for the members
-- and commits them to the users' inbox streams (app/message-service/internal/repo/inbox_repo.go),
-- from which a device reads pages behind its checkpoint. A gateway that holds a device's socket
-- registers it in the connection registry (pkg/connections), where pushes find it. user-service
-- (app/user-service) keeps the contacts of users, who may request, accept, group and block one
-- another.
--
-- Sequence        pkg/sequence/sequence.go: Validate, Next and, on bytes, ParseJSON.
-- Inbox/Model     app/message-service/internal/model/message.go: UserInbox, InboxStream and
--                 InboxAppliedChange, and the three tables of InboxRepo.
-- Inbox/Batch     BatchInsert of inbox_repo.go, statement by statement: the checks, the streams that are
--                 created and locked, the loop with its cursor, and the streams that are saved.
-- Inbox/Page      EnsureStream and ReadPage of inbox_repo.go.
-- Inbox/Prune     Prune of inbox_repo.go.
-- Outbox          internal/repo/outbox_repo.go and internal/dispatcher/outbox_dispatcher.go of
--                 message-service: FetchPending, the marks, exponentialBackoff and dispatchBatch.
-- Conversations   app/message-service/internal/logic/conversationservice with conversation_repo.go: the
--                 handlers that change the members of a conversation, their roles, its owner and mutes,
--                 by the rows of one conversation. Conversations/Permission has the checks,
--                 Conversations/Channel what a conversation publishes, Members and Roles the handlers,
--                 Reads has MarkAsRead with UpsertReadSeq, and Creation has CreateConversation on the list
--                 of all conversations.
-- Messages        app/message-service/internal/logic/messageservice: Messages/Send has SendMessage,
--                 Messages/Change has EditMessage, RecallMessage and DeleteMessage, on the rows of one
--                 conversation; Messages/Permission has the checks and the tail that they share, and
--                 Messages/Json the comparison of two submissions, on decoded JSON, with what a JSONB
--                 column gives back, and Messages/Submissions what it decides. Messages/Calls runs any
--                 sequence of them.
-- Fanout          app/message-service/internal/consumer: Fanout/Event has the payload of pkg/event,
--                 Fanout/Live what is sent to the devices, Fanout/Consumer the consumer. It takes the
--                 events of Messages and of Conversations to BatchInsert of Inbox.
-- Connections     pkg/connections/registry.go: the Redis scripts on the keys of one principal, and the
--                 methods around them.
-- Streamcache     app/realtime-service/internal/streamcache/streamcache.go: ShouldCache, Store and Replay
--                 over the Redis lists of a recipient's streams, by Sequence/Json for a chunk's position.
--                 Streamcache/Window runs a sequence of stores.
-- Friends         app/user-service/internal/logic/friend with the repositories of internal/repo that it
--                 calls: Friends/Caller has the checks that all handlers share, Friends/Repo the
--                 queries, and Friends/Requests, Relations, Groups and Lists have the handlers.
-- Common          lists, tables, results and integers that these share.
-- Examples        the theorems at concrete inputs.
--
-- How state and operations are modelled
--
-- A table is the list of its rows, and an operation takes the tables and returns the tables that it
-- leaves, or the error of its early return; a transaction that fails leaves the tables as they
-- were. An identity is a number, 0 for the empty text; texts that are only carried along are
-- numbers too, and times are numbers. A group's name is the list of its code points, since the code
-- trims it. Table rows stand in the order of their insertion, and ORDER BY is a stable sort, of the
-- many that SQL allows at equal keys. Fields of type int64 that the code tests for a sign are
-- integers; the backoff's product keeps its wrap-around at 64 bits, and the page fields theirs at
-- 32 bits. Redis expiry is a time in each row that every read compares with the clock; a key is
-- gone at that time, a millisecond sooner than in Redis.
--
-- The conversation, its messages and its channel are one state, since a handler holds the
-- conversation's row until it commits. The consumer reads that state anew at each attempt, so that
-- an attempt carries the rows that it sees; what an attempt that fails has stored or sent stays.
--
-- Parameters
--
-- `valid` is identity.Validate, and an optional identity is the result of identity.New. The clock
-- is an argument, one reading for each statement that reads it. The identity of an event of a
-- conversation is a function of its publication sequence, which numbers the draws of a transaction.
-- Rows that SKIP LOCKED passes over are a predicate, and Kafka's producers are a record of
-- functions: which topics have one, and for each dispatch the error of the send, if any. Of a
-- message, json.Marshal, SetString of big.Rat, how JSONB prints a number and the cut of a text are
-- functions, and the file service's answer with hydrateAttachmentContent is a result; the row that
-- a change reads before its transaction is an argument. `decode` is what json.Unmarshal finds in a
-- chunk's object. Which publications the broker accepts is a predicate on how many went before.
--
-- Bounds and fuel
--
-- The digits of a position are written on fuel of fifteen, enough for the sixteen digits of the
-- largest. The loop of dispatchBatch has no bound in its text. Its model runs on fuel of one more
-- than the batch size, which is enough, since each round dispatches one event at least or ends the
-- loop. All other loops are recursion on the list that they run through.
--
-- Not modelled
--
-- Failures of the database, of Redis and of Kafka's commit other than a send that is refused: the
-- dispatcher then stops, or sends an event again after a commit that failed. The encoding of
-- payloads as JSON, other than the numbers of positions, and the column lengths. The registry's
-- publish and subscribe channel for commands, the tickers that call the dispatcher and Prune, logs
-- and metrics. GetRelation, GetFriendIDs and SearchUsers of user-service, its authentication and
-- its profiles. Of conversations the bots that are added later, settings, announcements, names and
-- lists; the system messages that are sent behind a change. Of messages the making of a content and
-- a submission from a request, forwarding, the messages of bots, the search index, and the reads of
-- history. The consumer's dead letters. Of realtime-service all but its cache. The gateway,
-- bot-service, knowledge-base, llm-gateway and file-service.
pub mod Common
pub mod Sequence
pub mod Inbox
pub mod Outbox
pub mod Connections
pub mod Conversations
pub mod Messages
pub mod Fanout
pub mod Friends
pub mod Streamcache
mod Examples
