-- ===== src/Lib.antt =====
-- f_chat_backend: the core logic of the chat backend (src/, NestJS), modelled and proved.
--
-- The backend drives WhatsApp conversations through flows of nodes. Flows are drawn as Mermaid
-- diagrams, which the parser reads and the graph analyzer splits into sub-flows; a conversation then
-- has sessions, and requests to a node that is busy wait in a queue; tenants own all of it.
--
-- Parts and files:
--   * Mermaid (src/modules/nodes/mermaid-parser): Mermaid.antt has the shapes of types.ts,
--     Mermaid/Lexer.antt the text functions of mermaid-parser.service.ts (stripTrailingComment,
--     isIgnorable, parseSubgraphOpen, matchArrow, matchNode, findClose, tokenizeLine),
--     Mermaid/Parser.antt its `parse`, one function per branch of the loop over the lines, and
--     Mermaid/Analyzer.antt the `analyze` of graph-analyzer.service.ts, one function per loop.
--     Texts are lists of UTF-16 code units, a JavaScript `Map` or `Set` is a list in the order of
--     insertion, and a thrown error is `none`. Regular expressions are written out as functions on
--     texts; `toLowerCase` folds ASCII and Latin-1 only.
--   * Tenants (src/modules/tenants): Tenants.antt has the rows of prisma/schema.prisma and the
--     methods of tenant.repository.ts and invitation.repository.ts, Tenants/Service.antt those of
--     tenants.service.ts. The Prisma client is a package: Prelude/Table.antt is its interface, a
--     record of operations and of what its documentation says of them, and a list is an instance.
--     A method is an action (Prelude/Actions.antt) that may throw; what was written before stays.
--   * Sessions: Sessions/RedisStore.antt is redis-node-session.store.ts of
--     src/common/conversation-session/stores, which keeps a node session under two keys, and
--     Sessions/TestSession.antt the test sessions of test-session.service.ts in
--     src/common/conversation-orchestration, whose `stop` uses that store. The Redis server is the
--     interface Prelude/Redis.antt; its keys do not expire in the model.
--   * Queue (src/modules/queue-system): Queue.antt has the requests that wait for an internal
--     contact: the reads and updates of queue-request.repository.ts, `handleResponse` of
--     queue-request.service.ts and `processJob` of user-queue-manager.service.ts. The sending of a
--     message is a parameter; one reading of the clock serves a whole method.
--   * Jid (src/common/utils/whatsapp-jid.ts): Jid.antt has the four functions on WhatsApp ids.
--   * Messaging (src/common/messaging/repositories, src/modules/conversations/repositories,
--     src/modules/webhooks/repositories): Messaging.antt has the tables as one state,
--     Messaging/Rows.antt the rows, Messaging/Events.antt what Evolution sends and what the services
--     emit, Messaging/Clients.antt, Messaging/Conversations.antt and Messaging/Messages.antt the
--     methods of the repositories. A method that writes is an action on the state.
--   * Webhooks (src/modules/webhooks): Webhooks/Content.antt reads an event (webhooks.service.ts and
--     parseMessageContent of evolution.service.ts), Webhooks/Handlers.antt is `handleWebhook` with
--     its handlers, Webhooks/Processor.antt the `processMessage` of message-processor.service.ts.
--     A handler is parted at its reads: what follows a read is a function of what was read. The
--     picture of a contact, the download of media and the queue that takes a job are parameters that
--     may throw.
--   * Sessions in production (src/common/conversation-session, src/modules/hitl):
--     Sessions/DbStore.antt is the store of node sessions over their table
--     (node-session.repository.ts), and Sessions/Lifecycle.antt the passing of a conversation from
--     the agent to a person and back (session-lifecycle.service.ts, session.repository.ts,
--     hitl.service.ts). A request to the backend's own API comes through or throws, by a parameter.
--   * Memories of the tenants (src/modules/tenant-memory): Memory.antt has the JSON values and the
--     write at a path (setNestedValue), Memory/Service.antt the service over its repository.
--   * Queue/Labels.antt is contact-label.service.ts over its repository, and Queue/Enqueue.antt the
--     `enqueue` of queue-request.service.ts. The queue that takes a job is a parameter.
--   * Queue/Schedule.antt has the crons of queue-scheduler.service.ts that pause and resume the queue
--     of a tenant, and their registration; the constructor of a cron, which may throw, is a parameter.
--
-- Fuel: `tokens` runs on the length of the line, since every round uses up a unit of it; `search` on
-- one more than the number of edges, since a node's edges enter the queue once.
--
-- Not modelled: the controllers, the NestJS modules and DTOs, which only pass values on; the clients
-- of other services (Evolution, Kimi, R2, LangSmith) and of PostgreSQL and Redis. Nor are the sending
-- of messages, the phones' life, the workflow of a conversation, the functions of nodes, the analysis
-- of conversations, the catalog and the health monitor modelled here.
pub mod Prelude
pub mod Jid
pub mod Memory
pub mod Mermaid
pub mod Messaging
pub mod Queue
pub mod Sessions
pub mod Tenants
pub mod Webhooks
