-- ===== src/Lib.antt =====
-- AI Dandelion backend: a verification library.
--
-- The backend is four Go services that share a toolbox. `func-operation` keeps the functions that
-- users build: it stages and publishes releases of generated applications, tells other services of it
-- through an outbox table, and records the conversations in which an agent works on a function.
-- `ai-agent` runs those conversations and holds a tool call until the user has answered. `system`
-- keeps users, roles and sessions; `inner-gateway` is the entry from the browser, which asks `system`
-- to validate the access token of every request.
--
-- Which file models which part (paths from the root of the repository):
--   Base         Boolean tests, lists, options and text: the parts of Go and of its package `strings`
--                that the source uses
--   Db           calls of a database or of another service: each may fail, which an oracle of the
--                world (`faults`) decides, transactions roll back; the rules of such actions are in
--                Db/Rules
--   FuncOp       func-operation/internal: Model (model/*.go), Release (dao/function_release.go),
--                Outbox and Delivery (dao/function_release.go, logic/outbox.go), Publishing
--                (logic/release.go, logic/function.go), Conversation, Wording and Progress
--                (dao/conversation_operation.go, logic/conversation_operation.go), Readiness
--                (logic/readiness.go)
--   Auth         Token (toolbox/authctx/authctx.go), Store (system/internal/dao/auth_token.go),
--                Account and Session (system/internal/logic/user.go and the queries that it makes);
--                Issuing, Refreshing, Ending, Making, Accepting and RoundTrip prove
--   Broker       State (what the two brokers of ai-agent/internal/logic share), Permission
--                (tool_permission.go), Question (ask_user_question.go); Safety and the modules
--                Answers prove
--   Json         decoded JSON values, which Broker, Agent and Navigation read
--   Agent        Stream (toolbox/agent/stream_state.go, helpers.go); Replies proves
--   Menu         system/internal: Model (model/menu.go and its neighbours), Store (dao/menu.go), Input
--                and Edit (logic/menu.go), Access (logic/menu_access.go), Tree (buildMenuTree of
--                logic/menu.go and sortMenus of logic/menu_nav.go), Nav (logic/menu_nav.go), Checks
--                (the checks of logic/menu_function_sync.go, with logic/authorization.go and CheckAccess
--                of func-operation/internal); their child modules prove
--   Navigation   ai-agent/internal/logic/navigation.go; Targets and Offered prove
--   Gateway      inner-gateway/internal: Ticket (realtime/ticket.go), Check (middleware/auth.go), Hub
--                (realtime/handler.go and protocol.go); History, Passing and Replay prove
-- The modules named Tests run the theorems at concrete inputs.
--
-- How the code became definitions. A function of Go keeps its name, in snake case; its early returns
-- are the branches of the definition, in their order. A method that calls the database or another
-- service is an action on a world: the tables, the number of calls made, the oracle of failures and
-- the log of effects elsewhere. A service that returns nothing but an error is a call that is logged.
-- Each transaction runs its body on the tables and puts them back when the body or the commit fails.
-- The clock, fresh ids and random texts are arguments. A goroutine is not a thread here: the brokers
-- are step relations whose steps may come in any order.
--
-- Bounds. int64 and int32 fields are natural numbers, without wrapping: times, versions and counts
-- stay far below the limit. The index of a block in a stream is not negative. A time is not
-- negative, a deadline such as `now - 60s` is compared as `updated_at + 60s <= now`, and a negative
-- limit of the outbox is 0. Texts are valid UTF-8. Most loops of the modelled code go over a list. Fuel is
-- given to the printing of a number, one more than the number, which is above the number of its
-- digits; to the walk up the parents of menus, one more than there are menus; and to the reading of a
-- tree of menus, as many as there are: that this is enough is part of what is proved of them. A loop
-- over a map of Go takes the order of its entries as an argument.
-- A wrapped error (`%w`) is the text of the outer one. Locking of rows is not modelled: each call of
-- the database is one step, and transactions of one database follow one another.
--
-- Parameters. gorm and MySQL appear as the calls of Db; Redis as three maps with expiry; SHA-256,
-- the JWT library and bcrypt as the fields of `Auth.Token.Library`, and the JSON library of the
-- agent as those of `Agent.Stream.JsonLibrary`. No law of them is assumed but where a theorem says
-- so: that two hashes differ, or that the JWT library reads what it has signed (`IsJwt`).
-- `strings.ToLower` of a text that is not known to be ASCII is a parameter of Navigation. A JSON
-- text of a payload is the record that it encodes, or a text that Unmarshal refuses; a session in
-- Redis is the record itself.
--
-- Not modelled: the gRPC and HTTP layers, which convert requests and hold no state; the agent SDK, the
-- WeCom client and the MinIO uploader, which are clients of other systems; the runtime of generated
-- applications, the data capabilities, the external interfaces and the documents of functions of
-- func-operation; the sessions, messages, skills and bots of ai-agent; the administration of users and
-- roles, notifications and uploads of system; generated code and the start of the processes.
pub mod Base
pub mod Db
pub mod Agent
pub mod Auth
pub mod Broker
pub mod FuncOp
pub mod Gateway
pub mod Json
pub mod Menu
pub mod Navigation
