-- ===== src/Lib.antt =====
-- GitWise is a self-hosted git service. Its Go services keep accounts, organizations, teams, pull
-- requests and reviews in PostgreSQL, its repositories lie on disk, and its server lets users
-- reach them over SSH and HTTP. This library models the services that decide who may do what and
-- what becomes of a pull request, statement by statement, and proves what they guarantee.
--
-- The parts, and the files that model them:
-- - Team (internal/services/team/service.go, internal/models/org.go): create, get, list and delete
--   are Create, Get, List and Delete; Team/Update is Update; Team/Links has AddMember,
--   RemoveMember, ListMembers, AddRepo, RemoveRepo and ListRepos; Team/Permission is
--   GetUserRepoPermission, and Team/Permissions has the sequences of calls that write teams.
-- - Org (internal/services/org/service.go): GetByName, Create, Update, Delete, IsOwner, IsMember
--   and NameExists; Org/Members has AddMember, RemoveMember and UpdateMemberRole.
-- - Protection (internal/services/protection/service.go): the rules of a repository, and in
--   Protection/Glob the patterns of filepath.Match, which matchBranch calls, chunk by chunk as Go
--   matches them.
-- - Pull (internal/services/pull/service.go): GetByNumber and GetDiff; Pull/Requests has Create
--   and Update, Pull/Merge has Merge, and Pull/Listing has List. Merge asks Protection for the
--   rule of the target branch, counts the approvals among the reviews, and calls git.
-- - Review (internal/services/review/service.go): Create and ResolveThread; Review/Summary has
--   ListByPR, countThreads and updateReviewSummary, whose result is stored on the pull request.
--   Review/History has the sequences of calls on pull requests and reviews.
-- - Server (internal/server/server.go): checkSSHAccess, checkHTTPReadAccess and
--   checkBranchProtection, with GetByUsername (internal/services/user/service.go) and
--   GetByOwnerAndName (internal/services/repo/service.go). They ask Team for permissions and
--   Protection for rules.
-- - Hub (internal/websocket/hub.go): Register, Unregister, SendToUser, unregisterConn and the
--   receive of writePump. A panic of Go is a missing result. Hub/Runs has the sequences of calls.
-- - Issue (internal/services/issue/service.go), Milestone, Label and Comment
--   (milestone/service.go, label/service.go and comment/service.go beside it): all their
--   operations; Issue/Changes has Create and Update of issues. Field has the optional fields of
--   update requests. Tracker has the sequences of calls on issues, milestones and pull requests:
--   Tracker/Effects and Tracker/Changes say what each does to the tables, Tracker/Numbers and
--   Tracker/Numbering are about the numbers, Tracker/References about the foreign key of
--   milestones, Tracker/Dates about times of closing.
-- - Page (internal/pagination/cursor.go): cursors, and the pages that the List methods of issues,
--   pull requests and comments cut with them; Page/Walk and Comment/Walk are about a client that
--   reads page after page.
-- - Auth (internal/services/user/password.go, internal/services/totp): verifyPassword, and the
--   ciphers of totp/crypto.go; Auth/Recovery has the recovery codes and Auth/Totp the other
--   operations of totp/service.go; Auth/Login has Authenticate and GetByID
--   (internal/services/user/service.go), SessionManager.Create (internal/middleware/session.go),
--   and the handlers Login and Verify2FA (internal/api/handlers/auth.go and twofactor.go). A
--   cookie of a request is an argument, and the status and the cookies of an answer are its
--   result. What Redis holds, the pending tokens and the sessions, is two lists beside the
--   database, with times of expiry in milliseconds. Auth/Stages splits Verify2FA into its stages;
--   Login has an argument that says whether the server has a service for second factors, which is
--   missing if the key in the configuration is malformed; the operations of that service, and
--   Verify2FA, are modelled with it there. Auth/Passwords and Auth/Safety are about who gets a
--   session, Auth/Attempts about wrong codes.
-- - User (internal/services/user/service.go): Update, SetPinnedRepos and the API tokens;
--   User/Oauth has FindOrCreateByOAuth, and User/Registration has Create.
-- - Middleware (internal/middleware/auth.go, session.go and admin.go): Auth.Handler, Get and
--   Destroy of sessions, RequireAdmin with its cache; the headers and cookies of a request are
--   arguments.
-- - Webhook (internal/services/webhook/service.go): Create, Update, Get, List, Delete and
--   ListDeliveries; Webhook/Address has validateURL, isPrivateIP and the checks of the HTTP
--   client, Webhook/Payload truncatePayload, Webhook/Discord buildDiscordPayload, Webhook/Delivery
--   deliver, DeliverOne and Dispatch, and Webhook/Retry RetryPending and retryDelivery, over a
--   state of the database and the requests that were sent; what the receiver answers to the n-th
--   request is an argument. Webhook/History has the sequences of calls.
-- - Queue (internal/services/llm/queue.go): Enqueue, dequeue, processTask and a round of worker,
--   over the Redis lists and the table of tasks; Queue/Order says what a queue is to do, and
--   Queue/Refinement that it does so.
-- - GithubLogin (internal/services/oauth/service.go): the states of a login and the exchange of a
--   code, with the answers of GitHub as a function of what is sent to it.
-- - SshKey (internal/services/sshkey/service.go): all operations.
-- - Notification (internal/services/notification/service.go): all operations; Create sends through
--   Hub.
-- - Repo (internal/services/repo/service.go): Create, Update and Delete, and in Repo/Listing the
--   three lists, over the database and an interface to the directories on disk, the record Files.
-- - RateLimit (internal/middleware/ratelimit.go): rateLimit, with the keys of Redis as a function.
-- - Git (internal/git/service.go): ValidatePath and ValidateBranchName, and the interface to the
--   repositories on disk: a record of the operations that the services call, over any type of
--   disks.
-- - Db (migrations/*.sql): a record of tables, each the list of its rows with the columns that the
--   modelled statements name; Db/Order is ORDER BY. Text has the string functions and Text/Names
--   the regular expressions. Action has the errors and the state. Prelude has the names and lemmas
--   that all parts share. Tests has runs and instances at a sample database.
--
-- How the code is read. A method is a function from its arguments to an Action, a function from a
-- state to a result and a state: the state after an error is there too, since a statement that ran
-- before the error stays. A transaction gives the database before it back on an error, and not the
-- disk. Whether a statement fails in the driver is given by a function from its place in the
-- method to a Boolean, so a theorem over all such functions is about every pattern of failures.
-- Constraints that a statement can break (unique keys, checks, cascades) are written out where it
-- runs. A UUID or a time that the code draws is an argument; a stored time keeps all its digits,
-- where PostgreSQL rounds to microseconds. A JSON column is a data type with the shapes that the
-- code stores. Numbers are unbounded, where the code has 64-bit integers that no modelled
-- operation brings near their bounds; a number that a client may send negative is an integer.
--
-- Parameters: the collation of PostgreSQL and the folding of letter case are functions, since they
-- depend on the locale; go-git is the record Git. No theorem supposes anything about them. The
-- record Codec has base64, the time format and UUID texts; IsFaithful says of them that what is
-- written is read back, that a time has no bar and that base64 of a text is not empty. The record
-- Crypto has Argon2, AES-GCM, hexadecimal digits, the check of a time-based code and TTL of Redis,
-- and SHA-256 is a function of its own; IsSound says that hexadecimal digits are read back and
-- have no colon and no white space, and that Argon2 gives as many bytes as it is asked for. The
-- theorems that need IsFaithful or IsSound take it as a hypothesis. The record Net has JSON, HMAC,
-- the texts of UUIDs and times, and what a JSONB column makes of a JSON text; the parsers of URLs,
-- addresses and SSH keys, and the JSON texts of tasks and messages, are functions. Of these only
-- that the text of one task is read back is supposed, where the theorem says so.
--
-- Loops are recursion on lists and on payloads. The goroutines that Dispatch and RetryPending
-- start work on rows of their own, and run one after the other. The only fuel is in the decimal
-- digits of a number, of which there are at most as many as its successor, which is the fuel
-- given; the hundred rounds in which FindOrCreateByOAuth looks for a free name, which are the
-- code's; and the number of requests of a client that reads all pages, which is enough if it is
-- above the number of rows.
--
-- Not modelled: the HTTP handlers but for the two of the login, the middleware for headers and
-- body sizes, the websocket connections behind the hub, search, mirrors, mentions, and the
-- language model services but for their queue; two listings of the service for users; the listings
-- of members and repositories of an organization; and interleavings of two calls: the calls of a
-- history run one after the other, which the row lock of Merge ensures for one pull request.
pub mod Prelude
pub mod Text
pub mod Action
pub mod Db
pub mod Team
pub mod Org
pub mod Git
pub mod Protection
pub mod Pull
pub mod Review
pub mod Server
pub mod Hub
pub mod Field
pub mod Label
pub mod Milestone
pub mod Page
pub mod Issue
pub mod Comment
pub mod Auth
pub mod Tracker
pub mod User
pub mod Webhook
pub mod GithubLogin
pub mod Queue
pub mod SshKey
pub mod Repo
pub mod Notification
pub mod Middleware
pub mod RateLimit
mod Tests
