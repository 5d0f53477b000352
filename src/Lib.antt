-- ===== src/Lib.antt =====
-- Gmail Visibility Manager lets an untrusted client (Donna) ask that future mail of one exact
-- sender become visible to it. A request comes over a Unix socket, the policy gives its verdict, a
-- human decides, and an approved grant is enforced as Gmail filters. This library models the
-- trusted core of the program and shows what it promises.
--
-- The parts, and the files that model them (paths of the repository on the right):
--
--   Request    internal/request/request.go    strict requests: validation, normal form, hash
--   Config     internal/config/config.go      the configuration, its defaults and its checks
--   Policy     internal/policy/policy.go      the verdict on a request
--   State      internal/state/state.go        the two tables and every method of Store
--   GmailFilter  internal/gmailfilter/filter.go  the labels of the filter of a grant
--   Rpc        internal/rpc                   the envelope of a call and the frames on the socket
--   Gmail      internal/gmail/gmail.go        the client: labels, filters, groups of senders, the
--                                             backfill of old messages, ReconcileGrants
--   Manager    internal/manager/manager.go    Submit, Approve, Deny and ReconcileAll
--   Daemon     internal/daemon/server.go      handleConn and dispatch: what a client can reach
--   Discord    internal/discordbot/bot.go     the messages and the commands of the Discord bot
--   Service    internal/service               the names and the texts of systemd and launchd files
--   System     all of these                   connections, local commands (submit, approve, deny,
--                                             reconcile) and Discord messages in any order
--   Tests      every theorem at a concrete input, and runs of the definitions
--
-- Base, Text, Result, Sort, Dict and Exec are shared: Go's strings as lists of code points, errors
-- as their texts, sort.Slice and ORDER BY, maps as association lists, and methods that change a
-- state and may fail.
--
-- How state and operations correspond. A definition has the name of its Go function in snake case;
-- a function that is cut in parts keeps the name for the whole, as approve with approve_trimmed
-- and approve_tx. State.Calls.Db holds the rows of the tables requests and grants and the number
-- of calls so far. State.Tables has one function for each SQL statement, State.Operations one for
-- each method. A transaction keeps the tables of its beginning and gives them back on any error.
-- Manager.World adds the audit events and the calls of Gmail, Daemon.Serve.Served the requests of
-- which the notifier was told. State.Change is the abstract store: the relation of the changes
-- that the tables may undergo.
--
-- Parameters. Std is what the program uses of Go's standard library and this library does not
-- write out: Unicode case beyond ASCII, net/mail, %q, RFC 3339, JSON, SHA-256; Std.StdLaws names
-- what is relied on, and Std.Ascii is an instance. Os is the file system and the environment.
-- State.Calls.Host decides which database call fails, what the clock says and which random bytes
-- come, each by the number of the call, so a theorem that holds for each host holds for any
-- failures and delays. The manager's Gmail answers the n-th call in any way;
-- Gmail.Reconcile.Grants.gmail_account fills it with ReconcileGrants. Gmail.Api is the service of
-- Gmail: what it answers depends on all the calls so far and on what the call sends. A request for
-- messages sends the token of a page; Api.pages_left bounds how many pages follow a token, as a
-- search has finitely many, and it is the fuel of the loop of BackfillLabelsForSender.
-- Discord.Session sends the messages of the bot, and the absolute path of Service is a function.
-- Daemon.Serve.Decoders are the JSON decoders of the daemon.
--
-- Bounds. Every function is structural recursion. Two loops have fuel. The loop of
-- stripOuterParens takes as many rounds as the text has runes; each round takes two of them away.
-- The loop over the pages of a search reads at most one page more than Api.pages_left says follow
-- the first one, so it always reaches the last page. Lengths of texts are in bytes of UTF-8 as in
-- Go; uint32 values are natural numbers reduced modulo 2 ^ 32 where the code converts; Go's int is
-- an integer where a negative value can arise.
--
-- Not modelled. OAuth and token storage (internal/auth); the RPC client; peer credentials; of the
-- command line, flags and printing; opening and migrating the database; writing the audit file;
-- the listener, its goroutines, deadlines and the writing of the response; what the bot sends
-- where the daemon notifies, of which the store's read and the id of the request are kept
-- (Discord.notify_pending models the sending by itself); the connection to Gmail (New,
-- ProfileEmail, OAuthScopes) and to Discord (Start, Close); contexts and timeouts, which show as
-- errors of a call. Where the code ranges over a map and the order shows, the model takes one
-- order. The methods of the store run one after the other; interleavings of two of them inside
-- SQLite are not modelled. ORDER BY keeps the order of insertion among equal keys, which SQLite
-- leaves open. A nil slice and an empty one are the same.
pub mod Base
pub mod Text
pub mod Result
pub mod Sort
pub mod Dict
pub mod Std
pub mod Request
pub mod Os
pub mod Config
pub mod Policy
pub mod Exec
pub mod State
pub mod GmailFilter
pub mod Rpc
pub mod Manager
pub mod Gmail
pub mod Daemon
pub mod Discord
pub mod Service
pub mod System
pub mod Tests
