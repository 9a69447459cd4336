-- ===== src/Lib.antt =====
-- A model of the core of go-octopi, a web server that shows what a wallet on Solana earns by staking.
--
-- The parts of the program and the files that model them:
--   jito_tips.go, `stringLRU`            Lru: the cache over a map and a doubly linked list
--   jito_tips.go, collection of tips     Tips: Tips.Client is the interface `SolanaClient` as far as
--                                        the collection calls it, and `fetchTransactions`;
--                                        Tips.Intervals the slots of the epochs; Tips.Transaction what
--                                        one transaction pays; Tips.Select the choice of signatures and
--                                        of stake accounts; Tips.Collect the loops over pages, stake
--                                        accounts and chunks of epochs
--   solana_client.go, the RPC client     Solana: Solana.Types and Solana.Wire are the types of the
--                                        client and of the messages; Solana.Rpc `doRPCRequest` and the
--                                        exchange; Solana.Calls and Solana.Replies the calls and what
--                                        they read; Solana.Convert transactions; Solana.Number numbers;
--                                        Solana.Batch `GetTransactions`; Solana.Events `GetEvents`;
--                                        Solana.Prices and Solana.Names the repositories of prices and
--                                        of the names of validators; Solana.Client the client's
--                                        state and the methods that go through the repositories, and
--                                        Solana.Client.Online the client as the network of the pages;
--                                        Solana.Epochs the cache of epoch boundaries;
--                                        Solana.Epochs.Disk its snapshot on the disk
--   rate_limiter.go                      Limiter: the token bucket; Limiter.Registry the limiters by host
--   server.go, a row of rewards          Rewards: a row and its date
--   server.go, the pages of a wallet     Server: Server.Network is the interface `SolanaClient` as far as
--                                        the pages call it; Server.Recent `collectRecentRewards`;
--                                        Server.Weeks and Server.Chart the chart; Server.Flows and
--                                        Server.Xirr the annual return; Server.Returns and Server.Shares
--                                        what a page shows and what is recorded of it; Server.Address
--                                        the path; Server.Pages the server's state and `handleWallet`
--   server.go, the site                  Server.Site the routes, the home page, the templates and the
--                                        counted replies; Server.Site.Setup `NewServer` and its
--                                        options; Server.Demo the wallet of the demo page
--   wallet_cache.go                      Server.WalletCache: the cache of a wallet's rewards
--   metrics.go, http_metrics.go          Server.Metrics: the counters of responses, and the readings
--                                        of the process's memory
--   logger.go, cmd/web/main.go           Logging: a logger's line; Main: the port and the exit
-- Base holds what they share: tests, lists, maps, words, texts, times, errors and sorting. A function
-- of the source has its name here in snake_case; the comment above a definition names it where the
-- name differs.
--
-- A page of a wallet is made of its balance, its stake accounts, the boundaries of the epochs and its
-- rewards, which come from the cache or else are collected: the inflation rewards of each epoch and the
-- tips, filtered by the window, sorted and named. What was collected is cached until the epoch ends.
--
-- A tip is collected by asking the client for pages of signatures of each stake account, for the
-- transactions of the new ones, and by looking in each for a gain of the account. The collector keeps
-- the cache of processed signatures; the client keeps a counter for the identities of its requests.
--
-- State is passed explicitly: a function that changes the collector, the client or the network takes
-- the old state and gives the new one. The network, the clock and the context are a type `World` with
-- operations, a parameter of the model (Tips.Client.Client, Solana.Rpc.Transport, Limiter.Clock), and so
-- are encoding/json (Solana.Wire.Codec) and the formats of numbers and dates (Rewards.Formats), float64
-- included where it is only handed on. Where the program computes with float64, its arithmetic is a
-- parameter (Server.Floats), and so are the LRU cache of github.com/hashicorp/golang-lru, with what it
-- promises as laws (Server.WalletCache.LruPackage), the environment, the clock of the pages and the
-- JSON of the chart (Server.Pages.Host), the files and encoding/gob, with what they promise of them as
-- laws (Solana.Epochs.Disk.Disk), html/template (Server.Site.Templates) and the Go runtime
-- (Server.Metrics.Readings.Runtime). The limiter counts billionths of a token exactly where the
-- source has float64. A uint64 is a natural number with its wrap-around written out, a time is a number
-- of nanoseconds, an error keeps its text where the program reads it.
--
-- Loops: `collectStakeAccountTips` counts its pages down from ten; `collectJitoTips` drops three of at
-- most twelve epochs in each round, so the number of epochs is enough fuel; `batchSignatures` has as
-- many rounds as signatures; the endless loop of `doRPCRequest` is on fuel, where running out means that
-- the loop goes on, and fuel above the number of retries of every request is enough for each call of
-- the client and for a refresh of the epoch cache (Solana.Calls.Returns.Patient); the loop of `Wait` is
-- on fuel too, and three rounds are enough for a waiter alone; `refreshLocked` counts its epochs down,
-- and `xirrNewton` and `bisectXIRR` their hundred rounds.
--
-- Not modelled: what the parts log, and locks, since each call of a handler runs alone here; the HTML of
-- the templates; encoding/json and encoding/gob, url.Parse and the formats of numbers and dates, which
-- are parameters; the pages of expvar and the redirections of net/http; the tests and their mocks.
pub mod Base
pub mod Lru
pub mod Solana
pub mod Rewards
pub mod Tips
pub mod Limiter
pub mod Server
pub mod Logging
pub mod Main
