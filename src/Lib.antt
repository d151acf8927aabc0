-- ===== src/Lib.antt =====
-- hasura-secret-refresh, a service that reads secrets from secret stores and hands them on.
--
-- The program has two faces. A proxy (server/) takes a request whose headers name a destination, a
-- provider and a template of a header; the provider fetches a secret, and the request goes on to the
-- destination with the header that the template makes of the secret. File providers (provider/)
-- write a secret to a file, once at the start, then for ever after each interval, and on a request
-- to the refresh endpoint; the secret may first be transformed (transform/) or put into a template
-- (template/).
--
-- Base, Strings, Assoc, Value, Result: the shared part. A text is the list of its code points; a Go
--   map is a list of entries, in the order in which a range loop visits it; a value of a parsed
--   document is a Value; a result is a value, an error with its text, or a run-time panic.
-- Transform: transform/transform.go. Config is ParseSecretTransformFromConfig. `apply_mappings` is
--   the loop over the mappings of the method Transform.
-- Template: template/template.go. `segments` cuts a text by the matches of the regular expression,
--   `replace` is the replacing function with its variable canContinue, `substitute` is Substitute.
--   Template/Cut describes the matches of the regular expression.
-- Http: the parts of net/http that the server uses: headers with canonical names, URLs, requests,
--   and SetURL of the reverse proxy.
-- Server: server/rewrite_request.go, server/proxy.go and server/utils.go; `serve_http` is ServeHTTP.
--   Server/Template is server/template.go, Server/Refresh is server/refresh.go, Server/Log is
--   server/log.go. Server/Named is what the proxy does with a provider that a request names, and
--   Server/Refusal which requests it refuses.
-- Lru: the caches that the providers of the proxy call, and a fetch through one; Lru/Fetches runs the
--   method FetchSecret for many requests at once.
-- Log: an event of the log, its level, and which events are written.
-- Provider: provider/provider.go, the interfaces that the server uses and the providers implement.
-- Files: provider/file_permissions.go, on a disk whose calls may fail.
-- FileLoop, Config, Duration: what the file providers share: Start, Refresh and writeFile, reading
--   their configuration, and the interval as a 64-bit number of nanoseconds. FileLoop/Writer is what
--   the code that runs them relies on. FileLoop/Threads runs Start and Refresh of one provider as
--   goroutines that interleave, with its mutex, and with each write in two calls.
-- FileJson: provider/file_json/file_provider.go.
-- Aws: provider/aws_secrets_manager, the file provider; Aws/Http is the provider of the proxy, and
--   Aws/Proxy the proxy with it.
-- IamRds: provider/aws_iam_auth_rds, which tries its token on the database before it writes it.
-- Azure: provider/azure_key_vault/file_provider.go; Azure/Http is its provider of the proxy, and
--   Azure/Proxy the proxy with it.
-- Vault: provider/hashicorp_vault/kv.go. Vault/Http is provider.go and fetcher.go, and Vault/Proxy the
--   proxy with them; Vault/Auth is parseVaultConfig of auth.go, Vault/Client its newVaultClient and
--   login and newAuthenticatedClient of client.go, Vault/Login is reLogin of client.go, and
--   Vault/Lifecycle the goroutine manageTokenLifecycle with watchOnce, as a state machine; Vault/File
--   is file_provider.go.
-- Oauth: provider/aws_sm_oauth: the token request of oauth.go and FetchSecret of fetcher.go. Oauth/Jwt
--   is jwt.go: the claims, the fingerprint and the signing. Oauth/Provider is the provider with its
--   methods, and Oauth/Create is Create of provider.go and the provider with all its parts. Oauth/Key
--   is about getCacheKey, Oauth/Log is log.go, and Oauth/Proxy the proxy with the provider.
-- Main: parseConfig of main.go, the run of the init container and the map of the refresh endpoint.
--   Main/Start is main on the settings that were read, and the log level; Main/Assembly puts the
--   functions that create file providers into parseConfig, Main/Own tells what the file of each such
--   provider holds, and Main/Init follows an init container from its configuration to its files;
--   Main/Sidecar is what the goroutines and the refresh endpoint do side by side. Main/Order is about
--   the order in which parseConfig visits the entries, and Main/Logging about what a configured log
--   level shows of a request.
-- Tests: the same code at concrete inputs.
--
-- Code that is not in the repository is an argument of the definitions: encoding/json (JsonCodec),
-- strings.ToLower, url.Parse, filepath.ToSlash, the clients of AWS, Azure and Vault with a state or
-- a count of their calls, the LRU cache (Lru, with its documented behaviour in IsLru), what the
-- operating system decides on each write (Os), the order of each range loop over a secret, and the
-- texts that Go prints of a duration and of a URL.
-- Parts of the repository that other parts use are arguments too: createJwtToken in Oauth, which
-- Oauth/Create fills from Oauth/Jwt; newAuthenticatedClient in Vault/File and Vault/Http, which is in
-- Vault/Client; and in Main the functions that create providers, of which Main/Assembly fills those of
-- the file providers. Those of the proxy stay an argument there, since each has a state of its own.
--
-- `segments_fuel` has as fuel the length of its text: each round takes at least one character.
-- `decimal` has as fuel one more than the number. No other definition has fuel; Start, which does
-- not end, is modelled by its rounds, reLogin by the answers to its attempts, and the lifecycle of a
-- token by its steps. In Main/Sidecar a round of a file provider is one step: the writes of two
-- providers go to two files, and what one of them reads is the outside's answer. The goroutines of
-- one provider, whose steps can meet in one file, are in FileLoop/Threads; there, and in Lru/Fetches,
-- a schedule is any list of positions with what the outside does at each step. os.WriteFile is two
-- steps, the opening and the writing, and a call of a cache is one, as its library locks it.
--
-- Not modelled: the connections themselves and their time limits, the sleeps, the log lines other
-- than those of server/log.go and provider/aws_sm_oauth/log.go, how zerolog prints an event, and in
-- main.go viper's reading of the configuration file and the listener of net/http.
pub mod Base
pub mod Strings
pub mod Assoc
pub mod Value
pub mod Result
pub mod Transform
pub mod Template
pub mod Http
pub mod Lru
pub mod Log
pub mod Provider
pub mod Server
pub mod Files
pub mod Duration
pub mod FileLoop
pub mod Config
pub mod FileJson
pub mod Aws
pub mod Azure
pub mod Vault
pub mod IamRds
pub mod Oauth
pub mod Main
mod Tests
