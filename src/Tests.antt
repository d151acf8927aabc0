-- ===== src/Tests.antt =====
-- Runs of the modelled code at concrete inputs.
mod Data
mod Cache
mod Transform
mod Template
mod Proxy
mod Refresh
mod Files
mod Vault
mod Aws
mod Main
mod Oauth
mod Lifecycle
mod Jwt
mod Iam
mod Init
mod Sidecar
mod VaultProxy
mod AzureProxy
mod OauthProxy
mod Threads
mod Logs
