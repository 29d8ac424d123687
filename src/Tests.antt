-- ===== src/Tests.antt =====
-- Tests of the model at concrete inputs, and instances of the theorems.
mod Json
mod HashMap
mod Trie
mod Terminal
mod Url
mod UserCss
mod Session
mod Keys
mod Payload
mod WebSocket
mod Http
mod ExternalFile
mod Service
mod Server
