-- ===== src/Tests.antt =====
-- The theorems at concrete inputs, over small streams and buffers made of lists.
mod Flat
mod Transfers
mod Buffered
mod Writing
mod Engines
mod TlsStreams
mod TlsSessions
mod TlsWrites
mod TlsDescriptors
mod WindowsSockets
mod TlsObjects
mod TlsErrors
mod TlsBindings
mod System
mod Files
mod Towers
mod Connections
mod WindowsFiles
