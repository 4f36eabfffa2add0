-- ===== src/Tests.antt =====
-- Concrete runs of the modelled code, and the theorems at them.
mod Samples
mod CoreTests
mod DaemonTests
mod RuntimeTests
mod DbusTests
mod ObserverTests
mod ServerTests
mod ChannelTests
mod SystemTests
mod LookupTests
mod ResolverTests
