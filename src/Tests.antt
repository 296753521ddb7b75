-- ===== src/Tests.antt =====
-- Runs of the model on concrete data, and each theorem with hypotheses applied at such data.
mod Toy
mod Envelopes
mod Frames
mod SigningTests
mod AuthTests
mod GuardTests
mod SanitizeTests
mod IngestTests
mod EdgeTests
mod StorageTests
mod PatternTests
mod AppendedTests
mod LivesTests
mod ConcurrentTests
mod ProxyTests
mod ProxyLivesTests
mod NumberTests
mod AcceptedTests
mod MockClientTests
