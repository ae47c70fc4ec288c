-- ===== src/Tests.antt =====
-- The theorems of the library, applied to concrete values.
mod BreakerTests
mod Fixtures
mod RetryTests
mod NewRequestTests
mod Worlds
mod ServiceTests
mod NetworkTests
mod PipelineTests
mod RequestTests
mod ClientTests
