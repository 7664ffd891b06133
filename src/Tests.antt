-- ===== src/Tests.antt =====
-- The theorems at concrete inputs, over a small chain.
mod Toy
mod CacheTests
mod ProducerTests
mod HeaderTests
mod FilterTests
mod PaymentTests
mod ServingTests
mod RequestTests
mod ServerTests
mod PrevOutTests
mod VerifyTests
mod CustomFilterTests
