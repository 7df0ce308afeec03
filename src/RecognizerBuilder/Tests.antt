-- ===== src/RecognizerBuilder/Tests.antt =====
-- The builder's theorem at concrete calls.
