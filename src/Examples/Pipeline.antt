-- ===== src/Examples/Pipeline.antt =====
-- The theorems on the whole way of a message, applied.
