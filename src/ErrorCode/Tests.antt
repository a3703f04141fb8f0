-- ===== src/ErrorCode/Tests.antt =====
-- Tests of the error codes.
