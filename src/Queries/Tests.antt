-- ===== src/Queries/Tests.antt =====
-- The property of queryClient.ts at one query.
