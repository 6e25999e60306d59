-- ===== src/Server/Keys.antt =====
-- cmd/xdas/redis.go and cmd/xdas/handler.go: which requests share a key.
