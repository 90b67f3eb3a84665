-- ===== src/Service/Resolved/Failed.antt =====
-- core/internal/service/processor.go: `failTarget` either gives a target up or postpones it.
