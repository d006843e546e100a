-- ===== src/Tls.antt =====
-- The TLS certificates of kubergrunt (tls/).
pub mod Options
