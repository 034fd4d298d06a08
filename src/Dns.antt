-- ===== src/Dns.antt =====
-- libsystem_configuration/dnsinfo_internal.h: the buffer that holds a DNS configuration.
pub mod Buffer
mod Tests
