-- ===== src/Mdns.antt =====
-- mdns/notify.py: the SOA queries with which MiniDNS learns what a nameserver serves.
pub mod Notify
