-- ===== src/Plugins.antt =====
-- The providers (plugins/*.c), how each composes its request and reads the answer, and their list.
pub mod Common
pub mod Url
pub mod Generic
pub mod Registry
pub mod Easydns
pub mod Zoneedit
pub mod Dnsexit
pub mod Dhis
pub mod Goip
pub mod Desec
pub mod Giradns
pub mod Dnsmadeeasy
pub mod Domeneshop
pub mod Status
pub mod Digest
pub mod Duiadns
pub mod Tunnelbroker
pub mod Builtin
pub mod Answers
pub mod Table
pub mod AllInkl
pub mod Changeip
pub mod CoreNetworks
pub mod Ddnss
pub mod Dnsever
pub mod Dnshome
pub mod Domaindiscount24
pub mod Duckdns
pub mod Dynv6
pub mod Freemyip
pub mod Ipv64
pub mod Mydns
pub mod Myonlineportal
pub mod Namecheap
pub mod Regfish
pub mod Sitelutions
pub mod Twodns
pub mod Dyndns
pub mod Protocol
pub mod Query
pub mod Scan
pub mod Cloudflare
pub mod Porkbun
pub mod Dnspod
pub mod Freedns
pub mod Dnsmax
pub mod Yandex
pub mod Cloudxns
