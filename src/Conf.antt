-- ===== src/Conf.antt =====
-- The configuration file (src/conf.c): from the options that the parser of libConfuse found to the
-- list of providers, and the validation of a file that is only checked.
pub mod Parsed
pub mod Server
pub mod Provider
pub mod File
pub mod Fits
pub mod Order
pub mod Ssl
pub mod Validate
