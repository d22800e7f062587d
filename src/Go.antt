-- ===== src/Go.antt =====
-- The parts of Go's language and standard library that the program uses: package strings, package
-- bufio, package regexp, package net/url, package time, float64.
pub mod Bufio
pub mod Regexp
pub mod Strings
pub mod Url
pub mod Clock
pub mod Floats
pub mod Format
