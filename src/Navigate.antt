-- ===== src/Navigate.antt =====
-- src/navigate.c: the bytes of the file that the main thread asks for.
use getmatvar.Common.{
  ℕ, Option, none, some, List, length, take, drop, ltb, if◌then◌else◌, ℤ, pos, negsuc,
}

-- The bytes that a map made for `bytes_needed` bytes from `address` on is sure to hold.
abbrev pub at_address : List ℕ → ℤ → ℕ → Option (List ℕ)
at_address file (pos a) bytes_needed =
    if ltb a (length file) then some (take bytes_needed (drop a file)) else none
at_address file (negsuc a) bytes_needed = none
