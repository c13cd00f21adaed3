-- ===== src/Base64.antt =====
-- src/util/base64.cpp over libb64's decoder (src/util/cdecode.c), which is a parameter: `decode_block`
-- is what a fresh decoder makes of a whole text.
use tau_shell.Prelude.{◌+◌, ◌*◌, ◌/◌, ◌≤◌, ◌≡◌, Bytes, [], length, ltb, arith, if◌then◌else◌}
use tau_shell.Fault.{Res, ok, fault, out_of_bounds}

module _ (decode_block : Bytes → Bytes) where
  -- The decoder also writes the byte behind its output, in an array of `size * 6 / 8 + 1` bytes.
  unfoldable pub base64decode : Bytes → Res Bytes
  base64decode input =
      if ltb (length input) 4
      then ok []
      else if ltb (length (decode_block input)) (length input * 6 / 8 + 1)
      then ok (decode_block input)
      else fault out_of_bounds

  -- libb64 makes at most three bytes of four characters, so the array is large enough: every text is
  -- decoded, and a text of less than four characters to nothing.
  pub base64decode_fits :
      (input : Bytes)
      → 4 * length (decode_block input) ≤ 3 * length input
      → base64decode input ≡ ok (if ltb (length input) 4 then [] else decode_block input)
  unfolding base64decode
  base64decode_fits input h = ground arith
