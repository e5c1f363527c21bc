-- ===== src/Plugins/Digest.antt =====
-- The text of an MD5 digest, as the plugins that hash print it (plugins/duiadns.c,
-- plugins/tunnelbroker.c). The function md5 itself is a parameter.
use inadyn.Prelude.{ℕ, ◌+◌, ◌-◌, ◌/◌, ◌%◌, List, [], ◌∷◌, ltb, take, if◌then◌else◌}
use inadyn.Prelude.Text.{Str}

abbrev pub md5_digest_bytes : ℕ
md5_digest_bytes = 16

-- From a text to the bytes of its digest.
abbrev pub Md5 : Type 0
Md5 = Str → List ℕ

abbrev pub hex_digit : ℕ → ℕ
hex_digit n = if ltb n 10 then b'0' + n else b'a' + (n - 10)

-- "%02x" of each byte.
abbrev pub hex : List ℕ → Str
hex [] = []
hex (b ∷ rest) = hex_digit (b / 16) ∷ hex_digit (b % 16) ∷ hex rest

unfoldable pub digest_text : Md5 → Str → Str
digest_text md5 text = hex (take md5_digest_bytes (md5 text))
