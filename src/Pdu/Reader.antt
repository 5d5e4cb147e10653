-- ===== src/Pdu/Reader.antt =====
-- `bytes.Buffer` as a reader: the octets that are left.
use gobac.Prelude.{ℕ, [], ◌∷◌, ◌++◌, length, take, drop, leb, ◌≡◌, arith}
use gobac.Prelude.{length-append, take-append, drop-append}
use gobac.Result.{Result, ok, err, truncated, ◌>>◌, check}
use gobac.Types.Bytes.{Bytes}

-- `ReadByte`
abbrev pub read_byte : Bytes → Result (ℕ × Bytes)
read_byte [] = err truncated
read_byte (b ∷ rest) = ok (b, rest)

-- `Next(n)`, refused where fewer than `n` octets are left.
unfoldable pub next : ℕ → Bytes → Result (Bytes × Bytes)
next n b = do check (leb n (length b)) truncated; ok (take n b, drop n b)

pub next-append : (bytes rest : Bytes) → next (length bytes) (bytes ++ rest) ≡ ok (bytes, rest)
unfolding next
next-append bytes rest =
    ground (arith, length-append bytes rest, take-append bytes rest, drop-append bytes rest)
