-- ===== src/Kv/Io/Retrieve.antt =====
-- A retrieval returns the bytes of a value.
use wild_cat.Common.{ℕ, ◌<◌, ◌≡◌, List}
use wild_cat.Zns.Report.{PrpCopy}
use wild_cat.Kv.Transfer.Bytes.{address_of}

-- no two bytes of a transfer have one address
abbrev pub AreApart : List PrpCopy → ℕ → Type 0
AreApart cs length = (i j : ℕ) → i < length → j < length → address_of cs i ≡ address_of cs j → i ≡ j
