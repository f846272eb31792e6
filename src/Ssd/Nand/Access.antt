-- ===== src/Ssd/Nand/Access.antt =====
-- ssd.h: what is read at an address after a write through the pointer to a page or a block.
use wild_cat.Common.{◌≡◌, refl, arith, ◌⊎◌}
use wild_cat.Ssd.Nand.{Ppa, Ssd, NandBlock, get_blk, set_blk}

-- the two addresses have the same coordinates
abbrev pub SamePage : Ppa → Ppa → Type 0
SamePage p q = (p.ch ≡ q.ch) × (p.lun ≡ q.lun) × (p.pl ≡ q.pl) × (p.blk ≡ q.blk) × (p.pg ≡ q.pg)

abbrev pub SameBlock : Ppa → Ppa → Type 0
SameBlock p q = (p.ch ≡ q.ch) × (p.lun ≡ q.lun) × (p.pl ≡ q.pl) × (p.blk ≡ q.blk)

pub get_blk-set_blk :
    (ssd : Ssd) (p q : Ppa) (b : NandBlock) → SameBlock p q → get_blk (set_blk ssd p b) q ≡ b
get_blk-set_blk ssd p q b (ch, lun, pl, blk) = ground (arith, ch, lun, pl, blk)

pub get_blk-other :
    (ssd : Ssd) (p q : Ppa) (b : NandBlock)
    → (get_blk (set_blk ssd p b) q ≡ get_blk ssd q) ⊎ SameBlock p q
get_blk-other ssd p q b = ground arith

pub block_lem : (ssd : Ssd) (p q : Ppa) → SameBlock p q → get_blk ssd p ≡ get_blk ssd q
block_lem ssd p q (ch, lun, pl, blk) = rw (ch, lun, pl, blk) refl
