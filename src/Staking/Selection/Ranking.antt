-- ===== src/Staking/Selection/Ranking.antt =====
-- The order by which pallets/sequencer-staking/src/lib.rs ranks candidates: amount, then owner.
use popsicle.Prelude.{ℕ, ◌≡◌, true, false, leb, arith}
use popsicle.Staking.Types.{Bond}
use popsicle.Staking.Selection.{outranks}

pub outranks-total : (a b : Bond) → outranks a b ≡ false → outranks b a ≡ true
unfolding outranks
outranks-total a b h = ground arith

pub outranks_trans :
    (a b c : Bond) → outranks a b ≡ true → outranks b c ≡ true → outranks a c ≡ true
unfolding outranks
outranks_trans a b c h k = ground arith

pub leb-total : (a b : ℕ) → leb a b ≡ false → leb b a ≡ true
leb-total a b h = ground arith

pub leb_trans : (a b c : ℕ) → leb a b ≡ true → leb b c ≡ true → leb a c ≡ true
leb_trans a b c h k = ground arith
