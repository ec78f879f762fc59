-- ===== src/Util/BlockIter/Tests.antt =====
-- The unit test of rcore-fs/src/util.rs, and the theorem on `BlockIter` at its input.
use rcore_fs.Base.{◌≡◌, refl, some, List, [], ◌∷◌, arith}
use rcore_fs.Util.BlockIter.{BlockIter, BlockRange, ranges}
use rcore_fs.Util.BlockIter.Cover.{Tiles, ranges-Tiles}

abbrev span : BlockIter
span = record { begin = 0x123; end = 0x2018; block_size_log2 = 12 }

abbrev expected : List BlockRange
expected =
    record { block = 0; begin = 0x123; end = 0x1000; block_size_log2 = 12 }
    ∷ record { block = 1; begin = 0; end = 0x1000; block_size_log2 = 12 }
    ∷ record { block = 2; begin = 0; end = 0x18; block_size_log2 = 12 }
    ∷ []

ranges-span : ranges 8 span ≡ some expected
unfolding ranges
ranges-span = refl

ranges-Tiles_example :
    (rs : List BlockRange) × (ranges 0x2000 span ≡ some rs) × Tiles 12 0x123 0x2018 rs
ranges-Tiles_example = ranges-Tiles 0x2000 span (omega arith) (omega arith)
