-- ===== src/Blockstore/Badger/Median/Padded.antt =====
-- The index of the median against the median of the padded list.
