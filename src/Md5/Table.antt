-- ===== src/Md5/Table.antt =====
-- The table of MD5Transform in include/md5.h.
use sws.Base.{ℕ, List, [], ◌∷◌}

-- The four basic functions.
pub data Round : Type 0 where
  ff gg hh ii : Round

-- A line of the transformation: the function, the word of the block, the shift and the constant.
pub record Operation : Type 0 where
  pub round : Round
  pub word : ℕ
  pub shift : ℕ
  pub constant : ℕ

abbrev operation : Round → ℕ → ℕ → ℕ → Operation
operation round word shift constant = record {
  round = round;
  word = word;
  shift = shift;
  constant = constant;
}

-- The lines in their order. The variables that they name go round: a, d, c, b.
unfoldable pub operations : List Operation
operations =
    operation ff 0 7 0xd76aa478
    ∷ operation ff 1 12 0xe8c7b756
    ∷ operation ff 2 17 0x242070db
    ∷ operation ff 3 22 0xc1bdceee
    ∷ operation ff 4 7 0xf57c0faf
    ∷ operation ff 5 12 0x4787c62a
    ∷ operation ff 6 17 0xa8304613
    ∷ operation ff 7 22 0xfd469501
    ∷ operation ff 8 7 0x698098d8
    ∷ operation ff 9 12 0x8b44f7af
    ∷ operation ff 10 17 0xffff5bb1
    ∷ operation ff 11 22 0x895cd7be
    ∷ operation ff 12 7 0x6b901122
    ∷ operation ff 13 12 0xfd987193
    ∷ operation ff 14 17 0xa679438e
    ∷ operation ff 15 22 0x49b40821
    ∷ operation gg 1 5 0xf61e2562
    ∷ operation gg 6 9 0xc040b340
    ∷ operation gg 11 14 0x265e5a51
    ∷ operation gg 0 20 0xe9b6c7aa
    ∷ operation gg 5 5 0xd62f105d
    ∷ operation gg 10 9 0x2441453
    ∷ operation gg 15 14 0xd8a1e681
    ∷ operation gg 4 20 0xe7d3fbc8
    ∷ operation gg 9 5 0x21e1cde6
    ∷ operation gg 14 9 0xc33707d6
    ∷ operation gg 3 14 0xf4d50d87
    ∷ operation gg 8 20 0x455a14ed
    ∷ operation gg 13 5 0xa9e3e905
    ∷ operation gg 2 9 0xfcefa3f8
    ∷ operation gg 7 14 0x676f02d9
    ∷ operation gg 12 20 0x8d2a4c8a
    ∷ operation hh 5 4 0xfffa3942
    ∷ operation hh 8 11 0x8771f681
    ∷ operation hh 11 16 0x6d9d6122
    ∷ operation hh 14 23 0xfde5380c
    ∷ operation hh 1 4 0xa4beea44
    ∷ operation hh 4 11 0x4bdecfa9
    ∷ operation hh 7 16 0xf6bb4b60
    ∷ operation hh 10 23 0xbebfbc70
    ∷ operation hh 13 4 0x289b7ec6
    ∷ operation hh 0 11 0xeaa127fa
    ∷ operation hh 3 16 0xd4ef3085
    ∷ operation hh 6 23 0x4881d05
    ∷ operation hh 9 4 0xd9d4d039
    ∷ operation hh 12 11 0xe6db99e5
    ∷ operation hh 15 16 0x1fa27cf8
    ∷ operation hh 2 23 0xc4ac5665
    ∷ operation ii 0 6 0xf4292244
    ∷ operation ii 7 10 0x432aff97
    ∷ operation ii 14 15 0xab9423a7
    ∷ operation ii 5 21 0xfc93a039
    ∷ operation ii 12 6 0x655b59c3
    ∷ operation ii 3 10 0x8f0ccc92
    ∷ operation ii 10 15 0xffeff47d
    ∷ operation ii 1 21 0x85845dd1
    ∷ operation ii 8 6 0x6fa87e4f
    ∷ operation ii 15 10 0xfe2ce6e0
    ∷ operation ii 6 15 0xa3014314
    ∷ operation ii 13 21 0x4e0811a1
    ∷ operation ii 4 6 0xf7537e82
    ∷ operation ii 11 10 0xbd3af235
    ∷ operation ii 2 15 0x2ad7d2bb
    ∷ operation ii 9 21 0xeb86d391
    ∷ []
