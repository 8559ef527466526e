-- ===== src/Constants.antt =====
-- src/library/include/constants.h: the sizes that the programs sweep over, and the two numbers of the
-- machine. `b64` is `_64B`, `kb4` is `_4KB` and so on.
use microrev.Common.{ℕ}

abbrev pub default_phys_core_count : ℕ
default_phys_core_count = 4

abbrev pub b8 : ℕ
b8 = 8

abbrev pub b16 : ℕ
b16 = 16

abbrev pub b32 : ℕ
b32 = 32

abbrev pub b64 : ℕ
b64 = 64

abbrev pub b128 : ℕ
b128 = 128

abbrev pub b256 : ℕ
b256 = 256

abbrev pub b512 : ℕ
b512 = 512

abbrev pub kb1 : ℕ
kb1 = 1024

abbrev pub kb2 : ℕ
kb2 = 2048

abbrev pub kb4 : ℕ
kb4 = 4096

abbrev pub kb8 : ℕ
kb8 = 8192

abbrev pub kb16 : ℕ
kb16 = 16384

abbrev pub kb32 : ℕ
kb32 = 32768

abbrev pub kb64 : ℕ
kb64 = 65536

abbrev pub kb128 : ℕ
kb128 = 131072

abbrev pub kb256 : ℕ
kb256 = 262144

abbrev pub kb512 : ℕ
kb512 = 524288

abbrev pub mb1 : ℕ
mb1 = 1048576

abbrev pub mb2 : ℕ
mb2 = 2097152

abbrev pub mb4 : ℕ
mb4 = 4194304
