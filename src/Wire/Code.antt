-- ===== src/Wire/Code.antt =====
-- pkg/msgpack/msgpcode/msgpcode.go: the opcode constants and the predicates on a leading byte.
use msgpack.Prelude.{ℕ, Bool, ◌&&◌, ◌||◌, leb, ◌==◌}

abbrev pub pos_fixed_num_high : ℕ
pos_fixed_num_high = 0x7f

abbrev pub neg_fixed_num_low : ℕ
neg_fixed_num_low = 0xe0

abbrev pub nil_code : ℕ
nil_code = 0xc0

abbrev pub false_code : ℕ
false_code = 0xc2

abbrev pub true_code : ℕ
true_code = 0xc3

abbrev pub float_code : ℕ
float_code = 0xca

abbrev pub double_code : ℕ
double_code = 0xcb

abbrev pub uint8_code : ℕ
uint8_code = 0xcc

abbrev pub uint16_code : ℕ
uint16_code = 0xcd

abbrev pub uint32_code : ℕ
uint32_code = 0xce

abbrev pub uint64_code : ℕ
uint64_code = 0xcf

abbrev pub int8_code : ℕ
int8_code = 0xd0

abbrev pub int16_code : ℕ
int16_code = 0xd1

abbrev pub int32_code : ℕ
int32_code = 0xd2

abbrev pub int64_code : ℕ
int64_code = 0xd3

abbrev pub fixed_str_low : ℕ
fixed_str_low = 0xa0

abbrev pub fixed_str_high : ℕ
fixed_str_high = 0xbf

abbrev pub fixed_str_mask : ℕ
fixed_str_mask = 0x1f

abbrev pub str8_code : ℕ
str8_code = 0xd9

abbrev pub str16_code : ℕ
str16_code = 0xda

abbrev pub str32_code : ℕ
str32_code = 0xdb

abbrev pub bin8_code : ℕ
bin8_code = 0xc4

abbrev pub bin16_code : ℕ
bin16_code = 0xc5

abbrev pub bin32_code : ℕ
bin32_code = 0xc6

abbrev pub fixed_array_low : ℕ
fixed_array_low = 0x90

abbrev pub fixed_array_high : ℕ
fixed_array_high = 0x9f

abbrev pub fixed_array_mask : ℕ
fixed_array_mask = 0xf

abbrev pub array16_code : ℕ
array16_code = 0xdc

abbrev pub array32_code : ℕ
array32_code = 0xdd

abbrev pub fixed_map_low : ℕ
fixed_map_low = 0x80

abbrev pub fixed_map_high : ℕ
fixed_map_high = 0x8f

abbrev pub fixed_map_mask : ℕ
fixed_map_mask = 0xf

abbrev pub map16_code : ℕ
map16_code = 0xde

abbrev pub map32_code : ℕ
map32_code = 0xdf

abbrev pub fix_ext1_code : ℕ
fix_ext1_code = 0xd4

abbrev pub fix_ext2_code : ℕ
fix_ext2_code = 0xd5

abbrev pub fix_ext4_code : ℕ
fix_ext4_code = 0xd6

abbrev pub fix_ext8_code : ℕ
fix_ext8_code = 0xd7

abbrev pub fix_ext16_code : ℕ
fix_ext16_code = 0xd8

abbrev pub ext8_code : ℕ
ext8_code = 0xc7

abbrev pub ext16_code : ℕ
ext16_code = 0xc8

abbrev pub ext32_code : ℕ
ext32_code = 0xc9

unfoldable pub is_fixed_num : ℕ → Bool
is_fixed_num c = leb c pos_fixed_num_high || leb neg_fixed_num_low c

unfoldable pub is_fixed_map : ℕ → Bool
is_fixed_map c = leb fixed_map_low c && leb c fixed_map_high

unfoldable pub is_fixed_array : ℕ → Bool
is_fixed_array c = leb fixed_array_low c && leb c fixed_array_high

unfoldable pub is_fixed_string : ℕ → Bool
is_fixed_string c = leb fixed_str_low c && leb c fixed_str_high

unfoldable pub is_string : ℕ → Bool
unfolding is_fixed_string
is_string c = is_fixed_string c || c == str8_code || c == str16_code || c == str32_code

unfoldable pub is_bin : ℕ → Bool
is_bin c = c == bin8_code || c == bin16_code || c == bin32_code

unfoldable pub is_fixed_ext : ℕ → Bool
is_fixed_ext c = leb fix_ext1_code c && leb c fix_ext16_code

unfoldable pub is_ext : ℕ → Bool
unfolding is_fixed_ext
is_ext c = is_fixed_ext c || c == ext8_code || c == ext16_code || c == ext32_code
