-- ===== src/Number/Tests.antt =====
-- Runs of the number functions of kernel/src/utility.c and kernel/src/serial/serial.c.
use bin_os_c.Base.{◌≡◌, some, arith}
use bin_os_c.Base.Int.{negsuc}
use bin_os_c.CString.{Buffer}
use bin_os_c.Number.{uint_to_string, int_to_string, to_string}
use bin_os_c.Number.Read.{ReadsBack}
use bin_os_c.Number.Static.{int_to_string-to_string, SameString}
use bin_os_c.Number.Same.{uint_to_string-ReadsBack, split_10, small_10, split_16, small_16}

abbrev digits_array : Buffer
digits_array = record { size = 32; at = λ i. 7 }

abbrev static_array : Buffer
static_array = record { size = 20; at = λ i. 0 }

uint_to_string-ReadsBack_example :
    ((b : Buffer) × (uint_to_string 48879 digits_array 10 ≡ some b)
      × ReadsBack 10 split_10 small_10 b 48879)
    × ((b : Buffer) × (uint_to_string 48879 digits_array 16 ≡ some b)
        × ReadsBack 16 split_16 small_16 b 48879)
uint_to_string-ReadsBack_example =
    uint_to_string-ReadsBack 48879 digits_array (omega arith) (omega arith)

int_to_string-to_string_example :
    (b b' : Buffer) × (int_to_string (negsuc 41) digits_array 10 ≡ some b)
    × (to_string (negsuc 41) static_array ≡ some b')
    × SameString b b'
int_to_string-to_string_example =
    int_to_string-to_string (negsuc 41) digits_array static_array (omega arith) (omega arith)
      (omega arith)
