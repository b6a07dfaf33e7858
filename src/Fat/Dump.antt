-- ===== src/Fat/Dump.antt =====
-- src/fat.c: the functions that print an entry, a file or a cluster: what the UART or `printf` is given.
use ee459spring.Base.{
  ℕ, List, ◌∷◌, [], ◌++◌, codes, zero, suc, ◌/◌, ◌%◌, ltb, hex_digit, c_string, if◌then◌else◌,
}
use ee459spring.Uart.{uart_write_strn, uart_write_32}
use ee459spring.Fat.Layout.{Entry, le32}
use ee459spring.Fat.{File, fat32_calc_first_cluster}

unfoldable pub fat32_dump_filename : Entry → List ℕ
unfolding uart_write_strn
fat32_dump_filename e =
    uart_write_strn e.filename 8 ++ (codes "." ++ uart_write_strn e.filename_ext 3)

abbrev crlf : List ℕ
crlf = 13 ∷ 10 ∷ []

unfoldable pub fat32_dump_entry : Entry → List ℕ
unfolding uart_write_strn uart_write_32
fat32_dump_entry e =
    codes "file name: "
    ++ (uart_write_strn e.filename 8
        ++ (codes "."
            ++ (uart_write_strn e.filename_ext 3
                ++ (crlf
                    ++ codes "file size: 0x"
                    ++ (uart_write_32 e.file_size
                        ++ (crlf
                            ++ codes "first cluster address: 0x"
                            ++ (uart_write_32 (
                                  fat32_calc_first_cluster e.first_cluster_addr_high
                                    e.first_cluster_addr_low)
                                ++ crlf)))))))

unfoldable pub fat32_dump_address : ℕ → List ℕ
unfolding uart_write_32
fat32_dump_address dat = codes "fat list item: " ++ (uart_write_32 dat ++ crlf)

-- `%lX` of a number below 16 to the power of the fuel
abbrev pub hex_number : ℕ → ℕ → List ℕ → List ℕ
hex_number zero n acc = acc
hex_number (suc fuel) n acc =
    let more = hex_number fuel (n / 16) (hex_digit (n % 16) ∷ acc) in
    if ltb n 16 then hex_digit n ∷ acc else more

-- The bytes of `struct fat32_file` from its extension on, without padding; `pointer` has the bytes of
-- `fat_list` and what follows it in memory.
abbrev pub from_ext : File → List ℕ → List ℕ
from_ext file pointer =
    file.file_ext
    ++ (le32 file.file_size
        ++ (le32 file.start_byte_offset
            ++ (le32 file.current_byte_offset
                ++ (le32 file.root_dir_offset
                    ++ (le32 file.current_cluster
                        ++ (le32 file.first_cluster
                            ++ (le32 file.current_sector
                                ++ (le32 file.sectors_per_cluster ++ pointer))))))))

-- one line with a number
abbrev pub number_line : List ℕ → ℕ → List ℕ
number_line label n = label ++ (hex_number 8 n [] ++ 10 ∷ [])

-- A name or an extension without a NUL is printed with the bytes that follow it.
unfoldable pub fat32_dump_file_meta : File → List ℕ → List ℕ
fat32_dump_file_meta file pointer =
    codes "file name: "
    ++ (c_string (file.file_name ++ from_ext file pointer)
        ++ (codes "."
            ++ (c_string (from_ext file pointer)
                ++ (10
                    ∷ (number_line (codes "file size: 0x") file.file_size
                        ++ (number_line (codes "file start byte: 0x") file.start_byte_offset
                            ++ (number_line (codes "file current cluster: 0x") file.current_cluster
                                ++ (number_line (codes "file sectors per cluster: 0x")
                                      file.sectors_per_cluster
                                    ++ (number_line (codes "file current sector: 0x")
                                          file.current_sector
                                        ++ number_line (codes "file root directory offset: 0x")
                                            file.root_dir_offset)))))))))
