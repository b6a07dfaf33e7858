-- ===== src/Fat/MountTests.antt =====
-- The start of the file system on a small card, and writes there.
use ee459spring.Io.Memory.{memory}
use ee459spring.Io.Buffer.{write_all}
use ee459spring.Fat.{File}
use ee459spring.Fat.Files.{entry_offset, fat32_write_file_nbytes}
use ee459spring.Fat.Write.{Leaves, grow, write_file_nbytes-grow}
use ee459spring.Fat.Table.{fat32_update_fat, update_fat-IsChain}
use ee459spring.Fat.Follow.{IsChain}
use ee459spring.Fat.Sample.{mounted}
use ee459spring.Base.{◌≡◌, arith}
use ee459spring.Base.{refl, [], ◌∷◌, replicate}
use ee459spring.Io.Ram.{ram}
use ee459spring.Fat.Mount.{initialize_fat32-Lists, Mounted}
use ee459spring.Fat.Sample.{
  ram-Answers, at_start, no_file, empty, the_file, stored, fat32_there, boot_near, Lists-here,
}

initialize_fat32-Lists_example :
    Mounted ram ram-Answers stored 2 512 (replicate 512 7) no_file empty (the_file ∷ []) at_start
initialize_fat32-Lists_example =
    initialize_fat32-Lists ram ram-Answers 2 512 (replicate 512 7) no_file empty (the_file ∷ [])
      at_start refl refl fat32_there boot_near Lists-here

abbrev written : File
written = record no_file { root_dir_offset = 1; current_cluster = 5; current_byte_offset = 3072 }

write_file_nbytes-grow_example :
    (let out =
        fat32_write_file_nbytes ram
          (λ _. 0)
          (replicate 32 7)
          mounted
          written
          (1 ∷ 2 ∷ [])
          at_start in
      (out.0 ≡ 0)
      × (out.1 ≡ record written { current_byte_offset = 3074 })
      × Leaves ram ram-Answers 0 refl
          (grow
            (write_all (memory ram at_start) 3072 (1 ∷ 2 ∷ []))
            (entry_offset mounted written)
            2)
          out.2)
write_file_nbytes-grow_example =
    write_file_nbytes-grow ram ram-Answers 0 refl 7 (replicate 31 7) mounted written 1 (2 ∷ [])
      at_start (record { input = omega arith; output = omega arith }) refl refl (omega arith)
      (omega arith) (omega arith)

update_fat-IsChain_example :
    (let out = fat32_update_fat ram (λ _. 0) (λ _. 0) mounted written 9 at_start in
      (out.1.fat_list ≡ 9 ∷ []) × IsChain (memory ram out.2) mounted 9 out.1.fat_list)
update_fat-IsChain_example =
    update_fat-IsChain ram ram-Answers 0 refl (λ _. 0) mounted written 9 at_start
      (record { input = omega arith; output = omega arith }) refl (omega arith) refl
