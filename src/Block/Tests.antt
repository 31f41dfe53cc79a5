-- ===== src/Block/Tests.antt =====
-- The theorems of this folder at a device in memory with blocks of four bytes.
use p12_group.Base.{ℕ, ◌+◌, ◌*◌, ◌≡◌, refl, List, [], ◌∷◌, some, arith}
use p12_group.Block.{read_fully, write_fully, read}
use p12_group.Block.Ram.{Memory, disk_of, disk_of-IsBlockDevice}
use p12_group.Block.Interface.{BlockDevice, IsBlockDevice}
use p12_group.Block.Read.{Delivers, read_fully-Delivers}
use p12_group.Block.Write.{Stores, write_fully-Stores, read_fully-write_fully}

abbrev ram : BlockDevice Memory
ram = disk_of 4

ram-IsBlockDevice : IsBlockDevice ram
ram-IsBlockDevice = disk_of-IsBlockDevice 4 (omega arith)

abbrev numbered : Memory
numbered b i = b * 4 + i

-- Ten bytes from address 3 lie in four blocks.
three_blocks : read_fully ram numbered 3 10 ≡ some (3 ∷ 4 ∷ 5 ∷ 6 ∷ 7 ∷ 8 ∷ 9 ∷ 10 ∷ 11 ∷ 12 ∷ [])
unfolding read_fully read
three_blocks = refl

abbrev six : List ℕ
six = 90 ∷ 91 ∷ 92 ∷ 93 ∷ 94 ∷ 95 ∷ []

read_fully-Delivers_example :
    (bs : List ℕ) × (read_fully ram numbered 3 10 ≡ some bs) × Delivers ram numbered 3 10 bs
read_fully-Delivers_example = read_fully-Delivers ram ram-IsBlockDevice numbered 3 10 (omega arith)

write_fully-Stores_example :
    (s : Memory) × (write_fully ram numbered 3 six 6 ≡ some s) × Stores ram numbered 3 six 6 s
write_fully-Stores_example =
    write_fully-Stores ram ram-IsBlockDevice numbered 3 six 6 (omega arith) (omega arith)

read_fully-write_fully_example :
    (s : Memory) × (write_fully ram numbered 3 six 6 ≡ some s) × (read_fully ram s 3 6 ≡ some six)
read_fully-write_fully_example =
    read_fully-write_fully ram ram-IsBlockDevice numbered 3 six (omega arith)
